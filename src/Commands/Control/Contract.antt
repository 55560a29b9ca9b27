-- ===== src/Commands/Control/Contract.antt =====
-- What the controller asks of a provisioner, and that the local-disk provisioner keeps it.
use kubernetes_external_prov.Base.{
  ==-false, Dict, IsErr, Result, String, [], ap, lookup, ok, read, some, ◌∷◌, ◌≡◌, ◌≢◌,
}
use kubernetes_external_prov.Commands.Control.{ControllerProvisioner, as_provisioner}
use kubernetes_external_prov.Fsutils.Device.{ℤ}
use kubernetes_external_prov.Models.{
  DiskEntry, annotation_provisioned_by, provisioner_name, pvc_annotation_uuid,
}
use kubernetes_external_prov.Provisioner.{
  PersistentVolume, ProvisionOptions, ProvisionerClient, ProvisioningState, delete, finished,
  new_provisioner, reschedule,
}
use kubernetes_external_prov.Provisioner.Outcome.{
  provision-awaited, provision-ok_iff, provision_complete,
}
use kubernetes_external_prov.Provisioner.Ownership.{delete-provision}
use kubernetes_external_prov.Provisioner.Volume.{IsVolume}

-- The volume is that of the claim, and can be used on the selected node only.
pub record IsVolumeFor {Q : Type 0} (options : ProvisionOptions Q) (pv : PersistentVolume Q)
    : Type 0 where
  pub named : pv.name ≡ options.pv_name
  pub of_class : pv.storage_class_name ≡ options.storage_class.name
  pub accessed : pv.access_modes ≡ options.pvc.access_modes
  pub in_mode : pv.volume_mode ≡ options.pvc.volume_mode
  pub for_disk :
      lookup pvc_annotation_uuid pv.annotations
      ≡ some (read pvc_annotation_uuid options.pvc.annotations)
  pub on_node : pv.node_terms ≡ (
      (record {
        key = "kubernetes.io/hostname";
        operator = "In";
        values = options.selected_node_name ∷ [];
      }
        ∷ [])
      ∷ [])

-- A volume is given with the state that the work is finished, is that of the claim, and can be deleted;
-- another node is asked for only with an error; volumes that others have provisioned are refused.
pub record IsProvisioner {Q W : Type 0} (p : ControllerProvisioner Q W) : Type 0 where
  pub given :
      (options : ProvisionOptions Q) (w : W) (pv : PersistentVolume Q)
      → (p.provision options w).0 ≡ ok pv
      → IsVolumeFor options pv × ((p.provision options w).1 ≡ finished)
  pub deleted :
      (options : ProvisionOptions Q) (w : W) (pv : PersistentVolume Q)
      → (p.provision options w).0 ≡ ok pv
      → p.delete pv ≡ ok tt
  pub awaited :
      (options : ProvisionOptions Q) (w : W)
      → (p.provision options w).1 ≡ reschedule
      → IsErr (p.provision options w).0
  pub foreign :
      (pv : PersistentVolume Q)
      → read annotation_provisioned_by pv.annotations ≢ provisioner_name
      → IsErr (p.delete pv)

module _ {Q W : Type 0} (zero_quantity : Q) (new_quantity : ℤ → Q)
    (unmarshal : String → Result (Dict DiskEntry)) (client : ProvisionerClient W) where
  IsVolume-IsVolumeFor :
      (options : ProvisionOptions Q) (entry : DiskEntry) (pv : PersistentVolume Q)
      → IsVolume zero_quantity new_quantity options entry pv
      → IsVolumeFor options pv
  unfolding lookup
  IsVolume-IsVolumeFor options entry pv v = record {
    named = v.named;
    of_class = v.classed;
    accessed = v.accessed;
    in_mode = v.in_mode;
    for_disk = rw v.annotated;
    on_node = v.on_node;
  }

  foreign-refused :
      (pv : PersistentVolume Q)
      → read annotation_provisioned_by pv.annotations ≢ provisioner_name
      → IsErr (delete pv)
  unfolding delete
  foreign-refused pv h =
      rw (==-false (read annotation_provisioned_by pv.annotations) provisioner_name h) tt

  -- The provisioner that the command gives to the controller is one as the controller wants it: a
  -- volume that it gives has the name that was asked for, the class, access modes and volume mode
  -- of the claim, the claim's disk UUID in its annotation, and only the selected node's host name
  -- as its node selector; it comes with the state that the work is finished, and can be deleted;
  -- another node is asked for only with an error; the deletion of a volume without the
  -- provisioner's annotation is refused.
  pub as_provisioner-IsProvisioner :
      IsProvisioner (as_provisioner zero_quantity new_quantity unmarshal (new_provisioner client))
  as_provisioner-IsProvisioner = record {
    given = λ options w pv h.
        let (entry, has, due) =
          (provision-ok_iff zero_quantity new_quantity client.get_node unmarshal options w pv).0
            h in
        (
          IsVolume-IsVolumeFor options entry pv due,
          ap (λ (r : Result (PersistentVolume Q) × ProvisioningState). r.1)
              (provision_complete zero_quantity new_quantity client.get_node unmarshal options w
                entry has),
        );
    deleted = delete-provision zero_quantity new_quantity client.get_node unmarshal;
    awaited = provision-awaited zero_quantity new_quantity client.get_node unmarshal;
    foreign = foreign-refused;
  }
