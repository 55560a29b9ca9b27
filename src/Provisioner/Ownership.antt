-- ===== src/Provisioner/Ownership.antt =====
-- `Delete` and the volumes that `Provision` gives.
use kubernetes_external_prov.Base.{Dict, Result, String, lookup, ok, read, ◌≡◌}
use kubernetes_external_prov.Fsutils.Device.{ℤ}
use kubernetes_external_prov.Models.{DiskEntry}
use kubernetes_external_prov.Provisioner.{
  Node, PersistentVolume, ProvisionOptions, delete, provision,
}
use kubernetes_external_prov.Provisioner.Outcome.{provision-ok_iff}

-- `Delete` accepts every volume that `Provision` gives.
pub delete-provision :
    {Q W : Type 0} (zero_quantity : Q) (new_quantity : ℤ → Q) (get_node : String → W → Result Node)
    (unmarshal : String → Result (Dict DiskEntry)) (options : ProvisionOptions Q) (w : W)
    (pv : PersistentVolume Q)
    → (provision zero_quantity new_quantity get_node unmarshal options w).0 ≡ ok pv
    → delete pv ≡ ok tt
unfolding delete read lookup
delete-provision zero_quantity new_quantity get_node unmarshal options w pv h =
    let (entry, has, due) =
      (provision-ok_iff zero_quantity new_quantity get_node unmarshal options w pv).0 h in
    rw (due.annotated)
