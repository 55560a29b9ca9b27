-- ===== src/Flow/Published.antt =====
-- What `Provision` gives on a node whose annotation is the disk map of a scan.
use kubernetes_external_prov.Base.{
  ==-false, Bool, Dict, List, Option, Result, String, [], if◌then◌else◌, lookup, none, ok, read,
  some, ◌≡◌, ◌≢◌,
}
use kubernetes_external_prov.Fsutils.Device.{ℤ}
use kubernetes_external_prov.Models.{
  DeviceInfo, DiskEntry, annotation_disk_map, pvc_annotation_uuid,
}
use kubernetes_external_prov.NodeScanner.{disk_map_from}
use kubernetes_external_prov.NodeScanner.DiskMap.{disk_map-last, last_entry}
use kubernetes_external_prov.Provisioner.{
  Node, PersistentVolume, ProvisionOptions, ProvisioningState, from_entry, provision,
}

abbrev dropped_label : Bool → Option (Option String)
dropped_label b = if b then some none else none

module _ {Q W : Type 0} (zero_quantity : Q) (new_quantity : ℤ → Q)
    (get_node : String → W → Result Node) (unmarshal : String → Result (Dict DiskEntry))
    (marshal : Dict DiskEntry → String) where
  -- The node is the selected one of a claim that names a disk, and its annotation is the disk map of
  -- the mounted devices `devs`, in a form that is not empty and is read back with the same entries.
  pub record IsPublished (options : ProvisionOptions Q) (w : W) (devs : List DeviceInfo)
      : Type 0 where
    pub selected : options.selected_node_name ≢ ""
    pub claimed : read pvc_annotation_uuid options.pvc.annotations ≢ ""
    pub node : Node
    pub found : get_node options.selected_node_name w ≡ ok node
    pub annotated : read annotation_disk_map node.annotations ≡ marshal (disk_map_from [] devs)
    pub written : marshal (disk_map_from [] devs) ≢ ""
    pub disk_map : Dict DiskEntry
    pub read_back : unmarshal (marshal (disk_map_from [] devs)) ≡ ok disk_map
    pub same_entries : (u : String) → lookup u disk_map ≡ lookup u (disk_map_from [] devs)

  abbrev run : ProvisionOptions Q → W → Result (PersistentVolume Q) × ProvisioningState
  run = provision zero_quantity new_quantity get_node unmarshal

  abbrev pub claimed_uuid : ProvisionOptions Q → String
  claimed_uuid options = read pvc_annotation_uuid options.pvc.annotations

  -- Where a node was selected, the claim names a disk, and the node's annotation is the disk map
  -- of a scan and is read back with the same entries: the volume is that of the last mounted
  -- device with the UUID of the claim; if no device has it, there is none, and the scheduler is
  -- asked for another node.
  pub provision-last_entry :
      (options : ProvisionOptions Q) (w : W) (devs : List DeviceInfo)
      → IsPublished options w devs
      → run options w ≡ (
          from_entry zero_quantity new_quantity get_node unmarshal options
            (claimed_uuid options)
            (last_entry none (claimed_uuid options) devs))
  unfolding provision
  provision-last_entry options w devs h =
      rw
        (
          ==-false options.selected_node_name "" h.selected,
          ==-false (claimed_uuid options) "" h.claimed,
        )
        (rw h.found (
          rw h.annotated (
            rw (==-false (marshal (disk_map_from [] devs)) "" h.written) (
              rw h.read_back (
                rw (h.same_entries (claimed_uuid options))
                  (rw (disk_map-last devs (claimed_uuid options))))))))
