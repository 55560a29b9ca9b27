-- ===== src/Flow/Delivery.antt =====
-- The way of a disk through the three parts: what the other two do after a scan that has published it.
use kubernetes_external_prov.Base.{
  All, Any, Bool, Dict, List, Result, String, [], contains, lookup, none, ok, some, subst, subst⁻¹,
  true, ◌∙◌, ◌∷◌, ◌≡◌, ◌≢◌,
}
use kubernetes_external_prov.Exec.{Exec}
use kubernetes_external_prov.Flow.DiskMapJson.{decode_disk_map, encode_disk_map}
use kubernetes_external_prov.Flow.DiskMapJson.ReadBack.{IsUint64}
use kubernetes_external_prov.Flow.Found.{HasFound, found-publish}
use kubernetes_external_prov.Fsutils.Device.{ℤ}
use kubernetes_external_prov.Models.{DeviceInfo, DiskEntry, annotation_disk_map}
use kubernetes_external_prov.NodeScanner.{
  Machine, NodePatch, ScannerConfig, current_uuids, disk_map_from, patch_labels, patch_node,
  publish, scan,
}
use kubernetes_external_prov.NodeScanner.DiskMap.{last_entry}
use kubernetes_external_prov.NodeScanner.Labels.{label_of_uuid, patch_labels-lookup}
use kubernetes_external_prov.Provisioner.{
  Node, PersistentVolume, ProvisionOptions, finished, provision,
}
use kubernetes_external_prov.Provisioner.Volume.{IsVolume}
use kubernetes_external_prov.Webhook.{Cluster}

-- The node has what the patch names: the labels and the annotations.
pub record IsPatched (p : NodePatch) (node : Node) : Type 0 where
  pub labelled : (k v : String) → lookup k p.labels ≡ some (some v) → lookup k node.labels ≡ some v
  pub annotated :
      (k v : String) → lookup k p.annotations ≡ some v → lookup k node.annotations ≡ some v

module _ {Q W : Type 0} (config : ScannerConfig) (machine : Machine W) (zero_quantity : Q)
    (new_quantity : ℤ → Q) (get_node : String → W → Result Node)
    (unmarshal : String → Result (Dict DiskEntry)) where
  -- What the API server documents of the scanner's node: a patch that succeeds is there to be read, and
  -- the success of a retry is that of its last try.
  pub record DeliveryLaws : Type 1 where
    pub patched :
        (p : NodePatch) (w : W)
        → (machine.patch_node config.node_name p w).0 ≡ ok tt
        → (node : Node) × (get_node config.node_name (machine.patch_node config.node_name p w).1
            ≡ ok node)
          × IsPatched p node
    pub retried :
        (m : Exec W (Unit {0})) (w : W)
        → (machine.retry_on_conflict m w).0 ≡ ok tt
        → (v : W) × ((m v).0 ≡ ok tt) × ((machine.retry_on_conflict m w).1 ≡ (m v).1)

  -- The webhook's lister of nodes has caught up with what the API server holds of the scanner's node in
  -- the state `w`: it lists the node by each of its labels.
  abbrev pub HasCaughtUp : Cluster → W → Type 0
  HasCaughtUp cluster w =
      (k v : String) (node : Node)
      → get_node config.node_name w ≡ ok node
      → lookup k node.labels ≡ some v
      → (names : List String) × (cluster.list_nodes k v ≡ ok names)
        × Any (λ n. n ≡ config.node_name) names

  -- The patch of a scan that finds these devices mounted.
  abbrev pub patch_of : List DeviceInfo → NodePatch
  patch_of devs = record {
    labels = patch_labels (current_uuids devs) (current_uuids devs);
    annotations = (annotation_disk_map, machine.marshal (disk_map_from [] devs)) ∷ [];
  }

  -- The node that is read then has what the patch of these devices names.
  pub record HasPublished (devs : List DeviceInfo) (w : W) : Type 0 where
    pub node : Node
    pub found : get_node config.node_name w ≡ ok node
    pub patched : IsPatched (patch_of devs) node

  -- A volume is given, the one that is due for the last device with the UUID.
  pub record IsProvided (devs : List DeviceInfo) (u : String) (options : ProvisionOptions Q) (w : W)
      : Type 0 where
    pub entry : DiskEntry
    pub last : last_entry none u devs ≡ some entry
    pub pv : PersistentVolume Q
    pub given :
        provision zero_quantity new_quantity get_node unmarshal options w ≡ (ok pv, finished)
    pub due : IsVolume zero_quantity new_quantity options entry pv

  module _ (laws : DeliveryLaws) where
    publish-HasPublished :
        (devs : List DeviceInfo) (w : W)
        → (publish config machine devs w).0 ≡ ok tt
        → HasPublished devs (publish config machine devs w).2
    unfolding publish patch_node
    publish-HasPublished devs w h =
        let (v, tried, same) =
          laws.retried (machine.patch_node config.node_name (patch_of devs)) w h in
        let (node, found, patched) = laws.patched (patch_of devs) v tried in
        subst⁻¹ (HasPublished devs) same (record { node = node; found = found; patched = patched })

    pub scan-HasPublished :
        (prev : List String) (w : W) (devs : List DeviceInfo)
        → HasFound config machine w devs
        → (scan config machine prev w).0 ≡ ok tt
        → HasPublished devs (scan config machine prev w).2
    scan-HasPublished prev w devs found h =
        let same = found-publish config machine prev w devs found in
        subst⁻¹ (λ (r : Result (Unit {0}) × List String × W). HasPublished devs r.2) same
          (publish-HasPublished devs _
            (subst (λ (r : Result (Unit {0}) × List String × W). r.0 ≡ ok tt) same h))

    module _ (named : config.node_name ≢ "") (devs : List DeviceInfo) (u : String)
        (current : contains (current_uuids devs) u ≡ true) (w : W)
        (written : machine.marshal (disk_map_from [] devs) ≢ "") (before : String → String → Bool)
        (read_back : unmarshal (machine.marshal (disk_map_from [] devs))
          ≡ decode_disk_map (encode_disk_map before (disk_map_from [] devs)))
        (sized : All IsUint64 devs) (published : HasPublished devs w) where
      labelled : lookup (label_of_uuid u) published.node.labels ≡ some "true"
      labelled =
          published.patched.labelled (label_of_uuid u) "true"
            (patch_labels-lookup (current_uuids devs) (current_uuids devs) u ∙ rw current)
