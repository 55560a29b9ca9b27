-- ===== src/Provisioner.antt =====
-- provisioner/internal/provisioner/provisioner.go. The quantities of Kubernetes are a type `Q`, with the
-- zero one and `resource.NewQuantity(n, BinarySI)`; `get_node` asks the API server; `unmarshal` is
-- `json.Unmarshal` into a disk map.
pub mod Volume
pub mod Outcome
pub mod Ownership
use kubernetes_external_prov.Base.{
  Dict, List, Option, Result, String, [], err, errorf, if◌then◌else◌, lookup, ltb, none, ok, read,
  some, wrapf, ℕ, ◌-◌, ◌==◌, ◌^◌, ◌∷◌,
}
use kubernetes_external_prov.Fsutils.Device.{negsuc, pos, ℤ}
use kubernetes_external_prov.Models.{
  DiskEntry, annotation_disk_map, annotation_provisioned_by, provisioner_name, pvc_annotation_uuid,
}

-- `int64(n)` of a `uint64`.
unfoldable pub to_int64 : ℕ → ℤ
to_int64 n = if ltb n (2 ^ 63) then pos n else negsuc (2 ^ 64 - 1 - n)

pub data ReclaimPolicy : Type 0 where
  retain delete_volume recycle : ReclaimPolicy

pub record Pvc (Q : Type 0) : Type 0 where
  pub namespace : String
  pub name : String
  pub annotations : Dict String
  pub requests : Dict Q
  pub access_modes : List String
  pub volume_mode : Option String

pub record StorageClass : Type 0 where
  pub name : String
  pub reclaim_policy : Option ReclaimPolicy

pub record ProvisionOptions (Q : Type 0) : Type 0 where
  pub selected_node_name : String
  pub pvc : Pvc Q
  pub storage_class : StorageClass
  pub pv_name : String

pub record Node : Type 0 where
  pub name : String
  pub labels : Dict String
  pub annotations : Dict String

-- One requirement of the node selector of a volume: key, operator, values.
pub record Requirement : Type 0 where
  pub key : String
  pub operator : String
  pub values : List String

pub record PersistentVolume (Q : Type 0) : Type 0 where
  pub name : String
  pub annotations : Dict String
  pub reclaim_policy : ReclaimPolicy
  pub access_modes : List String
  pub storage_class_name : String
  pub volume_mode : Option String
  pub capacity : Dict Q
  pub local_path : String
  pub node_terms : List (List Requirement)

pub data ProvisioningState : Type 0 where
  finished reschedule : ProvisioningState

abbrev pub or_retain : Option ReclaimPolicy → ReclaimPolicy
or_retain none = retain
or_retain (some p) = p

abbrev or_zero : {Q : Type 0} → Q → Option Q → Q
or_zero z none = z
or_zero z (some q) = q

module _ {Q W : Type 0} (zero_quantity : Q) (new_quantity : ℤ → Q)
    (get_node : String → W → Result Node) (unmarshal : String → Result (Dict DiskEntry)) where
  -- What `Provision` returns: a volume or an error, and the state.
  abbrev pub Reply : Type 0
  Reply = Result (PersistentVolume Q) × ProvisioningState

  unfoldable pub capacity_of : ProvisionOptions Q → DiskEntry → Q
  unfolding to_int64 lookup
  capacity_of options entry =
      if ltb 0 entry.size
      then new_quantity (to_int64 entry.size)
      else or_zero zero_quantity (lookup "storage" options.pvc.requests)

  unfoldable pub build_pv : ProvisionOptions Q → String → DiskEntry → PersistentVolume Q
  unfolding capacity_of
  build_pv options uuid entry = record {
    name = options.pv_name;
    annotations = (annotation_provisioned_by, provisioner_name) ∷ (pvc_annotation_uuid, uuid) ∷ [];
    reclaim_policy = or_retain options.storage_class.reclaim_policy;
    access_modes = options.pvc.access_modes;
    storage_class_name = options.storage_class.name;
    volume_mode = options.pvc.volume_mode;
    capacity = ("storage", capacity_of options entry) ∷ [];
    local_path = entry.path;
    node_terms =
        (record {
          key = "kubernetes.io/hostname";
          operator = "In";
          values = options.selected_node_name ∷ [];
        }
          ∷ [])
        ∷ [];
  }

  abbrev pub from_entry : ProvisionOptions Q → String → Option DiskEntry → Reply
  from_entry options uuid none = (
    err (
        errorf "UUID %s not found in disk map on node %s" (uuid ∷ options.selected_node_name ∷ [])),
    reschedule,
  )
  from_entry options uuid (some entry) = (ok (build_pv options uuid entry), finished)

  abbrev pub from_map : ProvisionOptions Q → String → Result (Dict DiskEntry) → Reply
  from_map options uuid (err e) = (
    err (wrapf "parse disk map annotation on node %s: %w" (options.selected_node_name ∷ []) e),
    finished,
  )
  from_map options uuid (ok disk_map) = from_entry options uuid (lookup uuid disk_map)

  abbrev pub from_node : ProvisionOptions Q → String → Result Node → Reply
  from_node options uuid (err e) =
      (err (wrapf "get node %s: %w" (options.selected_node_name ∷ []) e), finished)
  from_node options uuid (ok node) =
      let disk_map_json = read annotation_disk_map node.annotations in
      if disk_map_json == ""
      then (
        err (
            errorf "node %s has no %s annotation; scanner may not have run yet"
              (options.selected_node_name ∷ annotation_disk_map ∷ [])),
        reschedule,
      )
      else from_map options uuid (unmarshal disk_map_json)

  -- `Provision`
  unfoldable pub provision : ProvisionOptions Q → W → Reply
  unfolding build_pv read lookup
  provision options w =
      let uuid = read pvc_annotation_uuid options.pvc.annotations in
      if options.selected_node_name == ""
      then (
        err (
            errorf
              "no selected node for PVC %s/%s; StorageClass must use WaitForFirstConsumer binding mode"
              (options.pvc.namespace ∷ options.pvc.name ∷ [])),
        finished,
      )
      else if uuid == ""
      then (
        err (
            errorf "PVC %s/%s missing required annotation %s"
              (options.pvc.namespace ∷ options.pvc.name ∷ pvc_annotation_uuid ∷ [])),
        finished,
      )
      else from_node options uuid (get_node options.selected_node_name w)

-- The client of the API server, as far as `Provision` uses it.
pub record ProvisionerClient (W : Type 0) : Type 0 where
  pub get_node : String → W → Result Node

pub record LocalDiskProvisioner (W : Type 0) : Type 0 where
  pub client : ProvisionerClient W

-- `New`
abbrev pub new_provisioner : {W : Type 0} → ProvisionerClient W → LocalDiskProvisioner W
new_provisioner client = record { client = client }

-- `Delete`; the error is an `IgnoredError`.
unfoldable pub delete : {Q : Type 0} → PersistentVolume Q → Result (Unit {0})
unfolding read lookup
delete pv =
    if read annotation_provisioned_by pv.annotations == provisioner_name
    then ok tt
    else err (errorf "PV %s was not provisioned by %s" (pv.name ∷ provisioner_name ∷ []))
