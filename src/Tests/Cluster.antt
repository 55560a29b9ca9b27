-- ===== src/Tests/Cluster.antt =====
-- The provisioner and the webhook on a cluster of one node with one disk.
use kubernetes_external_prov.Base.{
  Dict, List, Result, String, [], arith, err, external, inr, lookup, ne_of_==, none, ok, read, refl,
  some, true, ℕ, ◌∷◌, ◌≡◌,
}
use kubernetes_external_prov.Fsutils.Device.{to_uint64, ℤ}
use kubernetes_external_prov.Models.{
  DeviceInfo, DiskEntry, annotation_disk_map, annotation_provisioned_by, mounted, provisioner_name,
  pvc_annotation_uuid,
}
use kubernetes_external_prov.Provisioner.{
  Node, PersistentVolume, ProvisionOptions, Pvc, provision, reschedule, retain,
}
use kubernetes_external_prov.Provisioner.Outcome.{IsAwaited, provision-reschedule_iff}
use kubernetes_external_prov.Webhook.{
  Cluster, Pod, build_node_selector_patch, disk_uuid_for_pod, mutate,
}
use kubernetes_external_prov.Webhook.Asked.{
  Asks, IsAnswer, disk_uuid_for_pod-IsAnswer, from_api_server, unclaimed,
}
use kubernetes_external_prov.Webhook.Decision.{IsBoundTo, mutate-pinned_iff}
use kubernetes_external_prov.Webhook.Patch.{
  Json, Members, apply_patch, member, no_member, obj, other, str,
}
use kubernetes_external_prov.Webhook.Patch.Pinning.{
  IsDocument, IsPinned, build_node_selector_patch-IsPinned, pin,
}

abbrev pub claim : Pvc ℕ
claim = record {
  namespace = "default";
  name = "data";
  annotations = (pvc_annotation_uuid, "u-1") ∷ [];
  requests = [];
  access_modes = "ReadWriteOnce" ∷ [];
  volume_mode = none;
}

abbrev pub request : ProvisionOptions ℕ
request = record {
  selected_node_name = "n1";
  pvc = claim;
  storage_class = record { name = "local-disk"; reclaim_policy = none };
  pv_name = "pvc-1";
}

abbrev pub disk_entry : DiskEntry
disk_entry = record { path = "/mnt/cubbit/u-1"; size = 104857600 }

-- The node has the annotation, and the annotation is a map with one disk.
abbrev one_node : String → List String → Result Node
one_node name w =
    ok (record { name = name; labels = []; annotations = (annotation_disk_map, "{}") ∷ [] })

abbrev pub one_disk : String → Result (Dict DiskEntry)
one_disk json = ok (("u-1", disk_entry) ∷ [])

abbrev no_disk : String → Result (Dict DiskEntry)
no_disk json = ok []

abbrev pub quantity : ℤ → ℕ
quantity z = to_uint64 z

-- The volume of the claim, in full.
abbrev the_volume : PersistentVolume ℕ
the_volume = record {
  name = request.pv_name;
  annotations = (annotation_provisioned_by, provisioner_name) ∷ (pvc_annotation_uuid, "u-1") ∷ [];
  reclaim_policy = retain;
  access_modes = request.pvc.access_modes;
  storage_class_name = request.storage_class.name;
  volume_mode = none;
  capacity = ("storage", disk_entry.size) ∷ [];
  local_path = disk_entry.path;
  node_terms =
      (record { key = "kubernetes.io/hostname"; operator = "In"; values = "n1" ∷ [] } ∷ []) ∷ [];
}

request-IsAwaited : IsAwaited 0 quantity one_node no_disk request []
unfolding read lookup
request-IsAwaited = record {
  selected = ne_of_== "n1" "" refl;
  claimed = ne_of_== "u-1" "" refl;
  node = record { name = "n1"; labels = []; annotations = (annotation_disk_map, "{}") ∷ [] };
  found = refl;
  lacking = inr (ne_of_== "{}" "" refl, ([], refl, refl));
}

provision-reschedule_iff_example : (provision 0 quantity one_node no_disk request []).1 ≡ reschedule
provision-reschedule_iff_example =
    (provision-reschedule_iff 0 quantity one_node no_disk request []).1 request-IsAwaited

-- The claim is not in the cache yet.
abbrev pub cluster : Cluster
cluster = record {
  cached_pvc = λ namespace name. err (external "not found");
  live_pvc = λ namespace name. ok ((pvc_annotation_uuid, "u-1") ∷ []);
  list_nodes = λ label value. ok ("n1" ∷ []);
}

abbrev pub pod : Pod
pod = record {
  name = "p";
  namespace = "default";
  volumes = record { claim_name = none } ∷ record { claim_name = some "data" } ∷ [];
  node_selector = some (("zone", "a") ∷ []);
}

abbrev plain_pod : Pod
plain_pod = record pod { volumes = [] }

disk_uuid_for_pod-IsAnswer_example :
    IsAnswer cluster "default" pod.volumes (disk_uuid_for_pod cluster pod)
disk_uuid_for_pod-IsAnswer_example = disk_uuid_for_pod-IsAnswer cluster pod

-- The first volume has no claim, and the claim of the second names the UUID.
pub pod-Asks :
    (nodes : String → String → Result (List String))
    → Asks (record cluster { list_nodes = nodes }) "default" pod.volumes "u-1"
unfolding read lookup
pod-Asks nodes = (
  ne_of_== "u-1" "" refl,
  record {
    before = record { claim_name = none } ∷ [];
    vol = record { claim_name = some "data" };
    after = [];
    split = refl;
    silent = (unclaimed refl, tt);
    holds = record {
      name = "data";
      claim = refl;
      annotations = (pvc_annotation_uuid, "u-1") ∷ [];
      is_read = from_api_server (external "not found") refl refl;
      named = refl;
    };
  },
)

pod-IsBoundTo : IsBoundTo cluster pod "n1"
pod-IsBoundTo = record {
  uuid = "u-1";
  claimed = pod-Asks cluster.list_nodes;
  others = [];
  listed = refl;
  known = ne_of_== "n1" "" refl;
}

mutate-pinned_iff_example :
    ((mutate cluster "r" (ok pod)).allowed ≡ true)
    × ((mutate cluster "r" (ok pod)).patch ≡ some (build_node_selector_patch pod "n1"))
mutate-pinned_iff_example =
    (mutate-pinned_iff cluster "r" pod (build_node_selector_patch pod "n1")).1
      ("n1", pod-IsBoundTo, refl)

abbrev pod_spec : Members
pod_spec =
    member "nodeSelector" (obj (member "zone" (str "a") no_member))
      (member "containers" (other "[]") no_member)

pod-IsDocument : IsDocument (obj (member "spec" (obj pod_spec) no_member)) pod.node_selector
unfolding lookup
pod-IsDocument = record {
  members = member "spec" (obj pod_spec) no_member;
  is_object = refl;
  spec = pod_spec;
  has_spec = refl;
  selects = (member "zone" (str "a") no_member, refl, λ k. ground arith);
}

build_node_selector_patch-IsPinned_example :
    (doc' : Json) × (apply_patch
        (build_node_selector_patch pod "n1")
        (obj (member "spec" (obj pod_spec) no_member))
      ≡ some doc')
    × IsPinned (obj (member "spec" (obj pod_spec) no_member)) doc' (pin "n1" pod.node_selector)
build_node_selector_patch-IsPinned_example =
    build_node_selector_patch-IsPinned pod "n1" (obj (member "spec" (obj pod_spec) no_member))
      pod-IsDocument

-- What a scan of a node with one mounted disk has published, over a JSON that writes every map as the same text.
abbrev disk_info : DeviceInfo
disk_info = record {
  uuid = "u-1";
  device = "/dev/sdc";
  mount_path = "/mnt/cubbit/u-1";
  fs_type = "ext4";
  status = mounted;
  total_size = 104857600;
  free_space = 104857600;
  used_space = 0;
}

abbrev braces : Dict DiskEntry → String
braces m = "{}"
