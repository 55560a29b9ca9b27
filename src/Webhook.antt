-- ===== src/Webhook.antt =====
-- webhook/internal/webhook/webhook.go. The listers and the client of the API server are the functions of
-- `Cluster`; decoding a request and a pod is done by packages outside the repository, so a decoded
-- request or pod, or the error, is an argument.
pub mod Asked
pub mod Decision
pub mod Patch
pub mod Certs
pub mod SelfSigned
pub mod CaBundle
use kubernetes_external_prov.Base.{
  Bool, Dict, Error, List, Option, Result, String, [], err, errorf, false, if◌then◌else◌, none, ok,
  read, some, true, wrap, wrapf, ℕ, ◌==◌, ◌>>=◌, ◌^^◌, ◌∷◌,
}
use kubernetes_external_prov.Models.{label_uuid_prefix, pvc_annotation_uuid}

-- A volume of a pod: the name of its claim, if it is one.
pub record Volume : Type 0 where
  pub claim_name : Option String

pub record Pod : Type 0 where
  pub name : String
  pub namespace : String
  pub volumes : List Volume
  pub node_selector : Option (Dict String)

-- `patchOp`, with the two kinds of values that the code gives.
pub data PatchValue : Type 0 where
  text : String → PatchValue
  object : Dict String → PatchValue

pub record PatchOp : Type 0 where
  pub op : String
  pub path : String
  pub value : PatchValue

-- `AdmissionResponse`: the patch is none without one; the denial is the message of its status.
pub record Response : Type 0 where
  pub uid : String
  pub allowed : Bool
  pub patch : Option (List PatchOp)
  pub denial : Option (ℕ × Error)

-- The struct `Webhook`, as what it asks of the cluster at the time of the request: the claim's annotations from the
-- informer's cache and from the API server, and the names of the nodes with a label.
pub record Cluster : Type 0 where
  pub cached_pvc : String → String → Result (Dict String)
  pub live_pvc : String → String → Result (Dict String)
  pub list_nodes : String → String → Result (List String)

-- `New`, at one time: what the client, the lister of claims and that of nodes answer then.
abbrev pub new_webhook :
    (live_pvc cached_pvc : String → String → Result (Dict String))
    (list_nodes : String → String → Result (List String))
    → Cluster
new_webhook live_pvc cached_pvc list_nodes = record {
  cached_pvc = cached_pvc;
  live_pvc = live_pvc;
  list_nodes = list_nodes;
}

abbrev pub allow : String → Response
allow uid = record { uid = uid; allowed = true; patch = none; denial = none }

abbrev pub deny : String → Error → Response
deny uid message = record { uid = uid; allowed = false; patch = none; denial = some (403, message) }

-- `buildNodeSelectorPatch`
unfoldable pub build_node_selector_patch : Pod → String → List PatchOp
build_node_selector_patch pod node_name = elim pod.node_selector [
  | none ↦
      record {
        op = "add";
        path = "/spec/nodeSelector";
        value = object (("kubernetes.io/hostname", node_name) ∷ []);
      }
      ∷ []
  | some selector ↦
      record {
        op = "add";
        path = "/spec/nodeSelector/kubernetes.io~1hostname";
        value = text node_name;
      }
      ∷ []
]

abbrev pub uuid_or : Result String → Result (Dict String) → Result String
uuid_or rest (err e) = err e
uuid_or rest (ok annotations) =
    let uuid = read pvc_annotation_uuid annotations in if uuid == "" then rest else ok uuid

abbrev pub first_node : List String → String
first_node [] = ""
first_node (n ∷ ns) = n

abbrev pub with_node : String → Pod → String → Result String → Response
with_node uid pod uuid (err e) =
    deny uid (wrapf "failed to find node for disk UUID %s: %v" (uuid ∷ []) e)
with_node uid pod uuid (ok node_name) =
    if node_name == ""
    then deny uid (
        errorf "no node has disk with UUID %s (label %s%s not found on any node)"
          (uuid ∷ label_uuid_prefix ∷ uuid ∷ []))
    else record {
      uid = uid;
      allowed = true;
      patch = some (build_node_selector_patch pod node_name);
      denial = none;
    }

-- The HTTP answer: a bad request, or the review with the response in place of the request.
pub data Reply : Type 0 where
  bad_request : Error → Reply
  reviewed : Response → Reply

module _ (cluster : Cluster) where
  -- The cache, and the API server if the cache misses.
  unfoldable pub get_pvc : String → String → Result (Dict String)
  get_pvc namespace name = elim (cluster.cached_pvc namespace name) [
    | ok annotations ↦ ok annotations
    | err e ↦ wrap "get PVC %s/%s: %w" (namespace ∷ name ∷ []) (cluster.live_pvc namespace name)
  ]

  -- The loop of `diskUUIDForPod`.
  unfoldable pub disk_uuid_from : String → List Volume → Result String
  unfolding get_pvc
  disk_uuid_from namespace [] = ok ""
  disk_uuid_from namespace (vol ∷ vols) =
      let rest = disk_uuid_from namespace vols in
      elim vol.claim_name [ none ↦ rest | some name ↦ uuid_or rest (get_pvc namespace name) ]

  -- `diskUUIDForPod`
  unfoldable pub disk_uuid_for_pod : Pod → Result String
  unfolding disk_uuid_from
  disk_uuid_for_pod pod = disk_uuid_from pod.namespace pod.volumes

  -- `findNodeForUUID`
  unfoldable pub find_node_for_uuid : String → Result String
  find_node_for_uuid uuid = do
    nodes ←
        wrap "list nodes with label %s: %w" ((label_uuid_prefix ^^ uuid) ∷ [])
          (cluster.list_nodes (label_uuid_prefix ^^ uuid) "true")
    ok (first_node nodes)

  abbrev pub with_uuid : String → Pod → Result String → Response
  with_uuid uid pod (err e) = deny uid (wrapf "failed to resolve disk UUID: %v" [] e)
  with_uuid uid pod (ok uuid) =
      if uuid == "" then allow uid else with_node uid pod uuid (find_node_for_uuid uuid)

  -- `mutate`, of a request with that UID and that pod.
  unfoldable pub mutate : String → Result Pod → Response
  unfolding disk_uuid_for_pod find_node_for_uuid build_node_selector_patch
  mutate uid (err e) = deny uid (wrapf "failed to decode pod: %v" [] e)
  mutate uid (ok pod) = with_uuid uid pod (disk_uuid_for_pod pod)

  -- `Handle`, of a decoded review: its request is there or not.
  unfoldable pub handle : Result (Option (String × Result Pod)) → Reply
  unfolding mutate
  handle (err e) = bad_request (wrapf "decode AdmissionReview: %v" [] e)
  handle (ok none) = bad_request (errorf "missing request in AdmissionReview" [])
  handle (ok (some (uid, pod))) = reviewed (mutate uid pod)
