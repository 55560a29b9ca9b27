-- ===== src/Webhook/Patch/Pinning.antt =====
-- The patched document is that of the pod, pinned.
use kubernetes_external_prov.Base.{
  ==-false, Dict, Option, Option-cases, String, [], arith, eq_iff, if◌then◌else◌, inl, inr, insert,
  lookup, lookup-insert, none, refl, some, subst, subst⁻¹, ◌==◌, ◌∙◌, ◌∷◌, ◌≡◌, ◌≢◌, ◌⊎◌,
}
use kubernetes_external_prov.Webhook.{Pod, build_node_selector_patch}
use kubernetes_external_prov.Webhook.Patch.{
  Json, Members, add_at, apply_op, apply_patch, get, get_member, inside, member, members_of,
  no_member, null, obj, set_member, str, tokens,
}

get_member-set :
    (k j : String) (v : Json) (ms : Members)
    → get_member j (set_member k v ms) ≡ (if k == j then some v else get_member j ms)
get_member-set k j v no_member = refl
get_member-set k j v (member i u ms) =
    ground (arith, eq_iff k j, eq_iff i k, eq_iff i j, get_member-set k j v ms)

abbrev pub as_text : Option String → Option Json
as_text none = none
as_text (some v) = some (str v)

get_member-members_of :
    (m : Dict String) (k : String) → get_member k (members_of m) ≡ as_text (lookup k m)
unfolding lookup
get_member-members_of [] k = refl
get_member-members_of ((j, v) ∷ m) k = ground (arith, get_member-members_of m k)

-- The node selector that the members of a spec give: none if it is missing or null.
abbrev pub IsSelector : Members → Option (Dict String) → Type 0
IsSelector spec none =
    (get_member "nodeSelector" spec ≡ none) ⊎ (get_member "nodeSelector" spec ≡ some null)
IsSelector spec (some m) =
    (members : Members) × (get_member "nodeSelector" spec ≡ some (obj members))
    × ((k : String) → get_member k members ≡ as_text (lookup k m))

-- An object with a spec whose node selector is the given one.
pub record IsDocument (doc : Json) (selector : Option (Dict String)) : Type 0 where
  pub members : Members
  pub is_object : doc ≡ obj members
  pub spec : Members
  pub has_spec : get_member "spec" members ≡ some (obj spec)
  pub selects : IsSelector spec selector

-- The selector with the host name set to `node`, whatever it was.
abbrev pub pin : String → Option (Dict String) → Dict String
pin node none = insert "kubernetes.io/hostname" node []
pin node (some m) = insert "kubernetes.io/hostname" node m

-- A member of the document's spec.
abbrev pub in_spec : String → Json → Option Json
in_spec k doc = inside (get "spec" doc) (get k)

-- The document with another node selector.
abbrev replaced : Members → Members → Members → Json
replaced members spec selector =
    obj (set_member "spec" (obj (set_member "nodeSelector" (obj selector) spec)) members)

-- What is asked of the patched document.
abbrev pub IsPinned : Json → Json → Dict String → Type 0
IsPinned doc doc' selector =
    IsDocument doc' (some selector)
    × ((k : String) → "spec" ≢ k → get k doc' ≡ get k doc)
    × ((k : String) → "nodeSelector" ≢ k → in_spec k doc' ≡ in_spec k doc)

module _ (members spec : Members) (has_spec : get_member "spec" members ≡ some (obj spec))
    (sel : Members) (selector : Dict String)
    (reads : (k : String) → get_member k sel ≡ as_text (lookup k selector)) where
  replaced-IsPinned : IsPinned (obj members) (replaced members spec sel) selector
  replaced-IsPinned = (
    record {
      members = set_member "spec" (obj (set_member "nodeSelector" (obj sel) spec)) members;
      is_object = refl;
      spec = set_member "nodeSelector" (obj sel) spec;
      has_spec = get_member-set "spec" "spec" _ members;
      selects = (sel, get_member-set "nodeSelector" "nodeSelector" _ spec, reads);
    },
    λ k apart. get_member-set "spec" k _ members ∙ rw (==-false "spec" k apart),
    λ k apart. rw (
      get_member-set "spec" "spec" (obj (set_member "nodeSelector" (obj sel) spec)) members,
      has_spec,
      get_member-set "nodeSelector" k (obj sel) spec,
      ==-false "nodeSelector" k apart,
    ),
  )

set_member-reads :
    (sel : Members) (m : Dict String) (node : String)
    → ((k : String) → get_member k sel ≡ as_text (lookup k m))
    → (k : String)
    → get_member k (set_member "kubernetes.io/hostname" (str node) sel)
      ≡ as_text (lookup k (insert "kubernetes.io/hostname" node m))
set_member-reads sel m node reads k =
    rw
      (
        get_member-set "kubernetes.io/hostname" k (str node) sel,
        lookup-insert "kubernetes.io/hostname" k node m,
      )
      (ground (arith, reads k))

selector_tokens : tokens "/spec/nodeSelector" ≡ "spec" ∷ "nodeSelector" ∷ []
unfolding tokens
selector_tokens = refl

host_tokens :
    tokens "/spec/nodeSelector/kubernetes.io~1hostname"
    ≡ "spec" ∷ "nodeSelector" ∷ "kubernetes.io/hostname" ∷ []
unfolding tokens
host_tokens = refl

module _ (members spec : Members) (has_spec : get_member "spec" members ≡ some (obj spec))
    (node : String) where
  add_selector :
      (sel : Members)
      → add_at ("spec" ∷ "nodeSelector" ∷ []) (obj sel) (obj members)
        ≡ some (replaced members spec sel)
  unfolding add_at
  add_selector sel = rw has_spec

  add_host :
      (sel : Members)
      → get_member "nodeSelector" spec ≡ some (obj sel)
      → add_at ("spec" ∷ "nodeSelector" ∷ "kubernetes.io/hostname" ∷ []) (str node) (obj members)
        ≡ some (replaced members spec (set_member "kubernetes.io/hostname" (str node) sel))
  unfolding add_at
  add_host sel there = rw has_spec (rw there)

  module _ (pod : Pod) where
    patch_unset :
        pod.node_selector ≡ none
        → apply_patch (build_node_selector_patch pod node) (obj members)
          ≡ some (replaced members spec (members_of (("kubernetes.io/hostname", node) ∷ [])))
    unfolding build_node_selector_patch apply_patch apply_op
    patch_unset unset =
        rw (unset, build_node_selector_patch)
          (rw (selector_tokens, apply_patch, apply_op) (rw add_selector))

    patch_set :
        (m : Dict String) (sel : Members)
        → pod.node_selector ≡ some m
        → get_member "nodeSelector" spec ≡ some (obj sel)
        → apply_patch (build_node_selector_patch pod node) (obj members)
          ≡ some (replaced members spec (set_member "kubernetes.io/hostname" (str node) sel))
    unfolding build_node_selector_patch apply_patch apply_op
    patch_set m sel set there =
        rw (set, build_node_selector_patch)
          (rw (host_tokens, apply_patch, apply_op) (rw (add_host sel there)))

-- Applied to the document of a pod, the patch succeeds, and gives a document whose node selector is that
-- of the pod with the host name set to the node, and that is the same everywhere else.
pub build_node_selector_patch-IsPinned :
    (pod : Pod) (node : String) (doc : Json)
    → IsDocument doc pod.node_selector
    → (doc' : Json) × (apply_patch (build_node_selector_patch pod node) doc ≡ some doc')
      × IsPinned doc doc' (pin node pod.node_selector)
unfolding insert
build_node_selector_patch-IsPinned pod node doc h = elim (Option-cases pod.node_selector) [
  | inl unset ↦
      let host : Dict String = ("kubernetes.io/hostname", node) ∷ [] in
      let doc' : Json = replaced h.members h.spec (members_of host) in
      (
        doc',
        subst⁻¹ (λ d. apply_patch (build_node_selector_patch pod node) d ≡ some doc') h.is_object
            (patch_unset h.members h.spec h.has_spec node pod unset),
        subst⁻¹ (λ o. IsPinned doc doc' (pin node o)) unset
            (subst⁻¹ (λ d. IsPinned d doc' host) h.is_object
              (replaced-IsPinned h.members h.spec h.has_spec (members_of host) host
                (get_member-members_of host))),
      )
  | inr (m, set) ↦
      let (sel, there, reads) = subst (IsSelector h.spec) set h.selects in
      let sel' : Members = set_member "kubernetes.io/hostname" (str node) sel in
      let doc' : Json = replaced h.members h.spec sel' in
      (
        doc',
        subst⁻¹ (λ d. apply_patch (build_node_selector_patch pod node) d ≡ some doc') h.is_object
            (patch_set h.members h.spec h.has_spec node pod m sel set there),
        subst⁻¹ (λ o. IsPinned doc doc' (pin node o)) set
            (subst⁻¹ (λ d. IsPinned d doc' (pin node (some m))) h.is_object
              (replaced-IsPinned h.members h.spec h.has_spec sel' (pin node (some m))
                (set_member-reads sel m node reads))),
      )
]
