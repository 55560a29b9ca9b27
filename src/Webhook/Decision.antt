-- ===== src/Webhook/Decision.antt =====
-- Which pods are let through, refused, or pinned.
use kubernetes_external_prov.Base.{
  ==-false, Bool-cases, List, Result, Result-cases, String, [], ap, eq_of_==, err, false,
  false≢true, inl, inr, ne_of_==, none, none≢some, ok, ok-injective, ok≢err, refl, some,
  some-injective, sym, true, ◌==◌, ◌^^◌, ◌↔◌, ◌∙◌, ◌∷◌, ◌≡◌, ◌≢◌,
}
use kubernetes_external_prov.Models.{label_uuid_prefix}
use kubernetes_external_prov.Webhook.{
  Cluster, PatchOp, Pod, Response, allow, build_node_selector_patch, disk_uuid_for_pod, mutate,
}
use kubernetes_external_prov.Webhook.Asked.{Asks, disk_uuid_for_pod-Asks_iff}

-- The first claim of the pod that names a UUID names one whose label is listed, first for `node`.
pub record IsBoundTo (cluster : Cluster) (pod : Pod) (node : String) : Type 0 where
  pub uuid : String
  pub claimed : Asks cluster pod.namespace pod.volumes uuid
  pub others : List String
  pub listed : cluster.list_nodes (label_uuid_prefix ^^ uuid) "true" ≡ ok (node ∷ others)
  pub known : node ≢ ""

abbrev pub pinned : String → Pod → String → Response
pinned uid pod node = record {
  uid = uid;
  allowed = true;
  patch = some (build_node_selector_patch pod node);
  denial = none;
}

module _ (cluster : Cluster) (uid : String) (pod : Pod) where
  pub pinned_complete :
      (node : String)
      → IsBoundTo cluster pod node
      → mutate cluster uid (ok pod) ≡ pinned uid pod node
  unfolding mutate
  pinned_complete node p =
      rw ((disk_uuid_for_pod-Asks_iff cluster pod p.uuid p.claimed.0).1 p.claimed)
        (rw (==-false p.uuid "" p.claimed.0) (rw p.listed (rw (==-false node "" p.known))))

  data Decision : Type 0 where
    unconcerned : disk_uuid_for_pod cluster pod ≡ ok "" → Decision
    pinned_to : (node : String) → IsBoundTo cluster pod node → Decision
    denied :
        (mutate cluster uid (ok pod)).allowed ≡ false
        → disk_uuid_for_pod cluster pod ≢ ok ""
        → Decision

  node_decision :
      (uuid : String)
      → disk_uuid_for_pod cluster pod ≡ ok uuid
      → (uuid == "") ≡ false
      → (r : Result (List String)) → cluster.list_nodes (label_uuid_prefix ^^ uuid) "true" ≡ r
      → Decision
  unfolding mutate
  node_decision uuid claimed named (err e) failed =
      denied (rw claimed (rw named (rw failed)))
        (λ h. ne_of_== uuid "" named (ok-injective (sym claimed ∙ h)))
  node_decision uuid claimed named (ok []) none' =
      denied (rw claimed (rw named (rw none')))
        (λ h. ne_of_== uuid "" named (ok-injective (sym claimed ∙ h)))
  node_decision uuid claimed named (ok (node ∷ others)) listed = elim (Bool-cases (node == "")) [
    | inl blank ↦
        denied (rw claimed (rw named (rw listed (rw blank))))
          (λ h. ne_of_== uuid "" named (ok-injective (sym claimed ∙ h)))
    | inr known ↦ pinned_to node (record {
      uuid = uuid;
      claimed = (disk_uuid_for_pod-Asks_iff cluster pod uuid (ne_of_== uuid "" named)).0 claimed;
      others = others;
      listed = listed;
      known = ne_of_== node "" known;
    })
  ]

  decision : Decision
  decision = elim (Result-cases (disk_uuid_for_pod cluster pod)) [
    | inr (e, failed) ↦ denied (unfold mutate in rw failed) (λ h. ok≢err (sym h ∙ failed))
    | inl (uuid, claimed) ↦ elim (Bool-cases (uuid == "")) [
      | inl blank ↦ unconcerned (claimed ∙ ap ok (eq_of_== uuid "" blank))
      | inr named ↦ node_decision uuid claimed named _ refl
    ]
  ]

  unconcerned_complete :
      disk_uuid_for_pod cluster pod ≡ ok "" → mutate cluster uid (ok pod) ≡ allow uid
  unfolding mutate
  unconcerned_complete h = rw h

  -- A pod is let through with no patch exactly if none of its claims asks for a disk.
  pub mutate-allow_iff :
      (((mutate cluster uid (ok pod)).allowed ≡ true)
        × ((mutate cluster uid (ok pod)).patch ≡ none))
      ↔ (disk_uuid_for_pod cluster pod ≡ ok "")
  mutate-allow_iff = (
    λ h. go h decision,
    λ h. (
      ap (λ (r : Response). r.allowed) (unconcerned_complete h),
      ap (λ (r : Response). r.patch) (unconcerned_complete h),
    ),
  )
    where
      go :
          ((mutate cluster uid (ok pod)).allowed ≡ true)
            × ((mutate cluster uid (ok pod)).patch ≡ none)
          → Decision
          → disk_uuid_for_pod cluster pod ≡ ok ""
      go h (unconcerned e) = e
      go h (pinned_to node p) =
          absurd (none≢some (sym h.1 ∙ ap (λ (r : Response). r.patch) (pinned_complete node p)))
      go h (denied no' _) = absurd (false≢true (sym no' ∙ h.0))

  -- A pod is let through with a patch exactly if, of its volumes, the first claim that names a UUID
  -- (each claim before it being readable) names one for whose label a list of nodes is given that is
  -- not empty and whose first node has a name; the patch is the one that selects that node.
  pub mutate-pinned_iff :
      (ops : List PatchOp)
      → (((mutate cluster uid (ok pod)).allowed ≡ true)
          × ((mutate cluster uid (ok pod)).patch ≡ some ops))
        ↔ ((node : String) × IsBoundTo cluster pod node
            × (build_node_selector_patch pod node ≡ ops))
  mutate-pinned_iff ops = (
    λ h. go h decision,
    λ p. (
      ap (λ (r : Response). r.allowed) (pinned_complete p.0 p.1),
      ap (λ (r : Response). r.patch) (pinned_complete p.0 p.1) ∙ ap some p.2,
    ),
  )
    where
      go :
          ((mutate cluster uid (ok pod)).allowed ≡ true)
            × ((mutate cluster uid (ok pod)).patch ≡ some ops)
          → Decision
          → (node : String) × IsBoundTo cluster pod node
            × (build_node_selector_patch pod node ≡ ops)
      go h (unconcerned e) =
          absurd (none≢some (sym (ap (λ (r : Response). r.patch) (unconcerned_complete e)) ∙ h.1))
      go h (pinned_to node p) = (
        node,
        p,
        some-injective (sym (ap (λ (r : Response). r.patch) (pinned_complete node p)) ∙ h.1),
      )
      go h (denied no' _) = absurd (false≢true (sym no' ∙ h.0))
