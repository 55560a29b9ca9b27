-- ===== src/Provisioner/Volume.antt =====
-- The volume of a claim and an entry of a disk map, field by field.
use kubernetes_external_prov.Base.{
  Bool-cases, Dict, Option, Option-cases, Result, String, [], ap, arith, inl, inr, lookup, ltb,
  none, read, refl, some, subst⁻¹, sym, ◌-◌, ◌<◌, ◌^◌, ◌∙◌, ◌∷◌, ◌≡◌, ◌≤◌,
}
use kubernetes_external_prov.Fsutils.Device.{negsuc, pos, ℤ}
use kubernetes_external_prov.Models.{
  DiskEntry, annotation_provisioned_by, provisioner_name, pvc_annotation_uuid,
}
use kubernetes_external_prov.Provisioner.{
  Node, PersistentVolume, ProvisionOptions, ReclaimPolicy, build_pv, capacity_of, or_retain, retain,
  to_int64,
}

-- The reclaim policy is that of the class, and to retain where it has none.
pub data IsPolicy : Option ReclaimPolicy → ReclaimPolicy → Type 0 where
  of_class : (p : ReclaimPolicy) → IsPolicy (some p) p
  by_default : IsPolicy none retain

module _ {Q : Type 0} (zero_quantity : Q) (new_quantity : ℤ → Q) where
  -- The capacity is the disk's size as an `int64`; where the size is not known, what the claim
  -- requests of storage; and zero where it requests none.
  pub data IsCapacity (options : ProvisionOptions Q) (entry : DiskEntry) : Q → Type 0 where
    of_disk :
        0 < entry.size
        → entry.size < 2 ^ 63
        → IsCapacity options entry (new_quantity (pos entry.size))
    beyond_int64 :
        2 ^ 63 ≤ entry.size
        → IsCapacity options entry (new_quantity (negsuc (2 ^ 64 - 1 - entry.size)))
    of_request :
        (q : Q)
        → entry.size ≡ 0
        → lookup "storage" options.pvc.requests ≡ some q
        → IsCapacity options entry q
    unrequested :
        entry.size ≡ 0
        → lookup "storage" options.pvc.requests ≡ none
        → IsCapacity options entry zero_quantity

  -- The volume that is due for a claim, where the disk that it names has this entry on the selected node.
  pub record IsVolume (options : ProvisionOptions Q) (entry : DiskEntry) (pv : PersistentVolume Q)
      : Type 0 where
    pub named : pv.name ≡ options.pv_name
    pub annotated :
        pv.annotations
        ≡ (annotation_provisioned_by, provisioner_name)
          ∷ (pvc_annotation_uuid, read pvc_annotation_uuid options.pvc.annotations)
          ∷ []
    pub reclaimed : IsPolicy options.storage_class.reclaim_policy pv.reclaim_policy
    pub accessed : pv.access_modes ≡ options.pvc.access_modes
    pub classed : pv.storage_class_name ≡ options.storage_class.name
    pub in_mode : pv.volume_mode ≡ options.pvc.volume_mode
    pub quantity : Q
    pub sized : pv.capacity ≡ ("storage", quantity) ∷ []
    pub due : IsCapacity options entry quantity
    pub at_path : pv.local_path ≡ entry.path
    pub on_node : pv.node_terms ≡ (
        (record {
          key = "kubernetes.io/hostname";
          operator = "In";
          values = options.selected_node_name ∷ [];
        }
          ∷ [])
        ∷ [])

  or_retain-IsPolicy : (o : Option ReclaimPolicy) → IsPolicy o (or_retain o)
  or_retain-IsPolicy none = by_default
  or_retain-IsPolicy (some p) = of_class p

  policy_unique : (o : Option ReclaimPolicy) (p : ReclaimPolicy) → IsPolicy o p → or_retain o ≡ p
  policy_unique _ _ (of_class p) = refl
  policy_unique _ _ by_default = refl

  some-IsCapacity :
      (options : ProvisionOptions Q) (entry : DiskEntry) → (q : Q) × IsCapacity options entry q
  some-IsCapacity options entry = elim (Bool-cases (ltb 0 entry.size)) [
    | inl known ↦ elim (Bool-cases (ltb entry.size (2 ^ 63))) [
      | inl small ↦ (_, of_disk (ground arith) (ground arith))
      | inr huge ↦ (_, beyond_int64 (ground arith))
    ]
    | inr unknown ↦ elim (Option-cases (lookup "storage" options.pvc.requests)) [
      | inl absent ↦ (_, unrequested (ground arith) absent)
      | inr (q, there) ↦ (q, of_request q (ground arith) there)
    ]
  ]

  module _ {W : Type 0} (get_node : String → W → Result Node)
      (unmarshal : String → Result (Dict DiskEntry)) where
    abbrev capacity : ProvisionOptions Q → DiskEntry → Q
    capacity = capacity_of zero_quantity new_quantity get_node unmarshal

    capacity_unique :
        (options : ProvisionOptions Q) (entry : DiskEntry) (q : Q)
        → IsCapacity options entry q
        → capacity options entry ≡ q
    unfolding capacity_of to_int64
    capacity_unique options entry _ (of_disk known small) = ground arith
    capacity_unique options entry _ (beyond_int64 huge) = ground arith
    capacity_unique options entry _ (of_request q unknown there) = rw (unknown, there)
    capacity_unique options entry _ (unrequested unknown absent) = rw (unknown, absent)

    capacity_of-IsCapacity :
        (options : ProvisionOptions Q) (entry : DiskEntry)
        → IsCapacity options entry (capacity options entry)
    capacity_of-IsCapacity options entry =
        let (q, due) = some-IsCapacity options entry in
        subst⁻¹ (IsCapacity options entry) (capacity_unique options entry q due) due

    pub build_pv-IsVolume :
        (options : ProvisionOptions Q) (entry : DiskEntry)
        → IsVolume options entry (
            build_pv zero_quantity new_quantity get_node unmarshal options
              (read pvc_annotation_uuid options.pvc.annotations)
              entry)
    unfolding build_pv
    build_pv-IsVolume options entry = record {
      named = refl;
      annotated = refl;
      reclaimed = or_retain-IsPolicy options.storage_class.reclaim_policy;
      accessed = refl;
      classed = refl;
      in_mode = refl;
      quantity = capacity options entry;
      sized = refl;
      due = capacity_of-IsCapacity options entry;
      at_path = refl;
      on_node = refl;
    }

    -- No other volume is due.
    pub build_pv_unique :
        (options : ProvisionOptions Q) (entry : DiskEntry) (pv : PersistentVolume Q)
        → IsVolume options entry pv
        → build_pv zero_quantity new_quantity get_node unmarshal options
            (read pvc_annotation_uuid options.pvc.annotations)
            entry
          ≡ pv
    unfolding build_pv
    build_pv_unique options entry pv h = λ i. record {
      name = sym h.named i;
      annotations = sym h.annotated i;
      reclaim_policy =
          policy_unique options.storage_class.reclaim_policy pv.reclaim_policy h.reclaimed i;
      access_modes = sym h.accessed i;
      storage_class_name = sym h.classed i;
      volume_mode = sym h.in_mode i;
      capacity =
          (ap (λ q. ("storage", q) ∷ []) (capacity_unique options entry h.quantity h.due)
              ∙ sym h.sized)
            i;
      local_path = sym h.at_path i;
      node_terms = sym h.on_node i;
    }
