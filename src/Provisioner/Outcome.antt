-- ===== src/Provisioner/Outcome.antt =====
-- When a volume is provisioned, and when the scheduler is asked for another node.
use kubernetes_external_prov.Base.{
  ==-false, Bool-cases, Dict, IsErr, IsErr-ne_ok, Option-cases, Result, Result-cases, String, ap,
  eq_of_==, false, inl, inr, lookup, ne_of_==, none, ok, ok-injective, read, some, subst, sym, ◌==◌,
  ◌↔◌, ◌∙◌, ◌≡◌, ◌≢◌, ◌⊎◌,
}
use kubernetes_external_prov.Fsutils.Device.{ℤ}
use kubernetes_external_prov.Models.{DiskEntry, annotation_disk_map, pvc_annotation_uuid}
use kubernetes_external_prov.Provisioner.{
  Node, PersistentVolume, ProvisionOptions, ProvisioningState, Reply, build_pv, finished, from_node,
  provision, reschedule,
}
use kubernetes_external_prov.Provisioner.Volume.{IsVolume, build_pv-IsVolume, build_pv_unique}

finished≢reschedule : finished ≢ reschedule
finished≢reschedule h = cc

module _ {Q W : Type 0} (zero_quantity : Q) (new_quantity : ℤ → Q)
    (get_node : String → W → Result Node) (unmarshal : String → Result (Dict DiskEntry)) where
  abbrev run : ProvisionOptions Q → W → Result (PersistentVolume Q) × ProvisioningState
  run = provision zero_quantity new_quantity get_node unmarshal

  -- A node was selected, the claim names a disk, and the node's disk map has an entry for it.
  pub record HasDisk (options : ProvisionOptions Q) (w : W) (entry : DiskEntry) : Type 0 where
    pub selected : options.selected_node_name ≢ ""
    pub claimed : read pvc_annotation_uuid options.pvc.annotations ≢ ""
    pub node : Node
    pub found : get_node options.selected_node_name w ≡ ok node
    pub annotated : read annotation_disk_map node.annotations ≢ ""
    pub disk_map : Dict DiskEntry
    pub parsed : unmarshal (read annotation_disk_map node.annotations) ≡ ok disk_map
    pub present : lookup (read pvc_annotation_uuid options.pvc.annotations) disk_map ≡ some entry

  abbrev pub uuid_of : ProvisionOptions Q → String
  uuid_of options = read pvc_annotation_uuid options.pvc.annotations

  pub provision_complete :
      (options : ProvisionOptions Q) (w : W) (entry : DiskEntry)
      → HasDisk options w entry
      → run options w ≡ (
        ok (build_pv zero_quantity new_quantity get_node unmarshal options (uuid_of options) entry),
        finished,
      )
  unfolding provision
  provision_complete options w entry h =
      rw
        (==-false options.selected_node_name "" h.selected, ==-false (uuid_of options) "" h.claimed)
        (rw h.found (
          rw (==-false (read annotation_disk_map h.node.annotations) "" h.annotated)
            (rw h.parsed (rw h.present))))

  -- The node is there, but has not been scanned yet or does not have the disk.
  pub record IsAwaited (options : ProvisionOptions Q) (w : W) : Type 0 where
    pub selected : options.selected_node_name ≢ ""
    pub claimed : uuid_of options ≢ ""
    pub node : Node
    pub found : get_node options.selected_node_name w ≡ ok node
    pub lacking :
        (read annotation_disk_map node.annotations ≡ "")
        ⊎ ((read annotation_disk_map node.annotations ≢ "")
            × ((disk_map : Dict DiskEntry) × (unmarshal (read annotation_disk_map node.annotations)
                  ≡ ok disk_map)
                × (lookup (uuid_of options) disk_map ≡ none)))

  awaited_complete :
      (options : ProvisionOptions Q) (w : W) → IsAwaited options w → (run options w).1 ≡ reschedule
  unfolding provision
  awaited_complete options w h =
      rw
        (==-false options.selected_node_name "" h.selected, ==-false (uuid_of options) "" h.claimed)
        (rw h.found (lack h.lacking))
    where
      lack :
          (read annotation_disk_map h.node.annotations ≡ "")
            ⊎ ((read annotation_disk_map h.node.annotations ≢ "")
                × ((disk_map : Dict DiskEntry) × (unmarshal
                        (read annotation_disk_map h.node.annotations)
                      ≡ ok disk_map)
                    × (lookup (uuid_of options) disk_map ≡ none)))
          → (from_node zero_quantity new_quantity get_node unmarshal options
              (uuid_of options)
              (ok h.node)).1
            ≡ reschedule
      lack (inl blank) = rw blank
      lack (inr (there, (disk_map, parsed, absent))) =
          rw (==-false (read annotation_disk_map h.node.annotations) "" there)
            (rw parsed (rw absent))

  data Outcome (options : ProvisionOptions Q) (w : W) : Type 0 where
    refused : IsErr (run options w).0 → (run options w).1 ≡ finished → Outcome options w
    awaited : IsErr (run options w).0 → IsAwaited options w → Outcome options w
    provided : (entry : DiskEntry) → HasDisk options w entry → Outcome options w

  module _ (options : ProvisionOptions Q) (w : W)
      (selected : (options.selected_node_name == "") ≡ false)
      (claimed : (uuid_of options == "") ≡ false) (node : Node)
      (found : get_node options.selected_node_name w ≡ ok node)
      (there : (read annotation_disk_map node.annotations == "") ≡ false)
      (disk_map : Dict DiskEntry)
      (parsed : unmarshal (read annotation_disk_map node.annotations) ≡ ok disk_map) where
    map_outcome : Outcome options w
    map_outcome = elim (Option-cases (lookup (uuid_of options) disk_map)) [
      | inl absent ↦
          awaited
            (unfold provision in
              rw (selected, claimed) (rw found (rw there (rw parsed (rw absent tt)))))
            (record {
              selected = ne_of_== _ _ selected;
              claimed = ne_of_== _ _ claimed;
              node = node;
              found = found;
              lacking = inr (ne_of_== _ _ there, (disk_map, parsed, absent));
            })
      | inr (entry, present) ↦ provided entry (record {
        selected = ne_of_== _ _ selected;
        claimed = ne_of_== _ _ claimed;
        node = node;
        found = found;
        annotated = ne_of_== _ _ there;
        disk_map = disk_map;
        parsed = parsed;
        present = present;
      })
    ]

  module _ (options : ProvisionOptions Q) (w : W)
      (selected : (options.selected_node_name == "") ≡ false)
      (claimed : (uuid_of options == "") ≡ false) (node : Node)
      (found : get_node options.selected_node_name w ≡ ok node) where
    node_outcome : Outcome options w
    node_outcome = elim (Bool-cases (read annotation_disk_map node.annotations == "")) [
      | inl blank ↦
          awaited (unfold provision in rw (selected, claimed) (rw found (rw blank tt))) (record {
            selected = ne_of_== _ _ selected;
            claimed = ne_of_== _ _ claimed;
            node = node;
            found = found;
            lacking = inl (eq_of_== _ _ blank);
          })
      | inr there ↦ elim (Result-cases (unmarshal (read annotation_disk_map node.annotations))) [
        | inr (e, bad) ↦
            refused (unfold provision in rw (selected, claimed) (rw found (rw there (rw bad tt))))
              (unfold provision in rw (selected, claimed) (rw found (rw there (rw bad))))
        | inl (disk_map, parsed) ↦
            map_outcome options w selected claimed node found there disk_map parsed
      ]
    ]

  outcome : (options : ProvisionOptions Q) (w : W) → Outcome options w
  outcome options w = elim (Bool-cases (options.selected_node_name == "")) [
    | inl unselected ↦
        refused (unfold provision in rw unselected tt) (unfold provision in rw unselected)
    | inr selected ↦ elim (Bool-cases (uuid_of options == "")) [
      | inl unclaimed ↦
          refused (unfold provision in rw (selected, unclaimed) tt)
            (unfold provision in rw (selected, unclaimed))
      | inr claimed ↦ elim (Result-cases (get_node options.selected_node_name w)) [
        | inr (e, lost) ↦
            refused (unfold provision in rw (selected, claimed) (rw lost tt))
              (unfold provision in rw (selected, claimed) (rw lost))
        | inl (node, found) ↦ node_outcome options w selected claimed node found
      ]
    ]
  ]

  pub provision-ok_iff :
      (options : ProvisionOptions Q) (w : W) (pv : PersistentVolume Q)
      → ((run options w).0 ≡ ok pv) ↔ (
          (entry : DiskEntry) × HasDisk options w entry
          × IsVolume zero_quantity new_quantity options entry pv)
  provision-ok_iff options w pv = (
    λ h. go h (outcome options w),
    λ given.
        ap (λ (r : Reply zero_quantity new_quantity get_node unmarshal). r.0)
          (provision_complete options w given.0 given.1)
        ∙ ap ok (
            build_pv_unique zero_quantity new_quantity get_node unmarshal options given.0 pv
              given.2),
  )
    where
      go :
          (run options w).0 ≡ ok pv
          → Outcome options w
          → (entry : DiskEntry) × HasDisk options w entry
            × IsVolume zero_quantity new_quantity options entry pv
      go h (refused e s) = absurd (IsErr-ne_ok _ e h)
      go h (awaited e a) = absurd (IsErr-ne_ok _ e h)
      go h (provided entry has) = (
        entry,
        has,
        subst (IsVolume zero_quantity new_quantity options entry)
            (ok-injective (
              sym (
                ap (λ (r : Reply zero_quantity new_quantity get_node unmarshal). r.0)
                  (provision_complete options w entry has))
              ∙ h))
            (build_pv-IsVolume zero_quantity new_quantity get_node unmarshal options entry),
      )

  -- The scheduler is asked for another node exactly if a node was selected, the claim names a disk, and
  -- the node exists but has no disk map, or one without that disk.
  pub provision-reschedule_iff :
      (options : ProvisionOptions Q) (w : W)
      → ((run options w).1 ≡ reschedule) ↔ IsAwaited options w
  provision-reschedule_iff options w = (λ h. go h (outcome options w), awaited_complete options w)
    where
      go : (run options w).1 ≡ reschedule → Outcome options w → IsAwaited options w
      go h (refused e s) = absurd (finished≢reschedule (sym s ∙ h))
      go h (awaited e a) = a
      go h (provided entry has) = absurd (
          finished≢reschedule (
            sym (
              ap (λ (r : Reply zero_quantity new_quantity get_node unmarshal). r.1)
                (provision_complete options w entry has))
            ∙ h))

  -- Where the scheduler is asked for another node, there is an error too.
  pub provision-awaited :
      (options : ProvisionOptions Q) (w : W)
      → (run options w).1 ≡ reschedule
      → IsErr (run options w).0
  provision-awaited options w h = go h (outcome options w)
    where
      go : (run options w).1 ≡ reschedule → Outcome options w → IsErr (run options w).0
      go h (refused e s) = e
      go h (awaited e a) = e
      go h (provided entry has) = absurd (
          finished≢reschedule (
            sym (
              ap (λ (r : Reply zero_quantity new_quantity get_node unmarshal). r.1)
                (provision_complete options w entry has))
            ∙ h))
