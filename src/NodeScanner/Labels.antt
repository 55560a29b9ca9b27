-- ===== src/NodeScanner/Labels.antt =====
-- The labels of the patch, for any previous set of UUIDs.
use text.Mathlib.TextLemmas.{append_cancel_left}
use kubernetes_external_prov.Base.{
  ==-false, Bool-cases, Dict, List, Option, String, [], arith, contains, eq_iff, eq_of_==, eq_refl,
  if◌then◌else◌, inl, inr, insert, lookup, lookup-insert, ne_of_==, none, not, refl, some, ◌&&◌,
  ◌==◌, ◌^^◌, ◌∙◌, ◌∷◌, ◌≡◌,
}
use kubernetes_external_prov.Models.{label_uuid_prefix}
use kubernetes_external_prov.NodeScanner.{add_labels, drop_labels, patch_labels}

abbrev pub label_of_uuid : String → String
label_of_uuid u = label_uuid_prefix ^^ u

label_eq : (u v : String) → (label_of_uuid u == label_of_uuid v) ≡ (u == v)
label_eq u v = elim (Bool-cases (u == v)) [
  | inl same ↦ rw (same, eq_of_== u v same) (eq_refl (label_of_uuid v))
  | inr other ↦ rw other (
      ==-false (label_of_uuid u) (label_of_uuid v)
        (λ e. ne_of_== u v other (append_cancel_left label_uuid_prefix u v e)))
]

add_labels-lookup :
    (us : List String) (m : Dict (Option String)) (u : String)
    → lookup (label_of_uuid u) (add_labels us m)
      ≡ (if contains us u then some (some "true") else lookup (label_of_uuid u) m)
unfolding add_labels contains
add_labels-lookup [] m u = refl
add_labels-lookup (v ∷ us) m u = ground (
  arith,
  add_labels-lookup us (insert (label_of_uuid v) (some "true") m) u,
  lookup-insert (label_of_uuid v) (label_of_uuid u) (some "true") m,
  label_eq v u,
)

drop_labels-lookup :
    (current us : List String) (m : Dict (Option String)) (u : String)
    → lookup (label_of_uuid u) (drop_labels current us m) ≡ (
        if contains us u && not (contains current u) then some none else lookup (label_of_uuid u) m)
unfolding drop_labels contains
drop_labels-lookup current [] m u = refl
drop_labels-lookup current (v ∷ us) m u = elim (Bool-cases (contains current v)) [
  | inl kept ↦
      rw (kept, drop_labels) (drop_labels-lookup current us m u ∙ ground (arith, eq_iff v u, kept))
  | inr dropped ↦
      rw (dropped, drop_labels)
        (drop_labels-lookup current us (insert (label_of_uuid v) none m) u
          ∙ ground (
            arith,
            lookup-insert (label_of_uuid v) (label_of_uuid u) none m,
            label_eq v u,
            eq_iff v u,
          ))
]

-- For every UUID, the patch sets its label to "true" if the UUID is current, removes the label if it
-- is only among the previous ones, and does not touch it otherwise.
pub patch_labels-lookup :
    (current prev : List String) (u : String)
    → lookup (label_of_uuid u) (patch_labels current prev) ≡ (
        if contains current u
        then some (some "true")
        else if contains prev u
        then some none
        else none)
unfolding patch_labels lookup
patch_labels-lookup current prev u =
    drop_labels-lookup current prev (add_labels current []) u
    ∙ rw (add_labels-lookup current [] u) (ground arith)
