-- ===== src/Flow/DiskMapJson/Keys.antt =====
-- The keys of a disk map: they differ, and keep doing so under writes and sorting.
use kubernetes_external_prov.Base.{
  ==-false, Bool, Bool-cases, Dict, String, [], ap, arith, eq_iff, eq_of_==, false, if◌then◌else◌,
  inl, inr, insert, lookup, lookup-insert, ltb, ne_of_==, none, none≢some, refl, some, subst, sym,
  true, ◌==◌, ◌^◌, ◌∙◌, ◌∷◌, ◌≡◌,
}
use kubernetes_external_prov.Flow.DiskMapJson.{place, sort_keys}
use kubernetes_external_prov.Models.{DiskEntry}

abbrev pub IsDistinct : Dict DiskEntry → Type 0
IsDistinct [] = Unit
IsDistinct ((k, entry) ∷ m) = (lookup k m ≡ none) × IsDistinct m

abbrev pub AreSmall : Dict DiskEntry → Type 0
AreSmall [] = Unit
AreSmall ((k, entry) ∷ m) = (ltb entry.size (2 ^ 64) ≡ true) × AreSmall m

pub insert-IsDistinct :
    (k : String) (entry : DiskEntry) (m : Dict DiskEntry)
    → IsDistinct m
    → IsDistinct (insert k entry m)
unfolding insert lookup
insert-IsDistinct k entry [] distinct = (refl, tt)
insert-IsDistinct k entry ((j, later) ∷ m) (alone, distinct) = elim (Bool-cases (j == k)) [
  | inl same ↦ rw same (subst (λ x. lookup x m ≡ none) (eq_of_== j k same) alone, distinct)
  | inr apart ↦ rw apart (
    lookup-insert k j entry m ∙ rw (==-false k j (λ e. ne_of_== j k apart (sym e))) alone,
    insert-IsDistinct k entry m distinct,
  )
]

pub insert-AreSmall :
    (k : String) (entry : DiskEntry) (m : Dict DiskEntry)
    → ltb entry.size (2 ^ 64) ≡ true
    → AreSmall m
    → AreSmall (insert k entry m)
unfolding insert
insert-AreSmall k entry [] small smalls = (small, tt)
insert-AreSmall k entry ((j, later) ∷ m) small (here, smalls) = elim (Bool-cases (j == k)) [
  | inl same ↦ rw same (small, smalls)
  | inr apart ↦ rw apart (here, insert-AreSmall k entry m small smalls)
]

fresh_tail :
    (k j : String) (later : DiskEntry) (m : Dict DiskEntry)
    → lookup k ((j, later) ∷ m) ≡ none
    → ((j == k) ≡ false) × (lookup k m ≡ none)
unfolding lookup
fresh_tail k j later m fresh = elim (Bool-cases (j == k)) [
  | inl same ↦ absurd (none≢some {a = later} (sym fresh ∙ rw same))
  | inr apart ↦ (apart, sym (rw apart) ∙ fresh)
]

place-lookup :
    (before : String → String → Bool) (k : String) (entry : DiskEntry) (m : Dict DiskEntry)
    (u : String)
    → lookup k m ≡ none
    → lookup u (place before k entry m) ≡ (if k == u then some entry else lookup u m)
unfolding place lookup
place-lookup before k entry [] u fresh = refl
place-lookup before k entry ((j, later) ∷ m) u fresh =
    let (apart, fresh') = fresh_tail k j later m fresh in
    ground
      (arith, place-lookup before k entry m u fresh', eq_iff k u, eq_iff j u, ne_of_== j k apart)

place-IsDistinct :
    (before : String → String → Bool) (k : String) (entry : DiskEntry) (m : Dict DiskEntry)
    → lookup k m ≡ none
    → IsDistinct m
    → IsDistinct (place before k entry m)
unfolding place
place-IsDistinct before k entry [] fresh distinct = (fresh, tt)
place-IsDistinct before k entry ((j, later) ∷ m) fresh (alone, distinct) =
    elim (Bool-cases (before k j)) [
      | inl first ↦ rw first (fresh, (alone, distinct))
      | inr after ↦
          let (apart, fresh') = fresh_tail k j later m fresh in
          rw after (
            place-lookup before k entry m j fresh'
                ∙ rw (==-false k j (λ e. ne_of_== j k apart (sym e))) alone,
            place-IsDistinct before k entry m fresh' distinct,
          )
    ]

place-AreSmall :
    (before : String → String → Bool) (k : String) (entry : DiskEntry) (m : Dict DiskEntry)
    → ltb entry.size (2 ^ 64) ≡ true
    → AreSmall m
    → AreSmall (place before k entry m)
unfolding place
place-AreSmall before k entry [] small smalls = (small, tt)
place-AreSmall before k entry ((j, later) ∷ m) small (here, smalls) =
    elim (Bool-cases (before k j)) [
      | inl first ↦ rw first (small, (here, smalls))
      | inr after ↦ rw after (here, place-AreSmall before k entry m small smalls)
    ]

-- Sorting the keys changes no entry.
pub sort_keys-lookup :
    (before : String → String → Bool) (m : Dict DiskEntry)
    → IsDistinct m
    → (u : String) → lookup u (sort_keys before m) ≡ lookup u m
unfolding sort_keys lookup
sort_keys-lookup before [] distinct u = refl
sort_keys-lookup before ((k, entry) ∷ m) (fresh, distinct) u =
    place-lookup before k entry (sort_keys before m) u
      (sort_keys-lookup before m distinct k ∙ fresh)
    ∙ ap (λ o. if k == u then some entry else o) (sort_keys-lookup before m distinct u)

pub sort_keys-IsDistinct :
    (before : String → String → Bool) (m : Dict DiskEntry)
    → IsDistinct m
    → IsDistinct (sort_keys before m)
unfolding sort_keys
sort_keys-IsDistinct before [] distinct = tt
sort_keys-IsDistinct before ((k, entry) ∷ m) (fresh, distinct) =
    place-IsDistinct before k entry (sort_keys before m)
      (sort_keys-lookup before m distinct k ∙ fresh) (sort_keys-IsDistinct before m distinct)

pub sort_keys-AreSmall :
    (before : String → String → Bool) (m : Dict DiskEntry)
    → AreSmall m
    → AreSmall (sort_keys before m)
unfolding sort_keys
sort_keys-AreSmall before [] smalls = tt
sort_keys-AreSmall before ((k, entry) ∷ m) (small, smalls) =
    place-AreSmall before k entry (sort_keys before m) small (sort_keys-AreSmall before m smalls)
