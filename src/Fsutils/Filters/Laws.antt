-- ===== src/Fsutils/Filters/Laws.antt =====
-- What the combinators keep, in terms of their parts.
use kubernetes_external_prov.Base.{
  All, Bool, List, String, [], arith, false, if◌then◌else◌, map, not, refl, true, ◌&&◌, ◌++◌, ◌||◌,
  ◌∷◌, ◌≡◌,
}
use kubernetes_external_prov.Fsutils.Device.{BlockDevice}
use kubernetes_external_prov.Fsutils.Filters.{all_of, and_from, any_of, not_filter, or_from}
use kubernetes_external_prov.Fsutils.Lsblk.{FilterFunc}
use kubernetes_external_prov.Fsutils.Lsblk.Filtering.{IsSteady, keeps}

abbrev pub every : (FilterFunc → Bool) → List FilterFunc → Bool
every p [] = true
every p (f ∷ fs) = p f && every p fs

abbrev pub some_of : (FilterFunc → Bool) → List FilterFunc → Bool
some_of p [] = false
some_of p (f ∷ fs) = p f || some_of p fs

and_from-IsSteady :
    (fs : List FilterFunc) (names : List String) → All IsSteady fs → IsSteady (and_from names fs)
unfolding and_from
and_from-IsSteady [] names h d = refl
and_from-IsSteady (f ∷ fs) names h d =
    ground (arith, h.0 d, and_from-IsSteady fs (names ++ (f d).name ∷ []) h.1 d)

keeps-and_from :
    (fs : List FilterFunc) (names : List String) (d : BlockDevice)
    → All IsSteady fs
    → keeps (and_from names fs) d ≡ every (λ f. keeps f d) fs
unfolding and_from
keeps-and_from [] names d h = refl
keeps-and_from (f ∷ fs) names d h =
    ground (arith, h.0 d, keeps-and_from fs (names ++ (f d).name ∷ []) d h.1)

or_from-IsSteady :
    (fs : List FilterFunc) (names : List String) (b : Bool)
    → All IsSteady fs
    → IsSteady (or_from names b fs)
unfolding or_from
or_from-IsSteady [] names b h d = refl
or_from-IsSteady (f ∷ fs) names b h d =
    rw (h.0 d)
      (or_from-IsSteady fs (names ++ (f d).name ∷ []) (if (f d).skip then b else false) h.1 d)

keeps-or_from :
    (fs : List FilterFunc) (names : List String) (b : Bool) (d : BlockDevice)
    → All IsSteady fs
    → keeps (or_from names b fs) d ≡ (not b || some_of (λ f. keeps f d) fs)
unfolding or_from
keeps-or_from [] names b d h = ground arith
keeps-or_from (f ∷ fs) names b d h = rw (h.0 d) (
    ground
      (arith, keeps-or_from fs (names ++ (f d).name ∷ []) (if (f d).skip then b else false) d h.1))

-- Of filters that never stop, `And` never stops, and keeps a device exactly if each of them does.
pub all_of-keeps :
    (fs : List FilterFunc)
    → All IsSteady fs
    → IsSteady (all_of fs) × ((d : BlockDevice) → keeps (all_of fs) d ≡ every (λ f. keeps f d) fs)
unfolding all_of
all_of-keeps fs h = (and_from-IsSteady fs [] h, λ d. keeps-and_from fs [] d h)

-- Of filters that never stop, `Or` never stops, and keeps a device exactly if one of them does;
-- so with no filters it keeps nothing.
pub any_of-keeps :
    (fs : List FilterFunc)
    → All IsSteady fs
    → IsSteady (any_of fs) × ((d : BlockDevice) → keeps (any_of fs) d ≡ some_of (λ f. keeps f d) fs)
unfolding any_of
any_of-keeps fs h = (or_from-IsSteady fs [] true h, λ d. keeps-or_from fs [] true d h)

some_of-not :
    (fs : List FilterFunc) (d : BlockDevice)
    → some_of (λ f. keeps f d) (map not_filter fs) ≡ not (every (λ f. keeps f d) fs)
unfolding not_filter
some_of-not [] d = refl
some_of-not (f ∷ fs) d = ground (arith, some_of-not fs d)

map-not-IsSteady : (fs : List FilterFunc) → All IsSteady fs → All IsSteady (map not_filter fs)
unfolding not_filter
map-not-IsSteady [] h = tt
map-not-IsSteady (f ∷ fs) h = (h.0, map-not-IsSteady fs h.1)

-- De Morgan: of filters that never stop, `Not (And fs)` keeps what `Or` of their negations keeps.
pub not_all_of-keeps :
    (fs : List FilterFunc) (d : BlockDevice)
    → All IsSteady fs
    → keeps (not_filter (all_of fs)) d ≡ keeps (any_of (map not_filter fs)) d
unfolding not_filter
not_all_of-keeps fs d h = cc (
  (all_of-keeps fs h).1 d,
  (any_of-keeps (map not_filter fs) (map-not-IsSteady fs h)).1 d,
  some_of-not fs d,
)
