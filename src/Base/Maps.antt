-- ===== src/Base/Maps.antt =====
-- Go maps with string keys, as association lists: a read of a missing key, a write, the keys.
use Prim.Native.String.{String}
use mathlib.Core.Path.{◌≡◌, refl}
use mathlib.Core.Option.{Option, none, some}
use mathlib.Core.List.{List, [], ◌∷◌}
use native.Mathlib.Omega.{arith}
use text.Mathlib.TextEquality.{eq_iff}
use kubernetes_external_prov.Base.Tests.{◌==◌, if◌then◌else◌}

abbrev pub Dict {ℓ} : Type ℓ → Type ℓ
Dict V = List (String × V)

module _ {ℓ} {V : Type ℓ} where
  unfoldable pub lookup : String → Dict V → Option V
  lookup k [] = none
  lookup k ((j, v) ∷ m) = if j == k then some v else lookup k m

  unfoldable pub insert : String → V → Dict V → Dict V
  insert k v [] = (k, v) ∷ []
  insert k v ((j, w) ∷ m) = let rest = insert k v m in if j == k then (k, v) ∷ m else (j, w) ∷ rest

  -- A read after a write.
  pub lookup-insert :
      (written asked : String) (value : V) (dict : Dict V)
      → lookup asked (insert written value dict)
        ≡ (if written == asked then some value else lookup asked dict)
  unfolding lookup insert
  lookup-insert written asked value [] = refl
  lookup-insert written asked value ((key, old) ∷ rest) = ground (
    arith,
    eq_iff key written,
    eq_iff key asked,
    eq_iff written asked,
    lookup-insert written asked value rest,
  )

-- `m[k]` on a map of strings: the empty string where the key is missing.
unfoldable pub read : String → Dict String → String
unfolding lookup
read k m = elim (lookup k m) [ none ↦ "" | some v ↦ v ]
