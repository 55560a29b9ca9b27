-- ===== src/Base/Text.antt =====
-- Texts as lists of code points, and `strings.Join`.
use Prim.Native.String
use Prim.Native.String.{String}
use mathlib.Core.Bool.{Bool, true, false}
use kubernetes_external_prov.Base.Tests.{◌==◌, if◌then◌else◌}
use mathlib.Core.List.{List, [], ◌∷◌}

infixr 66 ◌^^◌
-- `+` on strings.
abbrev pub ◌^^◌ : String → String → String
a ^^ b = String.◌++◌ a b

unfoldable pub join : String → List String → String
join sep [] = ""
join sep (x ∷ []) = x
join sep (x ∷ y ∷ ys) = x ^^ sep ^^ join sep (y ∷ ys)

-- Membership in a set of texts, `_, ok := set[x]` for a `map[string]struct{}` or `map[string]bool`.
unfoldable pub contains : List String → String → Bool
contains [] x = false
contains (t ∷ ts) x = let rest = contains ts x in if t == x then true else rest
