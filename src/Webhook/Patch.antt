-- ===== src/Webhook/Patch.antt =====
-- What the patch of `buildNodeSelectorPatch` does to the pod's document, by RFC 6902 (JSON Patch) and
-- RFC 6901 (JSON Pointer), written here from the standards and independent of the code.
pub mod Pinning
use Prim.Native.Char.{code}
use kubernetes_external_prov.Base.{
  Dict, List, Option, String, [], eqb, if◌then◌else◌, map, none, some, ◌&&◌, ◌==◌, ◌∷◌,
}
use kubernetes_external_prov.Services.Paths.{split_slash}
use kubernetes_external_prov.Webhook.{PatchOp, PatchValue, object, text}

mutual
  -- Documents; what the patches do not enter is `other`.
  pub data Json : Type 0 where
    null : Json
    str : String → Json
    obj : Members → Json
    other : String → Json

  pub data Members : Type 0 where
    no_member : Members
    member : String → Json → Members → Members

abbrev pub get_member : String → Members → Option Json
get_member k no_member = none
get_member k (member j v ms) = let rest = get_member k ms in if j == k then some v else rest

-- The member of a document, if it is an object that has it.
abbrev pub get : String → Json → Option Json
get k (obj ms) = get_member k ms
get k doc = none

abbrev pub set_member : String → Json → Members → Members
set_member k v no_member = member k v no_member
set_member k v (member j u ms) =
    let rest = set_member k v ms in if j == k then member k v ms else member j u rest

-- `~1` stands for `/` and `~0` for `~` in a reference token.
abbrev pub unescape : String → String
unescape String.[] = ""
unescape (String.◌∷◌ c String.[]) = String.◌∷◌ c ""
unescape (String.◌∷◌ c (String.◌∷◌ d s)) =
    let escaped = unescape s in
    let plain = unescape (String.◌∷◌ d s) in
    if eqb (code c) b'~' && eqb (code d) b'1'
    then String.◌∷◌ "/" escaped
    else if eqb (code c) b'~' && eqb (code d) b'0'
    then String.◌∷◌ "~" escaped
    else String.◌∷◌ c plain

abbrev pub behind_first : List String → List String
behind_first [] = []
behind_first (x ∷ xs) = xs

-- The reference tokens of a pointer: what stands behind each slash.
unfoldable pub tokens : String → List String
unfolding split_slash
tokens pointer = map unescape (behind_first (split_slash pointer))

abbrev pub put_back : String → Members → Option Json → Option Json
put_back k ms none = none
put_back k ms (some child) = some (obj (set_member k child ms))

-- Inside the member that is there, if any.
abbrev pub inside : Option Json → (Json → Option Json) → Option Json
inside none f = none
inside (some child) f = f child

-- `add`: the object that holds the target must be there; its member is added or replaced.
unfoldable pub add_at : List String → Json → Json → Option Json
add_at [] v doc = some v
add_at (k ∷ []) v (obj ms) = some (obj (set_member k v ms))
add_at (k ∷ j ∷ ks) v (obj ms) = put_back k ms (inside (get_member k ms) (add_at (j ∷ ks) v))
add_at (k ∷ ks) v doc = none

abbrev pub members_of : Dict String → Members
members_of [] = no_member
members_of ((k, v) ∷ m) = member k (str v) (members_of m)

abbrev pub json_of : PatchValue → Json
json_of (text t) = str t
json_of (object m) = obj (members_of m)

unfoldable pub apply_op : PatchOp → Json → Option Json
apply_op p doc = if p.op == "add" then add_at (tokens p.path) (json_of p.value) doc else none

unfoldable pub apply_patch : List PatchOp → Json → Option Json
apply_patch [] doc = some doc
apply_patch (p ∷ ps) doc = elim (apply_op p doc) [ none ↦ none | some doc' ↦ apply_patch ps doc' ]
