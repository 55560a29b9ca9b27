-- ===== src/Services/Paths.antt =====
-- `filepath.Join` of two elements, on Unix.
pub mod Plain
use Prim.Native.Char.{code}
use kubernetes_external_prov.Base.{
  Bool, List, String, [], eqb, false, if◌then◌else◌, join, reverse, true, ◌==◌, ◌^^◌, ◌||◌, ◌∷◌,
}

abbrev pub extend_head : String → List String → List String
extend_head c [] = c ∷ []
extend_head c (x ∷ xs) = (c ^^ x) ∷ xs

-- The elements between the slashes.
unfoldable pub split_slash : String → List String
split_slash String.[] = "" ∷ []
split_slash (String.◌∷◌ c s) =
    let rest = split_slash s in
    if eqb (code c) b'/' then "" ∷ rest else extend_head (String.◌∷◌ c "") rest

abbrev pub is_rooted : String → Bool
is_rooted String.[] = false
is_rooted (String.◌∷◌ c s) = eqb (code c) b'/'

-- An element that is `..` and cannot be resolved is kept, unless the path is rooted.
abbrev pub up : Bool → List String → List String
up rooted [] = if rooted then [] else ".." ∷ []
up rooted (x ∷ xs) = if x == ".." then ".." ∷ x ∷ xs else xs

-- One element of `filepath.Clean`; the stack has the last element at its head.
unfoldable pub clean_step : Bool → List String → String → List String
clean_step rooted stack part =
    if part == "" || part == "."
    then stack
    else if part == ".."
    then up rooted stack
    else part ∷ stack

unfoldable pub clean_from : Bool → List String → List String → List String
unfolding clean_step
clean_from rooted stack [] = reverse stack
clean_from rooted stack (p ∷ ps) = clean_from rooted (clean_step rooted stack p) ps

abbrev pub dot_if_empty : String → String
dot_if_empty p = if p == "" then "." else p

-- `filepath.Clean`
unfoldable pub clean : String → String
unfolding split_slash clean_from join
clean path =
    if is_rooted path
    then "/" ^^ join "/" (clean_from true [] (split_slash path))
    else dot_if_empty (join "/" (clean_from false [] (split_slash path)))

-- `filepath.Join(base, name)`: empty elements are left out.
unfoldable pub path_join : String → String → String
unfolding clean
path_join base name =
    if base == ""
    then (if name == "" then "" else clean name)
    else clean (if name == "" then base else base ^^ "/" ^^ name)
