-- ===== src/Fsutils/FsType.antt =====
-- cmd-drivers/fsutils/fstype.go: the supported filesystem types and the parser of lists of them.
-- An `FSType` is its text.
pub mod Parsing
pub mod RoundTrip
use Prim.Native.Char.{Char, code}
use Prim.Native.String
use kubernetes_external_prov.Base.{
  Bool, List, Result, String, [], contains, eqb, err, errorf, if◌then◌else◌, join, leb, ok, ℕ, ◌&&◌,
  ◌++◌, ◌==◌, ◌||◌, ◌∷◌,
}

abbrev pub FsType : Type 0
FsType = String

abbrev pub valid_fs_types : List FsType
valid_fs_types = "ext4" ∷ "xfs" ∷ "vfat" ∷ "ntfs" ∷ []

-- `IsValidFSType`
unfoldable pub is_valid_fs_type : String → Bool
unfolding contains
is_valid_fs_type s = contains valid_fs_types s

abbrev pub cons_head : Char → List String → List String
cons_head c [] = String.◌∷◌ c "" ∷ []
cons_head c (x ∷ xs) = String.◌∷◌ c x ∷ xs

-- `strings.Split(csv, ",")`
unfoldable pub split_comma : String → List String
split_comma String.[] = "" ∷ []
split_comma (String.◌∷◌ c s) =
    let rest = split_comma s in if eqb (code c) b',' then "" ∷ rest else cons_head c rest

-- `unicode.IsSpace`
abbrev pub is_space : ℕ → Bool
is_space n =
    (leb 9 n && leb n 13)
    || eqb n 32
    || eqb n 0x85
    || eqb n 0xa0
    || eqb n 0x1680
    || (leb 0x2000 n && leb n 0x200a)
    || eqb n 0x2028
    || eqb n 0x2029
    || eqb n 0x202f
    || eqb n 0x205f
    || eqb n 0x3000

unfoldable pub trim_left : String → String
trim_left String.[] = ""
trim_left (String.◌∷◌ c s) =
    let rest = trim_left s in if is_space (code c) then rest else String.◌∷◌ c s

abbrev pub cons_unless_blank : Char → String → String
cons_unless_blank c String.[] = if is_space (code c) then "" else String.◌∷◌ c ""
cons_unless_blank c (String.◌∷◌ d s) = String.◌∷◌ c (String.◌∷◌ d s)

unfoldable pub trim_right : String → String
trim_right String.[] = ""
trim_right (String.◌∷◌ c s) = cons_unless_blank c (trim_right s)

-- `strings.TrimSpace`
unfoldable pub trim_space : String → String
unfolding trim_left trim_right
trim_space s = trim_right (trim_left s)

-- `validFSTypeNames`, which `ValidFSTypeList` returns.
unfoldable pub valid_fs_type_names : String
unfolding join
valid_fs_type_names = join ", " valid_fs_types

abbrev pub unsupported : {A : Type 0} → String → Result A
unsupported p =
    err (errorf "unsupported filesystem type %q: must be one of %s" (p ∷ valid_fs_type_names ∷ []))

-- The loop of `ParseFSTypes`, over what `Split` gave; `result` is what was appended so far.
unfoldable pub parse_parts : List FsType → List String → Result (List FsType)
unfolding trim_space is_valid_fs_type
parse_parts result [] = ok result
parse_parts result (p ∷ ps) =
    let trimmed = trim_space p in
    let skipped = parse_parts result ps in
    let kept = parse_parts (result ++ trimmed ∷ []) ps in
    if trimmed == ""
    then skipped
    else if is_valid_fs_type trimmed
    then kept
    else unsupported trimmed

-- `ParseFSTypes`
unfoldable pub parse_fs_types : String → Result (List FsType)
unfolding parse_parts split_comma
parse_fs_types csv = parse_parts [] (split_comma csv)

-- `FSTypesToStrings`
unfoldable pub fs_types_to_strings : List FsType → List String
fs_types_to_strings [] = []
fs_types_to_strings (t ∷ ts) = t ∷ fs_types_to_strings ts
