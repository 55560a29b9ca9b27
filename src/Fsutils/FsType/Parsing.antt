-- ===== src/Fsutils/FsType/Parsing.antt =====
-- `ParseFSTypes` against the list of its entries, and as the inverse of joining.
use Prim.Native.Char.{code}
use text.Mathlib.TextLemmas.{nil-append, cons-append}
use mathlib.Core.List.{append-nil, append_assoc}
use kubernetes_external_prov.Base.{
  Bool, Bool-cases, List, Option, Result, String, [], ap, arith, eqb, filter, find?, inl, inr, map,
  none, not, ok, refl, some, true, ◌&&◌, ◌++◌, ◌==◌, ◌^^◌, ◌∙◌, ◌∷◌, ◌≡◌,
}
use kubernetes_external_prov.Fsutils.FsType.{
  FsType, is_space, is_valid_fs_type, parse_fs_types, parse_parts, split_comma, trim_space,
  unsupported,
}

-- The entries of a list: what stands between the commas, trimmed, unless blank.
abbrev pub is_blank : String → Bool
is_blank p = p == ""

abbrev pub entries : String → List String
entries csv = filter (λ p. not (is_blank p)) (map trim_space (split_comma csv))

abbrev pub first_refused : List FsType → Option String → Result (List FsType)
first_refused result none = ok result
first_refused result (some p) = unsupported p

abbrev es : List String → List String
es ps = filter (λ p. not (is_blank p)) (map trim_space ps)

parse_parts-find :
    (ps : List String) (result : List FsType)
    → let es = filter (λ p. not (is_blank p)) (map trim_space ps) in
      parse_parts result ps
      ≡ first_refused (result ++ es) (find? (λ p. not (is_valid_fs_type p)) es)
unfolding parse_parts filter find?
parse_parts-find [] result = rw (append-nil result)
parse_parts-find (p ∷ ps) result = elim (Bool-cases (trim_space p == "")) [
  | inl blank ↦ rw (blank, parse_parts, filter) (parse_parts-find ps result)
  | inr kept ↦ elim (Bool-cases (is_valid_fs_type (trim_space p))) [
    | inl valid ↦
        rw (kept, valid, parse_parts, filter, find?)
          (parse_parts-find ps (result ++ trim_space p ∷ [])
            ∙ ap (λ r. first_refused r (find? (λ q. not (is_valid_fs_type q)) (es ps)))
                (append_assoc result (trim_space p ∷ []) (es ps)))
    | inr refused ↦ rw (kept, refused, parse_parts, filter, find?)
  ]
]

-- The parser returns the entries of the text, in order, if all are supported types; otherwise its
-- error names the first entry that is not.
pub parse_fs_types-find :
    (csv : String)
    → parse_fs_types csv
      ≡ first_refused (entries csv) (find? (λ p. not (is_valid_fs_type p)) (entries csv))
unfolding parse_fs_types
parse_fs_types-find csv = parse_parts-find (split_comma csv) []

-- Texts of blanks only, and texts with no comma.
abbrev pub all_blank : String → Bool
all_blank String.[] = true
all_blank (String.◌∷◌ c s) = is_space (code c) && all_blank s

abbrev pub comma_free : String → Bool
comma_free String.[] = true
comma_free (String.◌∷◌ c s) = not (eqb (code c) b',') && comma_free s

pub split-comma_free : (t : String) → comma_free t ≡ true → split_comma t ≡ t ∷ []
unfolding split_comma
split-comma_free String.[] h = refl
split-comma_free (String.◌∷◌ c s) h = ground (arith, split-comma_free s)

pub split-append_comma :
    (t s : String) → comma_free t ≡ true → split_comma (t ^^ String.◌∷◌ "," s) ≡ t ∷ split_comma s
unfolding split_comma
split-append_comma String.[] s h = rw nil-append
split-append_comma (String.◌∷◌ c t) s h = rw cons-append (ground (arith, split-append_comma t s))
