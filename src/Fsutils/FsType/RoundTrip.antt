-- ===== src/Fsutils/FsType/RoundTrip.antt =====
-- `ParseFSTypes` undoes joining.
use Prim.Native.Char.{code}
use mathlib.Core.List.{append-nil, append_assoc}
use text.Mathlib.TextLemmas.{nil-append, cons-append}
use text.Mathlib.TextLemmas.{append_assoc as text_assoc}
use kubernetes_external_prov.Base.{
  All, List, String, [], and-eq-true_iff, ap, arith, eq_iff, eqb, false, inl, inr, join, not, ok,
  refl, sym, true, ℕ, ◌++◌, ◌==◌, ◌^^◌, ◌∙◌, ◌∷◌, ◌≡◌, ◌⊎◌,
}
use kubernetes_external_prov.Fsutils.FsType.{
  FsType, is_space, is_valid_fs_type, parse_fs_types, parse_parts, split_comma, trim_left,
  trim_right, trim_space,
}
use kubernetes_external_prov.Fsutils.FsType.Parsing.{
  all_blank, comma_free, split-append_comma, split-comma_free,
}

comma_free-append :
    (s t : String) → comma_free s ≡ true → comma_free t ≡ true → comma_free (s ^^ t) ≡ true
comma_free-append String.[] t hs ht = rw nil-append ht
comma_free-append (String.◌∷◌ c s) t hs ht = rw cons-append (ground (arith, comma_free-append s t))

blank_not_comma : (n : ℕ) → is_space n ≡ true → not (eqb n b',') ≡ true
blank_not_comma n h = ground arith

comma_free_of_blank : (p : String) → all_blank p ≡ true → comma_free p ≡ true
comma_free_of_blank String.[] h = refl
comma_free_of_blank (String.◌∷◌ c s) h =
    let (here, later) = (and-eq-true_iff (is_space (code c)) (all_blank s)).0 h in
    rw (blank_not_comma (code c) here) (comma_free_of_blank s later)

trim_left-append_blank : (p t : String) → all_blank p ≡ true → trim_left (p ^^ t) ≡ trim_left t
unfolding trim_left
trim_left-append_blank String.[] t h = rw nil-append
trim_left-append_blank (String.◌∷◌ c s) t h =
    let (here, later) = (and-eq-true_iff (is_space (code c)) (all_blank s)).0 h in
    rw (cons-append, trim_left, here) (trim_left-append_blank s t later)

-- The supported types, one by one.
valid_cases :
    (t : String)
    → is_valid_fs_type t ≡ true
    → (t ≡ "ext4") ⊎ (t ≡ "xfs") ⊎ (t ≡ "vfat") ⊎ (t ≡ "ntfs")
unfolding is_valid_fs_type
valid_cases t h = ground (arith, eq_iff "ext4" t, eq_iff "xfs" t, eq_iff "vfat" t, eq_iff "ntfs" t)

record Trims (t : String) : Type 0 where
  no_comma : comma_free t ≡ true
  trimmed : trim_right (trim_left t) ≡ t
  not_blank : (t == "") ≡ false

valid-Trims : (t : String) → is_valid_fs_type t ≡ true → Trims t
unfolding trim_left trim_right
valid-Trims t h = elim (valid_cases t h) [
  | inl e ↦ rw e (record { no_comma = refl; trimmed = refl; not_blank = refl })
  | inr (inl e) ↦ rw e (record { no_comma = refl; trimmed = refl; not_blank = refl })
  | inr (inr (inl e)) ↦ rw e (record { no_comma = refl; trimmed = refl; not_blank = refl })
  | inr (inr (inr e)) ↦ rw e (record { no_comma = refl; trimmed = refl; not_blank = refl })
]

abbrev IsValidList : List FsType → Type 0
IsValidList ts = All (λ t. is_valid_fs_type t ≡ true) ts

abbrev pub padded : String → List FsType → List String
padded pad [] = []
padded pad (t ∷ ts) = (pad ^^ t) ∷ padded pad ts

module _ (pad : String) (blank : all_blank pad ≡ true) where
  -- Joined by a comma and the padding, the list splits into its padded items.
  split-join :
      (first t : String) (ts : List FsType)
      → comma_free first ≡ true
      → IsValidList (t ∷ ts)
      → split_comma (first ^^ join ("," ^^ pad) (t ∷ ts)) ≡ (first ^^ t) ∷ padded pad ts
  unfolding join
  split-join first t [] hf h =
      split-comma_free (first ^^ t) (comma_free-append first t hf (valid-Trims t h.0).no_comma)
  split-join first t (u ∷ us) hf h =
      let free : comma_free (first ^^ t) ≡ true =
        comma_free-append first t hf (valid-Trims t h.0).no_comma in
      ap split_comma (glue (join ("," ^^ pad) (u ∷ us)))
      ∙ split-append_comma (first ^^ t) (pad ^^ join ("," ^^ pad) (u ∷ us)) free
      ∙ ap (λ r. (first ^^ t) ∷ r) (split-join pad u us (comma_free_of_blank pad blank) h.1)
    where
      glue :
          (s : String) → first ^^ t ^^ ("," ^^ pad) ^^ s ≡ (first ^^ t) ^^ String.◌∷◌ "," (pad ^^ s)
      glue s =
          ap (λ r. first ^^ t ^^ r)
            (text_assoc "," pad s
              ∙ cons-append "," "" (pad ^^ s)
              ∙ ap (String.◌∷◌ ",") (nil-append (pad ^^ s)))
          ∙ sym (text_assoc first t (String.◌∷◌ "," (pad ^^ s)))

  trim_space-padded : (t : String) → is_valid_fs_type t ≡ true → trim_space (pad ^^ t) ≡ t
  unfolding trim_space
  trim_space-padded t h =
      ap trim_right (trim_left-append_blank pad t blank) ∙ (valid-Trims t h).trimmed

  parse_parts-padded :
      (ts result : List FsType)
      → IsValidList ts
      → parse_parts result (padded pad ts) ≡ ok (result ++ ts)
  unfolding parse_parts
  parse_parts-padded [] result h = rw (append-nil result)
  parse_parts-padded (t ∷ ts) result h =
      rw (trim_space-padded t h.0, (valid-Trims t h.0).not_blank, h.0)
        (parse_parts-padded ts (result ++ t ∷ []) h.1 ∙ ap ok (append_assoc result (t ∷ []) ts))

  parse_parts-first :
      (t : FsType) (ts : List FsType)
      → IsValidList (t ∷ ts)
      → parse_parts [] (t ∷ padded pad ts) ≡ ok (t ∷ ts)
  unfolding parse_parts
  parse_parts-first t ts h =
      rw ((valid-Trims t h.0).trimmed, (valid-Trims t h.0).not_blank, h.0)
        (parse_parts-padded ts (t ∷ []) h.1)

  -- A list of supported types, joined by commas each followed by the same blanks (none, or one space
  -- as in the help text), parses to itself.
  pub parse_fs_types-join :
      (ts : List FsType) → IsValidList ts → parse_fs_types (join ("," ^^ pad) ts) ≡ ok ts
  unfolding parse_fs_types join
  parse_fs_types-join [] h = refl
  parse_fs_types-join (t ∷ ts) h =
      ap (parse_parts []) (
        ap split_comma (sym (nil-append (join ("," ^^ pad) (t ∷ ts))))
        ∙ split-join "" t ts refl h
        ∙ ap (λ r. r ∷ padded pad ts) (nil-append t))
      ∙ parse_parts-first t ts h
