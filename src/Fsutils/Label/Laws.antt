-- ===== src/Fsutils/Label/Laws.antt =====
-- Which labels are accepted.
use Prim.Native.Char.{Char, code, len_utf8, len_utf8_def}
use Prim.Native.String.{len, count}
use Prim.Native.String.len
use Prim.Native.String.count
use kubernetes_external_prov.Base.{
  String, arith, ok, refl, sym, true, ℕ, ◌<◌, ◌↔◌, ◌∙◌, ◌≡◌, ◌≤◌, ◌⊎◌,
}
use kubernetes_external_prov.Fsutils.Label.{label_chars, validate_label}

-- An upper-case letter or a digit.
abbrev pub IsLabelChar : ℕ → Type 0
IsLabelChar r = ((b'A' ≤ r) × (r ≤ b'Z')) ⊎ ((b'0' ≤ r) × (r ≤ b'9'))

abbrev pub AllLabelChars : String → Type 0
AllLabelChars String.[] = Unit
AllLabelChars (String.◌∷◌ c s) = IsLabelChar (code c) × AllLabelChars s

label_chars_sound : (s : String) → label_chars s ≡ true → AllLabelChars s
unfolding label_chars
label_chars_sound String.[] h = tt
label_chars_sound (String.◌∷◌ c s) h = (ground arith, label_chars_sound s (ground arith))

label_chars_complete : (s : String) → AllLabelChars s → label_chars s ≡ true
unfolding label_chars
label_chars_complete String.[] h = refl
label_chars_complete (String.◌∷◌ c s) h = ground (arith, label_chars_complete s h.1)

-- A character below 128 takes one byte.
len_utf8-ascii : (c : Char) → code c < 128 → len_utf8 c ≡ 1
len_utf8-ascii c h = rw (len_utf8_def c) (ground arith)

-- A byte for each character.
len-eq-count : (s : String) → AllLabelChars s → len s ≡ count s
len-eq-count String.[] h = len.nil ∙ sym count.nil
len-eq-count (String.◌∷◌ c s) h =
    rw (len.cons c s, count.cons c s, len_utf8-ascii c (ground arith), len-eq-count s h.1)
      (omega arith)

-- A label is accepted exactly if it has one to ten characters, each an upper-case letter or a digit.
pub validate_label_iff :
    (s : String) → (validate_label s ≡ ok tt) ↔ ((1 ≤ count s) × (count s ≤ 10) × AllLabelChars s)
unfolding validate_label
validate_label_iff s = (
  λ h.
      let chars : label_chars s ≡ true = ground arith in
      let all = label_chars_sound s chars in ground (arith, len-eq-count s all),
  λ h. ground (arith, len-eq-count s h.2, label_chars_complete s h.2),
)
