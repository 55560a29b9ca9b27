-- ===== src/Fsutils/Label.antt =====
-- `ValidateLabel` of cmd-drivers/fsutils/fstype.go.
pub mod Laws
use Prim.Native.Char.{Char, code}
use Prim.Native.String
use Prim.Native.String.{len}
use kubernetes_external_prov.Base.{
  Bool, Result, String, [], eqb, err, errorf, if◌then◌else◌, leb, ltb, ok, true, ℕ, ◌&&◌, ◌||◌, ◌∷◌,
}

-- `A` to `Z`, or `0` to `9`.
abbrev pub is_label_char : ℕ → Bool
is_label_char r = (leb b'A' r && leb r b'Z') || (leb b'0' r && leb r b'9')

-- The loop over the runes.
unfoldable pub label_chars : String → Bool
label_chars String.[] = true
label_chars (String.◌∷◌ c s) = is_label_char (code c) && label_chars s

-- `len` counts bytes.
unfoldable pub validate_label : String → Result (Unit {0})
unfolding label_chars
validate_label label =
    if eqb (len label) 0 || ltb 10 (len label)
    then err (errorf "label %q: length must be 1–10 chars" (label ∷ []))
    else if label_chars label
    then ok tt
    else err (errorf "label %q: only uppercase A-Z and digits 0-9 are allowed" (label ∷ []))
