-- ===== src/Fsutils/Decode/Bounds.antt =====
-- The range of decoded sizes.
use Prim.Native.Char.{code}
use kubernetes_external_prov.Base.{
  Bool, Bool-cases, Error, IsErr, IsErr-ne_ok, Option, Result-cases, String, arith, eqb, err, false,
  if◌then◌else◌, inl, inr, leb, ltb, none, ok, ok-injective, ok≢err, refl, some, subst, suc, sym,
  true, zero, ℕ, ◌==◌, ◌^◌, ◌∙◌, ◌≡◌,
}
use kubernetes_external_prov.Fsutils.Decode.{
  Json, array, boolean, fits_int64, fraction, from_text, integer, into_int64, into_string,
  json_null, object, parse_int, signed, string, unmarshal_int64, unsigned_value,
}
use kubernetes_external_prov.Fsutils.Device.{negsuc, pos, ℤ}

if-ok : (b : Bool) (y z : ℤ) (e : Error) → (if b then ok y else err e) ≡ ok z → (b ≡ true) × (y ≡ z)
if-ok true y z e h = (refl, ok-injective h)
if-ok false y z e h = absurd (ok≢err (sym h))

abbrev pub Fits : ℤ → Type 0
Fits z = fits_int64 z ≡ true

pub zero-Fits : Fits (pos 0)
zero-Fits = refl

signed-Fits : (minus : Bool) (o : Option ℕ) (z : ℤ) → signed minus o ≡ ok z → Fits z
signed-Fits minus none z h = absurd (ok≢err (sym h))
signed-Fits true (some zero) z h = subst Fits (ok-injective h) (zero-Fits)
signed-Fits true (some (suc n)) z h =
    let (small, same) = if-ok (leb (suc n) (2 ^ 63)) (negsuc n) z _ h in
    subst Fits same (ground arith)
signed-Fits false (some n) z h =
    let (small, same) = if-ok (ltb n (2 ^ 63)) (pos n) z _ h in subst Fits same small

parse_int-Fits : (s : String) (z : ℤ) → parse_int s ≡ ok z → Fits z
unfolding parse_int
parse_int-Fits String.[] z h = absurd (ok≢err (sym h))
parse_int-Fits (String.◌∷◌ c s) z h = elim (Bool-cases (eqb (code c) b'-')) [
  | inl minus ↦ signed-Fits true (unsigned_value s) z (sym (rw minus) ∙ h)
  | inr apart ↦ elim (Bool-cases (eqb (code c) b'+')) [
    | inl plus ↦ signed-Fits false (unsigned_value s) z (sym (rw (apart, plus)) ∙ h)
    | inr bare ↦ signed-Fits false (unsigned_value (String.◌∷◌ c s)) z (sym (rw (apart, bare)) ∙ h)
  ]
]

from_text-Fits : (s : String) (z : ℤ) → from_text s ≡ ok z → Fits z
from_text-Fits s z h = elim (Bool-cases (s == "")) [
  | inl blank ↦ subst Fits (ok-injective (sym (from_blank s blank) ∙ h)) zero-Fits
  | inr text' ↦ elim (Result-cases (parse_int s)) [
    | inl (y, parsed) ↦
        subst Fits (ok-injective (sym (from_parsed s y text' parsed) ∙ h))
          (parse_int-Fits s y parsed)
    | inr (e, failed) ↦ absurd (IsErr-ne_ok _ (from_failed s e text' failed) h)
  ]
]
  where
    from_blank : (s : String) → (s == "") ≡ true → from_text s ≡ ok (pos 0)
    from_blank s blank = rw blank

    from_parsed : (s : String) (y : ℤ) → (s == "") ≡ false → parse_int s ≡ ok y → from_text s ≡ ok y
    from_parsed s y text' parsed = rw (text', parsed)

    from_failed :
        (s : String) (e : Error) → (s == "") ≡ false → parse_int s ≡ err e → IsErr (from_text s)
    from_failed s e text' failed = rw (text', failed) tt

pub integer-fits : (y : ℤ) → fits_int64 y ≡ true → unmarshal_int64 (integer y) ≡ ok y
unfolding unmarshal_int64 into_int64
integer-fits y fits = rw fits

integer-beyond : (y : ℤ) → fits_int64 y ≡ false → IsErr (unmarshal_int64 (integer y))
unfolding unmarshal_int64 into_int64 into_string
integer-beyond y beyond = rw beyond tt

-- A size that is decoded, from a number, a text or null, is in the range of an `int64`.
pub unmarshal_int64-Fits : (v : Json) (z : ℤ) → unmarshal_int64 v ≡ ok z → Fits z
unfolding unmarshal_int64
unmarshal_int64-Fits json_null z h = subst Fits (ok-injective h) zero-Fits
unmarshal_int64-Fits (integer y) z h = elim (Bool-cases (fits_int64 y)) [
  | inl fits ↦ subst Fits (ok-injective (sym (integer-fits y fits) ∙ h)) fits
  | inr beyond ↦ absurd (IsErr-ne_ok _ (integer-beyond y beyond) h)
]
unmarshal_int64-Fits (string s) z h = from_text-Fits s z h
unmarshal_int64-Fits (fraction s) z h = absurd (ok≢err (sym h))
unmarshal_int64-Fits (boolean b) z h = absurd (ok≢err (sym h))
unmarshal_int64-Fits (array vs) z h = absurd (ok≢err (sym h))
unmarshal_int64-Fits (object fs) z h = absurd (ok≢err (sym h))
