-- ===== src/Fsutils/Decode.antt =====
-- The decoding of the sizes and of the flags of lsblk's JSON: `UnmarshalJSON` of `CustomInt64` and of
-- `CustomBool` in cmd-drivers/fsutils/lsblk.go, with what `json.Unmarshal`, `strconv.ParseInt` and
-- `strings.ToLower` do. Output is the decoding of the whole.
pub mod Bounds
pub mod Output
pub mod Sized
pub mod RoundTrip
pub mod Schema
pub mod Accepts
use Prim.Native.Char.{code}
use kubernetes_external_prov.Base.{
  Bool, Option, Result, String, [], eqb, err, errorf, external, false, if◌then◌else◌, leb, ltb,
  none, ok, some, suc, true, wrap, zero, ℕ, ◌&&◌, ◌*◌, ◌+◌, ◌-◌, ◌==◌, ◌>>=◌, ◌^◌, ◌||◌, ◌∷◌,
}
use kubernetes_external_prov.Fsutils.Device.{negsuc, pos, ℤ}

-- A JSON value; `fraction` is a number with a fraction or an exponent.
mutual
  pub data Json : Type 0 where
    json_null : Json
    integer : ℤ → Json
    fraction : String → Json
    boolean : Bool → Json
    string : String → Json
    array : Items → Json
    object : Fields → Json

  pub data Items : Type 0 where
    no_items : Items
    item : Json → Items → Items

  pub data Fields : Type 0 where
    no_fields : Fields
    field : String → Json → Fields → Fields

abbrev pub mismatch : {A : Type 0} → Result A
mismatch = err (external "json: cannot unmarshal")

abbrev pub fits_int64 : ℤ → Bool
fits_int64 (pos n) = ltb n (2 ^ 63)
fits_int64 (negsuc n) = ltb n (2 ^ 63)

-- `json.Unmarshal` into an `int64`, which is 0 before and stays so at null.
unfoldable pub into_int64 : Json → Result ℤ
into_int64 json_null = ok (pos 0)
into_int64 (integer z) = if fits_int64 z then ok z else mismatch
into_int64 (fraction s) = mismatch
into_int64 (boolean b) = mismatch
into_int64 (string s) = mismatch
into_int64 (array vs) = mismatch
into_int64 (object fs) = mismatch

-- `json.Unmarshal` into a `string`.
unfoldable pub into_string : Json → Result String
into_string json_null = ok ""
into_string (string s) = ok s
into_string (integer z) = mismatch
into_string (fraction s) = mismatch
into_string (boolean b) = mismatch
into_string (array vs) = mismatch
into_string (object fs) = mismatch

-- The value of decimal digits behind those read so far; none at any other character.
unfoldable pub digits_value : ℕ → String → Option ℕ
digits_value n String.[] = some n
digits_value n (String.◌∷◌ c s) =
    let rest = digits_value (n * 10 + (code c - b'0')) s in
    if leb b'0' (code c) && leb (code c) b'9' then rest else none

abbrev pub invalid : {A : Type 0} → Result A
invalid = err (external "strconv.ParseInt: parsing")

abbrev pub negative : ℕ → ℤ
negative zero = pos 0
negative (suc n) = negsuc n

abbrev pub signed : Bool → Option ℕ → Result ℤ
signed minus none = invalid
signed true (some n) = if leb n (2 ^ 63) then ok (negative n) else invalid
signed false (some n) = if ltb n (2 ^ 63) then ok (pos n) else invalid

abbrev pub unsigned_value : String → Option ℕ
unsigned_value s = if s == "" then none else digits_value 0 s

-- `strconv.ParseInt(s, 10, 64)`
unfoldable pub parse_int : String → Result ℤ
unfolding digits_value
parse_int String.[] = invalid
parse_int (String.◌∷◌ c s) =
    if eqb (code c) b'-'
    then signed true (unsigned_value s)
    else if eqb (code c) b'+'
    then signed false (unsigned_value s)
    else signed false (unsigned_value (String.◌∷◌ c s))

abbrev pub from_text : String → Result ℤ
from_text s =
    if s == "" then ok (pos 0) else wrap "failed to parse %q as int64: %w" (s ∷ []) (parse_int s)

abbrev pub or_text : Json → Result ℤ → Result ℤ
or_text v (ok z) = ok z
or_text v (err e) = into_string v >>= from_text

-- `CustomInt64.UnmarshalJSON`
unfoldable pub unmarshal_int64 : Json → Result ℤ
unfolding into_int64 into_string parse_int
unmarshal_int64 v = or_text v (into_int64 v)

-- `json.Unmarshal` into a `bool`.
unfoldable pub into_bool : Json → Result Bool
into_bool json_null = ok false
into_bool (boolean b) = ok b
into_bool (integer z) = mismatch
into_bool (fraction s) = mismatch
into_bool (string s) = mismatch
into_bool (array vs) = mismatch
into_bool (object fs) = mismatch

-- Whether a text, with the code of each character changed so, is the word.
unfoldable pub matches : (ℕ → ℕ) → String → String → Bool
matches change String.[] String.[] = true
matches change String.[] (String.◌∷◌ d t) = false
matches change (String.◌∷◌ c s) String.[] = false
matches change (String.◌∷◌ c s) (String.◌∷◌ d t) =
    let rest = matches change s t in if eqb (change (code c)) (code d) then rest else false

-- The code of the lower-case letter, for all letters whose lower case is in ASCII: those of ASCII, the
-- Kelvin sign and the dotted I.
abbrev pub lower_code : ℕ → ℕ
lower_code n =
    if leb b'A' n && leb n b'Z'
    then n + 32
    else if eqb n 0x212a
    then b'k'
    else if eqb n 0x130
    then b'i'
    else n

-- `strings.ToLower(s) == word`, of a word in small ASCII letters.
abbrev pub is_lower : String → String → Bool
is_lower s word = matches lower_code s word

-- The switch.
unfoldable pub parse_bool : String → Result Bool
unfolding matches
parse_bool s =
    if is_lower s "true" || is_lower s "1" || is_lower s "yes"
    then ok true
    else if is_lower s "false" || is_lower s "0" || is_lower s "no" || s == ""
    then ok false
    else err (errorf "invalid boolean value: %q" (s ∷ []))

abbrev pub or_word : Json → Result Bool → Result Bool
or_word v (ok b) = ok b
or_word v (err e) = into_string v >>= parse_bool

-- `CustomBool.UnmarshalJSON`
unfoldable pub unmarshal_bool : Json → Result Bool
unfolding into_bool into_string parse_bool
unmarshal_bool v = or_word v (into_bool v)
