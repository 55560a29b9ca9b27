-- ===== src/Fsutils/Decode/Accepts.antt =====
-- The decoder accepts what is of the schema, and nothing else.
use kubernetes_external_prov.Base.{
  Any, Bool, Error, List, Result, Result_map, String, [], arith, eq_iff, err, false, if◌then◌else◌,
  inl, inr, map, ok, ok≢err, refl, sym, true, wrap, ◌==◌, ◌>>=◌, ◌||◌, ◌↔◌, ◌∷◌, ◌≡◌, ◌⊎◌,
}
use kubernetes_external_prov.Fsutils.Decode.{
  Fields, Items, Json, array, boolean, field, fits_int64, fraction, from_text, integer, into_bool,
  into_int64, into_string, item, json_null, mismatch, no_fields, no_items, object, or_text,
  parse_bool, parse_int, string, unmarshal_bool, unmarshal_int64,
}
use kubernetes_external_prov.Fsutils.Decode.Output.{
  TextField, by_key, decode_device, decode_devices, decode_fields, decode_items, decode_output,
  decode_output_fields, is_key, no_properties, set_property, set_text, string_into, text_fields,
}
use kubernetes_external_prov.Fsutils.Decode.Schema.{
  AreDevices, AreFields, AreItems, AreOutputFields, IsDevice, IsFlag, IsOk, IsOutput, IsProperty,
  IsSize, IsTagged, IsText, OfKey,
}
use kubernetes_external_prov.Fsutils.Device.{Devices, Properties, cons, nil, pos, to_list, ℤ}

bind_iff :
    {A B : Type 0} (r : Result A) (f : A → Result B) (P Q : Type 0)
    → IsOk r ↔ P
    → ((a : A) → IsOk (f a) ↔ Q)
    → IsOk (r >>= f) ↔ (P × Q)
bind_iff (ok a) f P Q here there = (λ h. (here.0 tt, (there a).0 h), λ h. (there a).1 h.1)
bind_iff (err e) f P Q here there = (λ h. absurd h, λ h. here.1 h.0)

map_iff :
    {A B : Type 0} (f : A → B) (r : Result A) (P : Type 0) → IsOk r ↔ P → IsOk (Result_map f r) ↔ P
map_iff f (ok a) P here = here
map_iff f (err e) P here = here

key_iff :
    {A B C : Type 0} (b : Bool) (r : Result A) (s : Result B) (f : A → Result C) (g : B → Result C)
    (P Q R : Type 0)
    → IsOk r ↔ P
    → IsOk s ↔ Q
    → ((a : A) → IsOk (f a) ↔ R)
    → ((c : B) → IsOk (g c) ↔ R)
    → IsOk (by_key b r s f g) ↔ (OfKey b P Q × R)
key_iff true r s f g P Q R here other below beside = bind_iff r f P R here below
key_iff false r s f g P Q R here other below beside = bind_iff s g Q R other beside

if_iff :
    {A : Type 0} (b : Bool) (r s : Result A) (P Q : Type 0)
    → IsOk r ↔ P
    → IsOk s ↔ Q
    → IsOk (if b then r else s) ↔ OfKey b P Q
if_iff true r s P Q here other = here
if_iff false r s P Q here other = other

string_into-IsOk_iff : (old : String) (v : Json) → IsOk (string_into old v) ↔ IsText v
string_into-IsOk_iff old json_null = (λ h. h, λ h. h)
string_into-IsOk_iff old (string s) = (λ h. h, λ h. h)
string_into-IsOk_iff old (integer z) = (λ h. h, λ h. h)
string_into-IsOk_iff old (fraction s) = (λ h. h, λ h. h)
string_into-IsOk_iff old (boolean b) = (λ h. h, λ h. h)
string_into-IsOk_iff old (array vs) = (λ h. h, λ h. h)
string_into-IsOk_iff old (object fs) = (λ h. h, λ h. h)

number_iff :
    (b : Bool) (z : ℤ) → IsOk (or_text (integer z) (if b then ok z else mismatch)) ↔ (b ≡ true)
unfolding into_string
number_iff true z = (λ h. refl, λ h. tt)
number_iff false z = (λ h. absurd h, λ h. cc)

-- A result is accepted exactly if it has a value.
value_iff : {A : Type 0} (r : Result A) → IsOk r ↔ ((a : A) × (r ≡ ok a))
value_iff (ok a) = (λ h. (a, refl), λ h. tt)
value_iff (err e) = (λ h. absurd h, λ h. absurd (ok≢err (sym h.1)))

wrap_iff :
    {A : Type 0} (format : String) (args : List String) (r : Result A) (P : Type 0)
    → IsOk r ↔ P
    → IsOk (wrap format args r) ↔ P
wrap_iff format args (ok a) P here = here
wrap_iff format args (err e) P here = here

blank_iff :
    {A : Type 0} (b : Bool) (a : A) (r : Result A) (P : Type 0)
    → IsOk r ↔ P
    → IsOk (if b then ok a else r) ↔ ((b ≡ true) ⊎ P)
blank_iff true a r P here = (λ h. inl refl, λ h. tt)
blank_iff false a r P here = (λ h. inr (here.0 h), λ h. elim h [ inl e ↦ cc | inr p ↦ here.1 p ])

from_text-IsOk_iff :
    (s : String) → IsOk (from_text s) ↔ ((s ≡ "") ⊎ ((z : ℤ) × (parse_int s ≡ ok z)))
from_text-IsOk_iff s =
    let (to, from) = blank_iff (s == "") (pos 0) _ _ (
      wrap_iff "failed to parse %q as int64: %w" (s ∷ []) (parse_int s) _
        (value_iff (parse_int s))) in
    (
      λ h. elim (to h) [ inl e ↦ inl ((eq_iff s "").0 e) | inr p ↦ inr p ],
      λ h. from (elim h [ inl e ↦ inl ((eq_iff s "").1 e) | inr p ↦ inr p ]),
    )

unmarshal_int64-IsOk_iff : (v : Json) → IsOk (unmarshal_int64 v) ↔ IsSize v
unfolding unmarshal_int64 into_int64 into_string
unmarshal_int64-IsOk_iff json_null = (λ h. tt, λ h. tt)
unmarshal_int64-IsOk_iff (integer z) = number_iff (fits_int64 z) z
unmarshal_int64-IsOk_iff (string s) = from_text-IsOk_iff s
unmarshal_int64-IsOk_iff (fraction s) = (λ h. h, λ h. h)
unmarshal_int64-IsOk_iff (boolean b) = (λ h. h, λ h. h)
unmarshal_int64-IsOk_iff (array vs) = (λ h. h, λ h. h)
unmarshal_int64-IsOk_iff (object fs) = (λ h. h, λ h. h)

words_iff :
    (a b c d e f g : Bool) (P : Type 0) (failed : Error)
    → g ≡ true ↔ P
    → IsOk (if a || b || c then ok true else if d || e || f || g then ok false else err failed)
      ↔ (Any (λ t. t ≡ true) (a ∷ b ∷ c ∷ d ∷ e ∷ f ∷ []) ⊎ P)
words_iff true b c d e f g P failed blank = (λ h. inl (inl refl), λ h. tt)
words_iff false true c d e f g P failed blank = (λ h. inl (inr (inl refl)), λ h. tt)
words_iff false false true d e f g P failed blank = (λ h. inl (inr (inr (inl refl))), λ h. tt)
words_iff false false false true e f g P failed blank =
    (λ h. inl (inr (inr (inr (inl refl)))), λ h. tt)
words_iff false false false false true f g P failed blank =
    (λ h. inl (inr (inr (inr (inr (inl refl))))), λ h. tt)
words_iff false false false false false true g P failed blank =
    (λ h. inl (inr (inr (inr (inr (inr (inl refl)))))), λ h. tt)
words_iff false false false false false false true P failed blank =
    (λ h. inr (blank.0 refl), λ h. tt)
words_iff false false false false false false false P failed blank =
    (λ h. absurd h, λ h. ground arith)

parse_bool-IsOk_iff : (s : String) → IsOk (parse_bool s) ↔ IsFlag (string s)
unfolding parse_bool
parse_bool-IsOk_iff s = words_iff _ _ _ _ _ _ (s == "") (s ≡ "") _ (eq_iff s "")

unmarshal_bool-IsOk_iff : (v : Json) → IsOk (unmarshal_bool v) ↔ IsFlag v
unfolding unmarshal_bool into_bool into_string parse_bool
unmarshal_bool-IsOk_iff json_null = (λ h. tt, λ h. tt)
unmarshal_bool-IsOk_iff (boolean b) = (λ h. tt, λ h. tt)
unmarshal_bool-IsOk_iff (string s) = parse_bool-IsOk_iff s
unmarshal_bool-IsOk_iff (integer z) = (λ h. h, λ h. h)
unmarshal_bool-IsOk_iff (fraction s) = (λ h. h, λ h. h)
unmarshal_bool-IsOk_iff (array vs) = (λ h. h, λ h. h)
unmarshal_bool-IsOk_iff (object fs) = (λ h. h, λ h. h)

set_text-IsOk_iff :
    (fs : List TextField) (key : String) (v : Json) (p : Properties)
    → IsOk (set_text fs key v p) ↔ IsTagged (map (λ f. f.tag) fs) key v
unfolding set_text
set_text-IsOk_iff [] key v p = (λ h. tt, λ h. tt)
set_text-IsOk_iff (f ∷ fs) key v p =
    if_iff (is_key f.tag key) _ _ (IsText v) _
      (map_iff _ (string_into (f.value p) v) (IsText v) (string_into-IsOk_iff (f.value p) v))
      (set_text-IsOk_iff fs key v p)

set_property-IsOk_iff :
    (key : String) (v : Json) (p : Properties) → IsOk (set_property key v p) ↔ IsProperty key v
unfolding set_property
set_property-IsOk_iff key v p =
    if_iff (is_key "size" key) _ _ (IsSize v) _
      (map_iff _ (unmarshal_int64 v) (IsSize v) (unmarshal_int64-IsOk_iff v))
      (if_iff (is_key "rota" key) _ _ (IsFlag v) _
        (map_iff _ (unmarshal_bool v) (IsFlag v) (unmarshal_bool-IsOk_iff v))
        (set_text-IsOk_iff text_fields key v p))

mutual
  unfolding decode_device IsDevice

  decode_device-IsOk_iff : (v : Json) → IsOk (decode_device v) ↔ IsDevice v
  decode_device-IsOk_iff json_null = (λ h. tt, λ h. tt)
  decode_device-IsOk_iff (object fs) = decode_fields-IsOk_iff no_properties nil fs
  decode_device-IsOk_iff (integer z) = (λ h. h, λ h. h)
  decode_device-IsOk_iff (fraction s) = (λ h. h, λ h. h)
  decode_device-IsOk_iff (boolean b) = (λ h. h, λ h. h)
  decode_device-IsOk_iff (string s) = (λ h. h, λ h. h)
  decode_device-IsOk_iff (array vs) = (λ h. h, λ h. h)

  decode_fields-IsOk_iff :
      (p : Properties) (cs : Devices) (fs : Fields) → IsOk (decode_fields p cs fs) ↔ AreFields fs
  decode_fields-IsOk_iff p cs no_fields = (λ h. tt, λ h. tt)
  decode_fields-IsOk_iff p cs (field key v fs) =
      key_iff (is_key "children" key) (decode_devices v) (set_property key v p) _ _ (AreDevices v)
        (IsProperty key v) (AreFields fs) (decode_devices-IsOk_iff v)
        (set_property-IsOk_iff key v p) (λ ds. decode_fields-IsOk_iff p ds fs)
        (λ q. decode_fields-IsOk_iff q cs fs)

  decode_devices-IsOk_iff : (v : Json) → IsOk (decode_devices v) ↔ AreDevices v
  decode_devices-IsOk_iff json_null = (λ h. tt, λ h. tt)
  decode_devices-IsOk_iff (array vs) = decode_items-IsOk_iff vs
  decode_devices-IsOk_iff (integer z) = (λ h. h, λ h. h)
  decode_devices-IsOk_iff (fraction s) = (λ h. h, λ h. h)
  decode_devices-IsOk_iff (boolean b) = (λ h. h, λ h. h)
  decode_devices-IsOk_iff (string s) = (λ h. h, λ h. h)
  decode_devices-IsOk_iff (object fs) = (λ h. h, λ h. h)

  decode_items-IsOk_iff : (vs : Items) → IsOk (decode_items vs) ↔ AreItems vs
  decode_items-IsOk_iff no_items = (λ h. tt, λ h. tt)
  decode_items-IsOk_iff (item v vs) =
      bind_iff (decode_device v) _ (IsDevice v) (AreItems vs) (decode_device-IsOk_iff v)
        (λ d. map_iff (cons d) (decode_items vs) (AreItems vs) (decode_items-IsOk_iff vs))

decode_output_fields-IsOk_iff :
    (ds : Devices) (fs : Fields) → IsOk (decode_output_fields ds fs) ↔ AreOutputFields fs
unfolding decode_output_fields AreOutputFields
decode_output_fields-IsOk_iff ds no_fields = (λ h. tt, λ h. tt)
decode_output_fields-IsOk_iff ds (field key v fs) =
    key_iff (is_key "blockdevices" key) (decode_devices v) (ok ds) _ _ (AreDevices v) Unit
      (AreOutputFields fs) (decode_devices-IsOk_iff v) (λ h. tt, λ h. tt)
      (λ es. decode_output_fields-IsOk_iff es fs) (λ es. decode_output_fields-IsOk_iff es fs)

-- A JSON value is decoded with no error exactly if it is of the schema: null or an object, in
-- which each `blockdevices` is null or a list of devices, where a device is null or an object in
-- which each `children` is null or again such a list, each `size` is null, a number in the range
-- of an int64, a decimal text that ParseInt reads or the empty text, each `rota` is null, a
-- Boolean, one of six words in letters of any case or the empty text, and each of the 13 other
-- tags is null or a text. Keys match in letters of any case, and other keys hold anything.
pub decode_output-IsOk_iff : (v : Json) → IsOk (decode_output v) ↔ IsOutput v
unfolding decode_output
decode_output-IsOk_iff json_null = (λ h. tt, λ h. tt)
decode_output-IsOk_iff (object fs) =
    map_iff to_list (decode_output_fields nil fs) (AreOutputFields fs)
      (decode_output_fields-IsOk_iff nil fs)
decode_output-IsOk_iff (integer z) = (λ h. h, λ h. h)
decode_output-IsOk_iff (fraction s) = (λ h. h, λ h. h)
decode_output-IsOk_iff (boolean b) = (λ h. h, λ h. h)
decode_output-IsOk_iff (string s) = (λ h. h, λ h. h)
decode_output-IsOk_iff (array vs) = (λ h. h, λ h. h)
