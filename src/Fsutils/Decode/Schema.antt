-- ===== src/Fsutils/Decode/Schema.antt =====
-- Which JSON is an output of lsblk for the program: the schema of the tags, written without the decoder.
use kubernetes_external_prov.Base.{
  Any, Bool, List, Result, String, [], err, false, ok, true, ◌∷◌, ◌≡◌, ◌⊎◌,
}
use kubernetes_external_prov.Fsutils.Decode.{
  Fields, Items, Json, array, boolean, field, fraction, integer, is_lower, item, json_null,
  no_fields, no_items, object, parse_int, string,
}
use kubernetes_external_prov.Fsutils.Decode.Bounds.{Fits}
use kubernetes_external_prov.Fsutils.Decode.Output.{is_key}
use kubernetes_external_prov.Fsutils.Device.{ℤ}

abbrev pub IsOk : {A : Type 0} → Result A → Type 0
IsOk (ok a) = Unit
IsOk (err e) = ⊥

-- The first of two requirements if the test holds, else the second.
abbrev pub OfKey : Bool → Type 0 → Type 0 → Type 0
OfKey true P Q = P
OfKey false P Q = Q

abbrev pub IsText : Json → Type 0
IsText json_null = Unit
IsText (string s) = Unit
IsText (integer z) = ⊥
IsText (fraction s) = ⊥
IsText (boolean b) = ⊥
IsText (array vs) = ⊥
IsText (object fs) = ⊥

-- A number in the range of an `int64`, or its decimal text, or the empty text.
abbrev pub IsSize : Json → Type 0
IsSize json_null = Unit
IsSize (integer z) = Fits z
IsSize (string s) = (s ≡ "") ⊎ ((z : ℤ) × (parse_int s ≡ ok z))
IsSize (fraction s) = ⊥
IsSize (boolean b) = ⊥
IsSize (array vs) = ⊥
IsSize (object fs) = ⊥

abbrev pub IsWord : List String → String → Type 0
IsWord words s = Any (λ word. is_lower s word ≡ true) words

-- A Boolean, or one of its words in letters of any case, or the empty text.
abbrev pub IsFlag : Json → Type 0
IsFlag json_null = Unit
IsFlag (boolean b) = Unit
IsFlag (string s) = IsWord ("true" ∷ "1" ∷ "yes" ∷ "false" ∷ "0" ∷ "no" ∷ []) s ⊎ (s ≡ "")
IsFlag (integer z) = ⊥
IsFlag (fraction s) = ⊥
IsFlag (array vs) = ⊥
IsFlag (object fs) = ⊥

abbrev pub text_tags : List String
text_tags =
    "name" ∷ "type" ∷ "serial" ∷ "wwn" ∷ "vendor" ∷ "model" ∷ "rev" ∷ "mountpoint" ∷ "fstype"
    ∷ "uuid" ∷ "partuuid" ∷ "label" ∷ "pkname" ∷ []

-- Each key that is one of the tags has a text; other keys have anything.
abbrev pub IsTagged : List String → String → Json → Type 0
IsTagged [] key v = Unit
IsTagged (tag ∷ tags) key v = OfKey (is_key tag key) (IsText v) (IsTagged tags key v)

abbrev pub IsProperty : String → Json → Type 0
IsProperty key v =
    OfKey (is_key "size" key) (IsSize v)
      (OfKey (is_key "rota" key) (IsFlag v) (IsTagged text_tags key v))

unfoldable mutual
  pub IsDevice : Json → Type 0
  IsDevice json_null = Unit
  IsDevice (object fs) = AreFields fs
  IsDevice (integer z) = ⊥
  IsDevice (fraction s) = ⊥
  IsDevice (boolean b) = ⊥
  IsDevice (string s) = ⊥
  IsDevice (array vs) = ⊥

  pub AreFields : Fields → Type 0
  AreFields no_fields = Unit
  AreFields (field key v fs) =
      OfKey (is_key "children" key) (AreDevices v) (IsProperty key v) × AreFields fs

  pub AreDevices : Json → Type 0
  AreDevices json_null = Unit
  AreDevices (array vs) = AreItems vs
  AreDevices (integer z) = ⊥
  AreDevices (fraction s) = ⊥
  AreDevices (boolean b) = ⊥
  AreDevices (string s) = ⊥
  AreDevices (object fs) = ⊥

  pub AreItems : Items → Type 0
  AreItems no_items = Unit
  AreItems (item v vs) = IsDevice v × AreItems vs

unfoldable pub AreOutputFields : Fields → Type 0
unfolding IsDevice
AreOutputFields no_fields = Unit
AreOutputFields (field key v fs) =
    OfKey (is_key "blockdevices" key) (AreDevices v) Unit × AreOutputFields fs

abbrev pub IsOutput : Json → Type 0
IsOutput json_null = Unit
IsOutput (object fs) = AreOutputFields fs
IsOutput (integer z) = ⊥
IsOutput (fraction s) = ⊥
IsOutput (boolean b) = ⊥
IsOutput (string s) = ⊥
IsOutput (array vs) = ⊥
