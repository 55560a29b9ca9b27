-- ===== src/Fsutils/Decode/Output.antt =====
-- The JSON of block devices: `json.Unmarshal` into `lsblkOutput` and `BlockDevice` of
-- cmd-drivers/fsutils/lsblk.go by the tags of their fields, and `json.Marshal` of a `BlockDevice`. A key
-- is matched without regard to case, and other keys are passed over. Of an object's repeated key
-- `children`, the last value counts; lsblk repeats none.
-- The folding of a key's characters: those of ASCII, the Kelvin sign and the long s.
use kubernetes_external_prov.Base.{
  Bool, List, Result, Result_map, String, [], eqb, false, if◌then◌else◌, leb, ok, true, wrap, ℕ,
  ◌&&◌, ◌+◌, ◌>>=◌, ◌∷◌,
}
use kubernetes_external_prov.Fsutils.Decode.{
  Fields, Items, Json, array, boolean, field, fraction, integer, item, json_null, matches, mismatch,
  no_fields, no_items, object, string, unmarshal_bool, unmarshal_int64,
}
use kubernetes_external_prov.Fsutils.Device.{
  BlockDevice, Devices, Properties, cons, device, nil, pos, to_list, ℤ,
}

abbrev pub fold_code : ℕ → ℕ
fold_code n =
    if leb b'A' n && leb n b'Z'
    then n + 32
    else if eqb n 0x212a
    then b'k'
    else if eqb n 0x17f
    then b's'
    else n

abbrev pub is_key : String → String → Bool
is_key tag key = matches fold_code key tag

-- `json.Unmarshal` into a `string` that has this value, which stays at null.
abbrev pub string_into : String → Json → Result String
string_into old json_null = ok old
string_into old (string s) = ok s
string_into old (integer z) = mismatch
string_into old (fraction s) = mismatch
string_into old (boolean b) = mismatch
string_into old (array vs) = mismatch
string_into old (object fs) = mismatch

-- A field that is a string: its tag, how it is read and how it is set.
pub record TextField : Type 0 where
  pub tag : String
  pub value : Properties → String
  pub assign : String → Properties → Properties

abbrev pub text_fields : List TextField
text_fields =
    record { tag = "name"; value = λ p. p.name; assign = λ s p. record p { name = s } }
    ∷ record {
      tag = "type";
      value = λ p. p.device_type;
      assign = λ s p. record p { device_type = s };
    }
    ∷ record { tag = "serial"; value = λ p. p.serial; assign = λ s p. record p { serial = s } }
    ∷ record { tag = "wwn"; value = λ p. p.wwn; assign = λ s p. record p { wwn = s } }
    ∷ record { tag = "vendor"; value = λ p. p.vendor; assign = λ s p. record p { vendor = s } }
    ∷ record { tag = "model"; value = λ p. p.model; assign = λ s p. record p { model = s } }
    ∷ record { tag = "rev"; value = λ p. p.rev; assign = λ s p. record p { rev = s } }
    ∷ record {
      tag = "mountpoint";
      value = λ p. p.mountpoint;
      assign = λ s p. record p { mountpoint = s };
    }
    ∷ record { tag = "fstype"; value = λ p. p.fstype; assign = λ s p. record p { fstype = s } }
    ∷ record { tag = "uuid"; value = λ p. p.uuid; assign = λ s p. record p { uuid = s } }
    ∷ record {
      tag = "partuuid";
      value = λ p. p.part_uuid;
      assign = λ s p. record p { part_uuid = s };
    }
    ∷ record { tag = "label"; value = λ p. p.label; assign = λ s p. record p { label = s } }
    ∷ record { tag = "pkname"; value = λ p. p.pkname; assign = λ s p. record p { pkname = s } }
    ∷ []

unfoldable pub set_text : List TextField → String → Json → Properties → Result Properties
unfolding matches
set_text [] key v p = ok p
set_text (f ∷ fs) key v p =
    let rest = set_text fs key v p in
    if is_key f.tag key then Result_map (λ s. f.assign s p) (string_into (f.value p) v) else rest

-- A key and its value, but for `children`.
unfoldable pub set_property : String → Json → Properties → Result Properties
unfolding set_text unmarshal_int64 unmarshal_bool
set_property key v p =
    if is_key "size" key
    then Result_map (λ z. record p { size = z }) (unmarshal_int64 v)
    else if is_key "rota" key
    then Result_map (λ b. record p { rota = b }) (unmarshal_bool v)
    else set_text text_fields key v p

-- The zero value of `BlockDevice`, less its children.
abbrev pub no_properties : Properties
no_properties = record {
  name = "";
  device_type = "";
  size = pos 0;
  rota = false;
  serial = "";
  wwn = "";
  vendor = "";
  model = "";
  rev = "";
  mountpoint = "";
  fstype = "";
  uuid = "";
  part_uuid = "";
  label = "";
  pkname = "";
}

-- The decoded value goes on to the first function if the key is that of the devices, or else the other
-- value to the second.
abbrev pub by_key :
    {A B C : Type 0} → Bool → Result A → Result B → (A → Result C) → (B → Result C) → Result C
by_key true devices others below beside = devices >>= below
by_key false devices others below beside = others >>= beside

unfoldable mutual
  unfolding set_property

  pub decode_device : Json → Result BlockDevice
  decode_device json_null = ok (device no_properties nil)
  decode_device (object fs) = decode_fields no_properties nil fs
  decode_device (integer z) = mismatch
  decode_device (fraction s) = mismatch
  decode_device (boolean b) = mismatch
  decode_device (string s) = mismatch
  decode_device (array vs) = mismatch

  -- The fields of an object, into a device with these properties and children.
  pub decode_fields : Properties → Devices → Fields → Result BlockDevice
  decode_fields p cs no_fields = ok (device p cs)
  decode_fields p cs (field key v fs) =
      by_key (is_key "children" key) (decode_devices v) (set_property key v p)
        (λ ds. decode_fields p ds fs) (λ q. decode_fields q cs fs)

  pub decode_devices : Json → Result Devices
  decode_devices json_null = ok nil
  decode_devices (array vs) = decode_items vs
  decode_devices (integer z) = mismatch
  decode_devices (fraction s) = mismatch
  decode_devices (boolean b) = mismatch
  decode_devices (string s) = mismatch
  decode_devices (object fs) = mismatch

  pub decode_items : Items → Result Devices
  decode_items no_items = ok nil
  decode_items (item v vs) = decode_device v >>= λ d. Result_map (cons d) (decode_items vs)

-- The fields of `lsblkOutput`, with these devices so far.
unfoldable pub decode_output_fields : Devices → Fields → Result Devices
unfolding decode_devices
decode_output_fields ds no_fields = ok ds
decode_output_fields ds (field key v fs) =
    by_key (is_key "blockdevices" key) (decode_devices v) (ok ds) (λ es. decode_output_fields es fs)
      (λ es. decode_output_fields es fs)

unfoldable pub decode_output : Json → Result (List BlockDevice)
unfolding decode_output_fields
decode_output json_null = ok []
decode_output (object fs) = Result_map to_list (decode_output_fields nil fs)
decode_output (integer z) = mismatch
decode_output (fraction s) = mismatch
decode_output (boolean b) = mismatch
decode_output (string s) = mismatch
decode_output (array vs) = mismatch

-- What `GetBlockDevices` has before it filters, where `run` gives the JSON that lsblk writes, or the
-- error of the run or of JSON's syntax.
unfoldable pub parsed_output : {W : Type 0} → (W → Result Json) → W → Result (List BlockDevice)
unfolding decode_output
parsed_output run w = do
  output ← run w
  wrap "failed to unmarshal lsblk output: %w" [] (decode_output output)

-- `CustomInt64.MarshalJSON`
abbrev pub marshal_int64 : ℤ → Json
marshal_int64 z = integer z

-- `CustomBool.MarshalJSON`
abbrev pub marshal_bool : Bool → Json
marshal_bool b = boolean b

-- The fields of a device by their tags, and what follows them.
abbrev pub property_fields : Properties → Fields → Fields
property_fields p rest = field "name" (string p.name) (
    field "type" (string p.device_type) (
      field "size" (marshal_int64 p.size) (
        field "rota" (marshal_bool p.rota) (
          field "serial" (string p.serial) (
            field "wwn" (string p.wwn) (
              field "vendor" (string p.vendor) (
                field "model" (string p.model) (
                  field "rev" (string p.rev) (
                    field "mountpoint" (string p.mountpoint) (
                      field "fstype" (string p.fstype) (
                        field "uuid" (string p.uuid) (
                          field "partuuid" (string p.part_uuid) (
                            field "label" (string p.label)
                              (field "pkname" (string p.pkname) rest))))))))))))))

-- `json.Marshal` of a `BlockDevice`; the children are left out where there are none.
unfoldable mutual
  pub encode_device : BlockDevice → Json
  encode_device (device p cs) = object (property_fields p (encode_children cs))

  pub encode_children : Devices → Fields
  encode_children nil = no_fields
  encode_children (cons d ds) =
      field "children" (array (item (encode_device d) (encode_items ds))) no_fields

  pub encode_items : Devices → Items
  encode_items nil = no_items
  encode_items (cons d ds) = item (encode_device d) (encode_items ds)
