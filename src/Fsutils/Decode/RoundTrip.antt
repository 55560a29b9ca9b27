-- ===== src/Fsutils/Decode/RoundTrip.antt =====
-- What is written as JSON is read back.
use kubernetes_external_prov.Base.{ok, refl, ◌∙◌, ◌≡◌}
use kubernetes_external_prov.Fsutils.Decode.{
  Fields, array, field, into_bool, matches, no_fields, object, unmarshal_bool,
}
use kubernetes_external_prov.Fsutils.Decode.Bounds.{Fits, integer-fits}
use kubernetes_external_prov.Fsutils.Decode.Output.{
  decode_device, decode_devices, decode_fields, decode_items, decode_output, decode_output_fields,
  encode_children, encode_device, encode_items, no_properties, property_fields, set_property,
  set_text,
}
use kubernetes_external_prov.Fsutils.Decode.Sized.{AreSized, IsSized}
use kubernetes_external_prov.Fsutils.Device.{
  BlockDevice, Devices, Properties, cons, device, nil, to_list,
}

-- The fields of a device are read back, whatever follows them.
fields-read :
    (p : Properties) (fs : Fields)
    → Fits p.size
    → decode_fields no_properties nil (property_fields p fs) ≡ decode_fields p nil fs
unfolding decode_device set_property set_text matches unmarshal_bool into_bool
fields-read p fs h = rw (integer-fits p.size h)

mutual
  unfolding decode_device encode_device IsSized

  device-read : (d : BlockDevice) → IsSized d → decode_device (encode_device d) ≡ ok d
  device-read (device p cs) (h, g) = fields-read p (encode_children cs) h ∙ children-read p cs g

  children-read :
      (p : Properties) (cs : Devices)
      → AreSized cs
      → decode_fields p nil (encode_children cs) ≡ ok (device p cs)
  children-read p nil g = refl
  children-read p (cons d ds) (h, g) = rw (device-read d h) (rw (items-read ds g))

  items-read : (ds : Devices) → AreSized ds → decode_items (encode_items ds) ≡ ok ds
  items-read nil g = refl
  items-read (cons d ds) (h, g) = rw (device-read d h) (rw (items-read ds g))

-- Devices whose sizes, at every depth, are in the range of an `int64` are read back as they were
-- from an output of lsblk that lists their JSON, as `json.Marshal` writes it.
pub decode_output-encode :
    (ds : Devices)
    → AreSized ds
    → decode_output (object (field "blockdevices" (array (encode_items ds)) no_fields))
      ≡ ok (to_list ds)
unfolding decode_output decode_output_fields decode_devices matches
decode_output-encode ds g = rw (items-read ds g)
