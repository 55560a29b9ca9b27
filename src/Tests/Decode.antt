-- ===== src/Tests/Decode.antt =====
-- The JSON of lsblk: a disk with its partition.
use kubernetes_external_prov.Base.{All, IsErr, [], false, ok, refl, true, ◌↔◌, ◌∷◌, ◌≡◌}
use kubernetes_external_prov.Fsutils.Decode.{
  Json, array, boolean, digits_value, field, into_bool, into_int64, into_string, item, json_null,
  matches, no_fields, no_items, object, parse_bool, parse_int, string, unmarshal_bool,
  unmarshal_int64,
}
use kubernetes_external_prov.Fsutils.Decode.Accepts.{decode_output-IsOk_iff}
use kubernetes_external_prov.Fsutils.Decode.Output.{
  decode_device, decode_output, decode_output_fields, encode_items, no_properties, set_property,
  set_text,
}
use kubernetes_external_prov.Fsutils.Decode.RoundTrip.{decode_output-encode}
use kubernetes_external_prov.Fsutils.Decode.Schema.{IsOk, IsOutput}
use kubernetes_external_prov.Fsutils.Decode.Sized.{HasSize, IsSized, decode_output-HasSize}
use kubernetes_external_prov.Fsutils.Device.{BlockDevice, cons, device, flatten_devices, nil, pos}
use kubernetes_external_prov.Tests.Samples.{sda, sdc}

abbrev sample_json : Json
sample_json = object (
    field "blockdevices"
      (array (
        item
          (object (
            field "NAME" (string "/dev/sda") (
              field "size" (string "104857600") (
                field "rota" (string "Yes") (
                  field "uuid" json_null (
                    field "maj:min" (string "8:0") (
                      field "children"
                        (array (
                          item
                            (object (
                              field "name" (string "/dev/sda1")
                                (field "rota" (boolean false) no_fields)))
                            no_items))
                        no_fields)))))))
          no_items))
      no_fields)

abbrev sample_part : BlockDevice
sample_part = device (record no_properties { name = "/dev/sda1" }) nil

abbrev sample_disk : BlockDevice
sample_disk =
    device (record no_properties { name = "/dev/sda"; size = pos 104857600; rota = true })
      (cons sample_part nil)

sample_decoded : decode_output sample_json ≡ ok (sample_disk ∷ [])
unfolding decode_output decode_output_fields decode_device set_property set_text matches
    unmarshal_bool into_bool into_string parse_bool unmarshal_int64 into_int64 parse_int
    digits_value
sample_decoded = refl

sample_malformed : IsErr (decode_output (object (field "blockdevices" (string "none") no_fields)))
unfolding decode_output decode_output_fields decode_device matches
sample_malformed = tt

decode_output-HasSize_example : All HasSize (flatten_devices (sample_disk ∷ []))
decode_output-HasSize_example = decode_output-HasSize sample_json (sample_disk ∷ []) sample_decoded

decode_output-encode_example :
    decode_output
      (object (field "blockdevices" (array (encode_items (cons sda (cons sdc nil)))) no_fields))
    ≡ ok (sda ∷ sdc ∷ [])
decode_output-encode_example =
    decode_output-encode (cons sda (cons sdc nil))
      (unfold IsSized in ((refl, ((refl, tt), tt)), ((refl, tt), tt)))

decode_output-IsOk_iff_example : IsOk (decode_output sample_json) ↔ IsOutput sample_json
decode_output-IsOk_iff_example = decode_output-IsOk_iff sample_json
