-- ===== src/Flow/DiskMapJson.antt =====
-- The JSON of a disk map: `json.Marshal` in node-scanner/internal/scanner/scanner.go and `json.Unmarshal`
-- in provisioner/internal/provisioner/provisioner.go, by the tags of commonlib/types.go. The keys are
-- written in the order of `before`, which orders texts.
pub mod Keys
pub mod ReadBack
pub mod GoMap
use kubernetes_external_prov.Base.{
  Bool, Dict, Result, Result_map, String, [], if◌then◌else◌, insert, ltb, ok, ℕ, ◌>>=◌, ◌^◌, ◌∷◌,
}
use kubernetes_external_prov.Fsutils.Decode.{
  Fields, Json, array, boolean, field, fraction, integer, json_null, matches, mismatch, no_fields,
  object, string,
}
use kubernetes_external_prov.Fsutils.Decode.Output.{by_key, is_key, string_into}
use kubernetes_external_prov.Fsutils.Device.{negsuc, pos}
use kubernetes_external_prov.Models.{DiskEntry}

-- `json.Unmarshal` into a `uint64` that has this value.
abbrev pub uint64_into : ℕ → Json → Result ℕ
uint64_into old json_null = ok old
uint64_into old (integer (pos n)) = if ltb n (2 ^ 64) then ok n else mismatch
uint64_into old (integer (negsuc n)) = mismatch
uint64_into old (string s) = mismatch
uint64_into old (fraction s) = mismatch
uint64_into old (boolean b) = mismatch
uint64_into old (array vs) = mismatch
uint64_into old (object fs) = mismatch

abbrev pub no_entry : DiskEntry
no_entry = record { path = ""; size = 0 }

-- A key other than `path`.
abbrev pub set_size : String → Json → DiskEntry → Result DiskEntry
set_size key v entry =
    if is_key "size" key
    then Result_map (λ n. record entry { size = n }) (uint64_into entry.size v)
    else ok entry

unfoldable pub decode_entry_fields : DiskEntry → Fields → Result DiskEntry
unfolding matches
decode_entry_fields entry no_fields = ok entry
decode_entry_fields entry (field key v fs) =
    by_key (is_key "path" key) (string_into entry.path v) (set_size key v entry)
      (λ s. decode_entry_fields (record entry { path = s }) fs)
      (λ other. decode_entry_fields other fs)

unfoldable pub decode_entry : Json → Result DiskEntry
unfolding decode_entry_fields
decode_entry json_null = ok no_entry
decode_entry (object fs) = decode_entry_fields no_entry fs
decode_entry (integer z) = mismatch
decode_entry (string s) = mismatch
decode_entry (fraction s) = mismatch
decode_entry (boolean b) = mismatch
decode_entry (array vs) = mismatch

unfoldable pub decode_entries : Dict DiskEntry → Fields → Result (Dict DiskEntry)
unfolding decode_entry insert
decode_entries m no_fields = ok m
decode_entries m (field key v fs) =
    decode_entry v >>= λ entry. decode_entries (insert key entry m) fs

-- `json.Unmarshal` into `map[string]DiskEntry`.
unfoldable pub decode_disk_map : Json → Result (Dict DiskEntry)
unfolding decode_entries
decode_disk_map json_null = ok []
decode_disk_map (object fs) = decode_entries [] fs
decode_disk_map (integer z) = mismatch
decode_disk_map (string s) = mismatch
decode_disk_map (fraction s) = mismatch
decode_disk_map (boolean b) = mismatch
decode_disk_map (array vs) = mismatch

-- The keys in order.
unfoldable pub place :
    (String → String → Bool) → String → DiskEntry → Dict DiskEntry → Dict DiskEntry
place before k entry [] = (k, entry) ∷ []
place before k entry ((j, other) ∷ m) =
    let rest = place before k entry m in
    if before k j then (k, entry) ∷ (j, other) ∷ m else (j, other) ∷ rest

unfoldable pub sort_keys : (String → String → Bool) → Dict DiskEntry → Dict DiskEntry
unfolding place
sort_keys before [] = []
sort_keys before ((k, entry) ∷ m) = place before k entry (sort_keys before m)

abbrev pub encode_entry : DiskEntry → Json
encode_entry entry =
    object (field "path" (string entry.path) (field "size" (integer (pos entry.size)) no_fields))

unfoldable pub encode_entries : Dict DiskEntry → Fields
encode_entries [] = no_fields
encode_entries ((k, entry) ∷ m) = field k (encode_entry entry) (encode_entries m)

-- `json.Marshal` of a disk map.
unfoldable pub encode_disk_map : (String → String → Bool) → Dict DiskEntry → Json
unfolding encode_entries sort_keys
encode_disk_map before m = object (encode_entries (sort_keys before m))
