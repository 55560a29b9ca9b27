-- ===== src/Tests/Fsutils.antt =====
-- The filters, the lookups, the root disk, filesystem types and labels.
use Prim.Native.String.{count}
use kubernetes_external_prov.Base.{
  IsErr, [], contains, false, filter, find?, ne_of_==, not, ok, refl, some, true, ◌==◌, ◌↔◌, ◌∷◌,
  ◌≡◌, ◌≤◌,
}
use kubernetes_external_prov.Fsutils.Decode.{parse_int, string, unmarshal_int64}
use kubernetes_external_prov.Fsutils.Device.{flatten_device, flatten_devices, negsuc, properties}
use kubernetes_external_prov.Fsutils.FsType.{
  fs_types_to_strings, is_valid_fs_type, parse_fs_types, valid_fs_type_names, valid_fs_types,
}
use kubernetes_external_prov.Fsutils.FsType.RoundTrip.{parse_fs_types-join}
use kubernetes_external_prov.Fsutils.Label.{validate_label}
use kubernetes_external_prov.Fsutils.Label.Laws.{AllLabelChars, validate_label_iff}
use kubernetes_external_prov.Fsutils.Lsblk.{
  FilterFunc, get_block_device, get_block_devices, get_uuid,
}
use kubernetes_external_prov.Fsutils.Lsblk.Filtering.{get_block_devices-steady, keeps}
use kubernetes_external_prov.Fsutils.Lsblk.Lookup.{IsLookup, get_block_device-find, get_uuid-find}
use kubernetes_external_prov.Fsutils.RootDisk.{device_names, find_root_disk_descendants}
use kubernetes_external_prov.Fsutils.RootDisk.Laws.{find_root_disk_descendants_iff}
use kubernetes_external_prov.Models.{default_label}
use kubernetes_external_prov.Tests.Samples.{all_devices, sda1}

flatten_sample :
    device_names (flatten_devices all_devices)
    ≡ "/dev/sda" ∷ "/dev/sda1" ∷ "/dev/sdb" ∷ "/dev/sdc" ∷ []
unfolding flatten_devices device_names
flatten_sample = refl

abbrev raw_only : FilterFunc
raw_only d = record { name = "raw"; skip = not ((properties d).fstype == ""); stop = false }

get_block_devices-steady_example :
    get_block_devices (ok all_devices) (some raw_only)
    ≡ ok (filter (keeps raw_only) (flatten_devices all_devices))
get_block_devices-steady_example = get_block_devices-steady (ok all_devices) raw_only (λ d. refl)

get_block_device-find_example : get_block_device (ok all_devices) "/dev/sda1" ≡ ok sda1
unfolding flatten_devices find?
get_block_device-find_example =
    get_block_device-find (ok all_devices) "/dev/sda1" (ne_of_== "/dev/sda1" "" refl)

get_uuid-find_example :
    IsLookup all_devices "/dev/sdc" (get_uuid (ok all_devices) (ok all_devices) "/dev/sdc")
get_uuid-find_example = get_uuid-find all_devices "/dev/sdc" (ne_of_== "/dev/sdc" "" refl) refl

-- A UUID is not found where the device is not listed.
get_uuid_missing : IsErr (get_uuid (ok all_devices) (ok all_devices) "/dev/sdz")
unfolding get_uuid flatten_devices
get_uuid_missing = tt

find_root_disk_descendants_iff_example :
    contains (find_root_disk_descendants all_devices "/dev/sda1") "/dev/sda" ≡ true
unfolding find? contains device_names flatten_device
find_root_disk_descendants_iff_example =
    find_root_disk_descendants_iff all_devices "/dev/sda1" "/dev/sda"

parse_fs_types-join_example : parse_fs_types valid_fs_type_names ≡ ok valid_fs_types
unfolding valid_fs_type_names is_valid_fs_type
parse_fs_types-join_example =
    parse_fs_types-join " " refl valid_fs_types (refl, (refl, (refl, (refl, tt))))

validate_label_iff_example :
    (validate_label default_label ≡ ok tt)
    ↔ ((1 ≤ count default_label) × (count default_label ≤ 10) × AllLabelChars default_label)
validate_label_iff_example = validate_label_iff default_label

default_label_valid : validate_label default_label ≡ ok tt
unfolding validate_label
default_label_valid = refl

decoded_text : unmarshal_int64 (string "-42") ≡ ok (negsuc 41)
unfolding unmarshal_int64 parse_int
decoded_text = refl

decoded_overflow : IsErr (unmarshal_int64 (string "9223372036854775808"))
unfolding unmarshal_int64 parse_int
decoded_overflow = tt

two_types : fs_types_to_strings ("ext4" ∷ "xfs" ∷ []) ≡ "ext4" ∷ "xfs" ∷ []
unfolding fs_types_to_strings
two_types = refl
