-- ===== src/Fsutils/Lsblk.antt =====
-- `GetBlockDevices`, `GetBlockDevice` and `GetUUID` of cmd-drivers/fsutils/lsblk.go. What a run of
-- the lsblk command gives, decoded, is an argument: `output` for one run, and a second for a second.
pub mod Filtering
pub mod Lookup
use kubernetes_external_prov.Base.{
  Bool, List, Option, Result, String, [], err, errorf, false, head?, if◌then◌else◌, none, ok, some,
  starts_with, true, wrap, ◌++◌, ◌==◌, ◌>>=◌, ◌∷◌,
}
use kubernetes_external_prov.Fsutils.Device.{
  BlockDevice, Devices, cons, device, flatten_devices, nil, properties,
}

-- What a `FilterFunc` returns.
pub record Verdict : Type 0 where
  pub name : String
  pub skip : Bool
  pub stop : Bool

abbrev pub FilterFunc : Type 0
FilterFunc = BlockDevice → Verdict

-- `filterDeviceRecursive`; a stop ends the descent into the device's own children.
unfoldable mutual
  pub filter_device_recursive : FilterFunc → BlockDevice → List BlockDevice
  filter_device_recursive f (device p cs) =
      let below = filter_children_recursive f cs in
      let v = f (device p cs) in
      if v.skip
      then (if v.stop then [] else below)
      else if v.stop
      then device p cs ∷ []
      else device p cs ∷ below

  pub filter_children_recursive : FilterFunc → Devices → List BlockDevice
  filter_children_recursive f nil = []
  filter_children_recursive f (cons d ds) =
      filter_device_recursive f d ++ filter_children_recursive f ds

-- The loop of `GetBlockDevices` over the top-level devices.
unfoldable pub filter_all : FilterFunc → List BlockDevice → List BlockDevice
unfolding filter_device_recursive
filter_all f [] = []
filter_all f (d ∷ ds) = filter_device_recursive f d ++ filter_all f ds

-- A failed run is an error of the output; the filter is optional.
unfoldable pub get_block_devices :
    Result (List BlockDevice) → Option FilterFunc → Result (List BlockDevice)
unfolding filter_all
get_block_devices output none = output
get_block_devices output (some f) = do devices ← output; ok (filter_all f devices)

-- The filter of `GetBlockDevice`.
unfoldable pub device_filter : String → FilterFunc
device_filter wanted d =
    if (properties d).name == wanted
    then record { name = "DeviceNameMatch"; skip = false; stop = true }
    else record { name = "DeviceNameMatch"; skip = true; stop = false }

abbrev pub not_found : {A : Type 0} → String → Result A
not_found wanted = err (errorf "device %q not found" (wanted ∷ []))

abbrev pub empty_device : {A : Type 0} → Result A
empty_device = err (errorf "device parameter cannot be empty" [])

-- `if len(devices) == 0 { … not found }; return &devices[0]`
abbrev pub first_found : {A : Type 0} → String → Option A → Result A
first_found wanted none = not_found wanted
first_found wanted (some d) = ok d

unfoldable pub get_block_device : Result (List BlockDevice) → String → Result BlockDevice
unfolding get_block_devices device_filter
get_block_device output wanted = if wanted == "" then empty_device else do
  devices ← get_block_devices output (some (device_filter wanted))
  first_found wanted (head? devices)

-- The UUID, else the PARTUUID, else "".
unfoldable pub uuid_or_part_uuid : BlockDevice → String
uuid_or_part_uuid d =
    if (properties d).uuid == "" then (properties d).part_uuid else (properties d).uuid

-- The search of `GetUUID` in the flattened devices.
unfoldable pub search_flat : String → List BlockDevice → Result String
unfolding uuid_or_part_uuid
search_flat wanted [] = not_found wanted
search_flat wanted (d ∷ ds) =
    let rest = search_flat wanted ds in
    if (properties d).name == wanted then ok (uuid_or_part_uuid d) else rest

-- What `GetUUID` does with the answer of the direct lookup.
unfoldable pub after_lookup :
    Result BlockDevice → Result (List BlockDevice) → String → Result String
unfolding uuid_or_part_uuid search_flat get_block_devices
after_lookup (ok d) again wanted = ok (uuid_or_part_uuid d)
after_lookup (err e) again wanted = do
  all_devices ← wrap "failed to get block devices: %w" [] (get_block_devices again none)
  search_flat wanted (flatten_devices all_devices)

-- `output` is the first run of lsblk, `again` the second, made if the direct lookup fails.
unfoldable pub get_uuid :
    Result (List BlockDevice) → Result (List BlockDevice) → String → Result String
unfolding get_block_device after_lookup
get_uuid output again wanted =
    if wanted == ""
    then err (errorf "device parameter cannot be empty" [])
    else if starts_with wanted "/dev/"
    then after_lookup (get_block_device output wanted) again wanted
    else ok ""
