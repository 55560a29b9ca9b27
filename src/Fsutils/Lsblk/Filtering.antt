-- ===== src/Fsutils/Lsblk/Filtering.antt =====
-- `GetBlockDevices` with a filter, against `filter` over the flattened devices.
use kubernetes_external_prov.Base.{
  Bool, List, Result, [], ap, ap₂, arith, err, false, filter, filter-append, not, ok, refl, some,
  ◌++◌, ◌>>=◌, ◌∷◌, ◌≡◌,
}
use kubernetes_external_prov.Fsutils.Device.{
  BlockDevice, Devices, cons, device, flatten_children, flatten_device, flatten_devices, nil,
}
use kubernetes_external_prov.Fsutils.Lsblk.{
  FilterFunc, filter_all, filter_children_recursive, filter_device_recursive, get_block_devices,
}

-- A filter that never asks to stop.
abbrev pub IsSteady : FilterFunc → Type 0
IsSteady f = (d : BlockDevice) → (f d).stop ≡ false

abbrev pub keeps : FilterFunc → BlockDevice → Bool
keeps f d = not (f d).skip

mutual
  unfolding filter_device_recursive flatten_device filter

  device-steady :
      (f : FilterFunc)
      → IsSteady f
      → (d : BlockDevice) → filter_device_recursive f d ≡ filter (keeps f) (flatten_device d)
  device-steady f h (device p cs) = ground (arith, h (device p cs), children-steady f h cs)

  children-steady :
      (f : FilterFunc)
      → IsSteady f
      → (cs : Devices) → filter_children_recursive f cs ≡ filter (keeps f) (flatten_children cs)
  children-steady f h nil = refl
  children-steady f h (cons d ds) =
      rw (filter-append (keeps f) (flatten_device d) (flatten_children ds))
        (ap₂ ◌++◌ (device-steady f h d) (children-steady f h ds))

filter_all-steady :
    (f : FilterFunc)
    → IsSteady f
    → (ds : List BlockDevice) → filter_all f ds ≡ filter (keeps f) (flatten_devices ds)
unfolding filter_all flatten_devices filter
filter_all-steady f h [] = refl
filter_all-steady f h (d ∷ ds) =
    rw (filter-append (keeps f) (flatten_device d) (flatten_devices ds))
      (ap₂ ◌++◌ (device-steady f h d) (filter_all-steady f h ds))

-- With a filter that never stops, the result is every device of the tree that the filter does not
-- skip, parents before children, whatever the output of lsblk, and its error if it failed.
pub get_block_devices-steady :
    (output : Result (List BlockDevice)) (f : FilterFunc)
    → IsSteady f
    → get_block_devices output (some f)
      ≡ (output >>= λ ds. ok (filter (keeps f) (flatten_devices ds)))
unfolding get_block_devices
get_block_devices-steady (ok ds) f h = ap ok (filter_all-steady f h ds)
get_block_devices-steady (err e) f h = refl
