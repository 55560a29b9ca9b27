-- ===== src/Providers/Resolver.antt =====
-- cmd-drivers/providers/device_resolver.go. `filepath.EvalSymlinks` reads the node's file system.
pub mod Laws
use kubernetes_external_prov.Base.{
  List, Result, String, [], err, errorf, if◌then◌else◌, none, ok, wrap, ◌==◌, ◌>>=◌, ◌^^◌, ◌||◌,
  ◌∷◌,
}
use kubernetes_external_prov.Fsutils.Device.{BlockDevice, flatten_devices, properties}
use kubernetes_external_prov.Providers.{DeviceResolver, Lsblk}

-- The loop of the fallback.
unfoldable pub find_uuid : String → List BlockDevice → Result String
find_uuid wanted [] = err (errorf "device with UUID %q not found" (wanted ∷ []))
find_uuid wanted (d ∷ ds) =
    let rest = find_uuid wanted ds in
    if (properties d).uuid == wanted || (properties d).part_uuid == wanted
    then ok (properties d).name
    else rest

module _ {W : Type 0} (eval_symlinks : String → W → Result String) (lsblk : Lsblk W) where
  unfoldable pub fallback : String → W → Result String
  unfolding find_uuid
  fallback wanted w = do
    devices ← wrap "lsblk enumeration failed: %w" [] (lsblk.get_block_devices none w)
    find_uuid wanted (flatten_devices devices)

  -- `ResolveUUID`: the udev link first, then the enumeration.
  unfoldable pub resolve_uuid : String → W → Result String
  unfolding fallback
  resolve_uuid wanted w = elim (eval_symlinks ("/dev/disk/by-uuid/" ^^ wanted) w) [
    | ok resolved ↦ ok resolved
    | err e ↦ fallback wanted w
  ]

  abbrev pub real_resolver : DeviceResolver W
  real_resolver = record { resolve_uuid = resolve_uuid }
