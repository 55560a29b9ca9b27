-- ===== src/Fsutils/RootDisk/Laws.antt =====
-- Which names the root disk covers.
use mathlib.Core.List.{append-nil}
use kubernetes_external_prov.Base.{
  Bool, Bool-cases, List, Option, String, [], ap, contains, false, find?, inl, inr, none, refl,
  some, ◌∷◌, ◌≡◌,
}
use kubernetes_external_prov.Fsutils.Device.{BlockDevice, flatten_device, flatten_devices}
use kubernetes_external_prov.Fsutils.RootDisk.{device_names, find_root_disk_descendants}

-- A disk whose subtree has a device of that name.
abbrev pub covers : String → BlockDevice → Bool
covers x d = contains (device_names (flatten_device d)) x

device_names-append_nil :
    (d : BlockDevice) → device_names (flatten_devices (d ∷ [])) ≡ device_names (flatten_device d)
unfolding flatten_devices
device_names-append_nil d = ap device_names (append-nil (flatten_device d))

-- `x` belongs to the first disk that covers the root source, and there is one.
abbrev pub on_first : Option BlockDevice → String → Bool
on_first none x = false
on_first (some d) x = covers x d

-- A path is in the set exactly if it is the name of a device in the subtree of the first top-level
-- disk whose subtree has a device named like the root source.
pub find_root_disk_descendants_iff :
    (ds : List BlockDevice) (root x : String)
    → contains (find_root_disk_descendants ds root) x ≡ on_first (find? (covers root) ds) x
unfolding find_root_disk_descendants find? contains
find_root_disk_descendants_iff [] root x = refl
find_root_disk_descendants_iff (d ∷ ds) root x = elim (Bool-cases (covers root d)) [
  | inl yes' ↦ rw (device_names-append_nil d, yes')
  | inr no' ↦ rw (device_names-append_nil d, no') (find_root_disk_descendants_iff ds root x)
]
