-- ===== src/Fsutils/RootDisk.antt =====
-- `FindRootDiskDescendants` of cmd-drivers/fsutils/lsblk.go. The set of names is a list; the map
-- `all` of the source is never read and is left out.
pub mod Laws
use kubernetes_external_prov.Base.{List, String, [], contains, if◌then◌else◌, ◌∷◌}
use kubernetes_external_prov.Fsutils.Device.{BlockDevice, flatten_devices, properties}

unfoldable pub device_names : List BlockDevice → List String
device_names [] = []
device_names (d ∷ ds) = (properties d).name ∷ device_names ds

-- The loop over the top-level disks: the names of the first subtree that holds `root_source`.
unfoldable pub find_root_disk_descendants : List BlockDevice → String → List String
unfolding device_names contains flatten_devices
find_root_disk_descendants [] root_source = []
find_root_disk_descendants (d ∷ ds) root_source =
    let rest = find_root_disk_descendants ds root_source in
    let subtree = flatten_devices (d ∷ []) in
    if contains (device_names subtree) root_source then device_names subtree else rest
