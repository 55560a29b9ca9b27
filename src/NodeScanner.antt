-- ===== src/NodeScanner.antt =====
-- node-scanner/internal/scanner/scanner.go. A `Machine` is what the scanner finds outside the
-- repository: the node's commands and system calls, and the API server's client.
pub mod DiskMap
pub mod Labels
pub mod Mounts
pub mod Mounted
pub mod Content
pub mod Stale
pub mod Targets
use kubernetes_external_prov.Base.{
  Bool, Dict, List, Option, Result, String, [], contains, err, false, if◌then◌else◌, insert, ltb,
  none, ok, some, suc, true, wrapf, zero, ℕ, ◌==◌, ◌^^◌, ◌||◌, ◌∷◌,
}
use kubernetes_external_prov.Exec.{Exec}
use kubernetes_external_prov.Fsutils.Device.{BlockDevice, negsuc, pos, ℤ}
use kubernetes_external_prov.Models.{
  DeviceInfo, DiskEntry, annotation_disk_map, default_label, label_uuid_prefix,
}
use kubernetes_external_prov.Providers.{
  FormatProvider, Lsblk, MountInfoProvider, MountProvider, StatfsProvider, real_lsblk,
}
use kubernetes_external_prov.Providers.Format.{Mkfs, real_format}
use kubernetes_external_prov.Providers.K8sMount.{real_mount_provider}
use kubernetes_external_prov.Providers.MountInfo.{
  Moby, mount_info_provider, unfiltered_mount_info_provider,
}
use kubernetes_external_prov.Providers.Resolver.{real_resolver}
use kubernetes_external_prov.Providers.Statfs.{StatfsT, real_statfs}
use kubernetes_external_prov.Services.Initializer.{InitConfig, new_disk_initializer}
use kubernetes_external_prov.Services.Interfaces.{DeviceMounts, DeviceScanner, DiskInitializer}
use kubernetes_external_prov.Services.Mounter.{DeviceMounter, Files, as_device_mounts}
use kubernetes_external_prov.Services.Scanner.{ScanConfig, new_scanner}

-- `Config`; the interval between scans is in nanoseconds.
pub record ScannerConfig : Type 0 where
  pub node_name : String
  pub mount_base : String
  pub fs_type : String
  pub min_size : ℕ
  pub scan_interval : ℤ

-- The patch of the node: labels, where none stands for null, and annotations.
pub record NodePatch : Type 0 where
  pub labels : Dict (Option String)
  pub annotations : Dict String

pub record Machine (W : Type 0) : Type 0 where
  pub output : W → Result (List BlockDevice)
  pub mkfs : Mkfs W
  pub moby : Moby W
  pub statfs_call : String → W → Result StatfsT
  pub eval_symlinks : String → W → Result String
  pub mount_utils : MountProvider W
  pub files : Files W
  -- `Nodes().Patch` with a strategic merge patch, and `retry.RetryOnConflict`
  pub patch_node : String → NodePatch → Exec W (Unit {0})
  pub retry_on_conflict : Exec W (Unit {0}) → Exec W (Unit {0})
  -- `json.Marshal` of a disk map
  pub marshal : Dict DiskEntry → String
  -- `sort.Slice` of devices by UUID
  pub sort_devices : List DeviceInfo → List DeviceInfo

-- A device whose UUID is unknown is left out.
abbrev pub no_uuid : DeviceInfo → Bool
no_uuid dev = dev.uuid == "" || dev.uuid == "N/A"

-- The loop that fills `diskMap`.
unfoldable pub disk_map_from : Dict DiskEntry → List DeviceInfo → Dict DiskEntry
unfolding insert
disk_map_from m [] = m
disk_map_from m (dev ∷ devs) =
    disk_map_from
      (if no_uuid dev
        then m
        else insert dev.uuid (record { path = dev.mount_path; size = dev.total_size }) m)
      devs

-- The same loop, for `currentUUIDs`.
unfoldable pub current_uuids : List DeviceInfo → List String
current_uuids [] = []
current_uuids (dev ∷ devs) =
    let rest = current_uuids devs in if no_uuid dev then rest else dev.uuid ∷ rest

-- `labels[prefix+uuid] = "true"` for each current UUID.
unfoldable pub add_labels : List String → Dict (Option String) → Dict (Option String)
unfolding insert
add_labels [] m = m
add_labels (u ∷ us) m = add_labels us (insert (label_uuid_prefix ^^ u) (some "true") m)

-- `labels[prefix+uuid] = nil` for each previous UUID that is not current.
unfoldable pub drop_labels : List String → List String → Dict (Option String) → Dict (Option String)
unfolding insert contains
drop_labels current [] m = m
drop_labels current (u ∷ us) m =
    drop_labels current us
      (if contains current u then m else insert (label_uuid_prefix ^^ u) none m)

-- The labels of `patchNode`.
unfoldable pub patch_labels : List String → List String → Dict (Option String)
unfolding add_labels drop_labels
patch_labels current prev = drop_labels current prev (add_labels current [])

module _ {W : Type 0} (config : ScannerConfig) (machine : Machine W) where
  abbrev pub lsblk : Lsblk W
  lsblk = real_lsblk machine.output

  abbrev pub format : FormatProvider W
  format = real_format machine.mkfs

  abbrev pub statfs : StatfsProvider W
  statfs = real_statfs machine.statfs_call

  abbrev pub init_config : InitConfig
  init_config = record {
    fs_type = config.fs_type;
    label = default_label;
    min_size = config.min_size;
    dry_run = false;
  }

  abbrev pub scan_config : ScanConfig
  scan_config = record {
    dir_prefix = config.mount_base;
    fs_types = config.fs_type ∷ [];
    min_size = config.min_size;
  }

  abbrev pub mount_infos : MountInfoProvider W
  mount_infos =
      mount_info_provider machine.moby config.mount_base (config.fs_type ∷ []) config.min_size
        statfs

  -- What the loop builds a mounter from, for one device.
  abbrev pub mounter_for : String → DeviceMounter W
  mounter_for uuid = record {
    config = record {
      uuid = uuid;
      mount_point = config.mount_base;
      fs_type = config.fs_type;
      options = [];
      managed_only = true;
      require_label = default_label;
    };
    resolver = real_resolver machine.eval_symlinks lsblk;
    mounter = real_mount_provider machine.mount_utils;
    lsblk = lsblk;
    mounts = unfiltered_mount_info_provider machine.moby;
    files = machine.files;
  }

  abbrev pub device_mounts : String → DeviceMounts W
  device_mounts uuid = as_device_mounts (mounter_for uuid)

  -- The services that `scan` builds.
  abbrev pub disk_initializer : DiskInitializer W
  disk_initializer = new_disk_initializer init_config lsblk format

  abbrev pub device_scanner : DeviceScanner W
  device_scanner = new_scanner machine.sort_devices scan_config mount_infos statfs lsblk

  -- The loop over the unmounted devices; what `Mount` answers is only logged.
  unfoldable pub mount_all : List DeviceInfo → W → W
  mount_all [] w = w
  mount_all (dev ∷ devs) w =
      mount_all devs (if no_uuid dev then w else ((device_mounts dev.uuid).mount w).1)

  -- `patchNode`, where `prev` is `s.prevUUIDs` at the time of the call.
  unfoldable pub patch_node : List String → Dict DiskEntry → List String → Exec W (Unit {0})
  unfolding patch_labels
  patch_node prev disk_map current = machine.retry_on_conflict (
      machine.patch_node config.node_name (record {
        labels = patch_labels current prev;
        annotations = (annotation_disk_map, machine.marshal disk_map) ∷ [];
      }))

  -- The end of `scan`: the state's `prevUUIDs` is set to the current ones, and then the node is patched
  -- from the state.
  unfoldable pub publish : List DeviceInfo → W → Result (Unit {0}) × List String × W
  unfolding patch_node disk_map_from current_uuids
  publish devices w =
      let current = current_uuids devices in
      let prev = current in
      let answer = patch_node prev (disk_map_from [] devices) current w in
      (answer.0, prev, answer.1)

  abbrev pub after_mounts :
      List String → W → Result (List DeviceInfo) → Result (Unit {0}) × List String × W
  after_mounts prev w (err e) = (err (wrapf "scan mounted devices: %w" [] e), prev, w)
  after_mounts prev w (ok devices) = publish devices w

  abbrev pub after_scan :
      List String → W → Result (List DeviceInfo) → Result (Unit {0}) × List String × W
  after_scan prev w (err e) = (err (wrapf "scan unmounted devices: %w" [] e), prev, w)
  after_scan prev w (ok unmounted) =
      let w' = mount_all unmounted w in after_mounts prev w' (device_scanner.scan_mounted w')

  -- `scan`, with `s.prevUUIDs` before and after.
  unfoldable pub scan : List String → W → Result (Unit {0}) × List String × W
  unfolding mount_all publish
  scan prev w =
      let w' = (disk_initializer.init w).1 in after_scan prev w' (device_scanner.scan_unmounted w')

  -- The scans of `Run` until its context is cancelled, after so many ticks; errors are only logged.
  unfoldable pub run : ℕ → List String → W → List String × W
  unfolding scan
  run zero prev w = let (r, prev', w') = scan prev w in (prev', w')
  run (suc ticks) prev w = let (r, prev', w') = scan prev w in run ticks prev' w'

-- The struct `Scanner`: its configuration, its client with the machine, and the UUIDs of the last scan.
pub record Scanner (W : Type 0) : Type 0 where
  pub config : ScannerConfig
  pub client : Machine W
  pub prev_uuids : List String

-- `New`
abbrev pub new : {W : Type 0} → ScannerConfig → Machine W → Scanner W
new config client = record { config = config; client = client; prev_uuids = [] }

-- How `Run` ends: its context is cancelled, or `time.NewTicker` panics.
pub data Ending : Type 0 where
  cancelled panicked : Ending

-- Whether `time.NewTicker` takes the interval.
abbrev pub is_interval : ℤ → Bool
is_interval (pos n) = ltb 0 n
is_interval (negsuc n) = false

-- `Run` of a scanner: without an interval, only the first scan is made.
abbrev pub run_scanner : {W : Type 0} → ℕ → Scanner W → W → Ending × List String × W
run_scanner ticks s w =
    let scans = if is_interval s.config.scan_interval then ticks else 0 in
    let (prev', w') = run s.config s.client scans s.prev_uuids w in
    (if is_interval s.config.scan_interval then cancelled else panicked, prev', w')
