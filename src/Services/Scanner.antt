-- ===== src/Services/Scanner.antt =====
-- cmd-drivers/services/scanner.go
pub mod Laws
pub mod Space
use kubernetes_external_prov.Base.{
  List, Result, String, [], err, false, if◌then◌else◌, is_empty, ltb, map, not, ok, some, wrap, ℕ,
  ◌%◌, ◌&&◌, ◌++◌, ◌+◌, ◌-◌, ◌==◌, ◌>>=◌, ◌^◌, ◌∷◌,
}
use kubernetes_external_prov.Fsutils.Device.{BlockDevice, children, properties, to_uint64}
use kubernetes_external_prov.Fsutils.Filters.{all_of, fs_type_filter, type_filter}
use kubernetes_external_prov.Fsutils.Lsblk.{FilterFunc, uuid_or_part_uuid}
use kubernetes_external_prov.Models.{
  DeviceInfo, MountEntry, StatfsResult, mounted, not_partitioned, partitioned,
}
use kubernetes_external_prov.Providers.{Lsblk, MountInfoProvider, StatfsProvider}
use kubernetes_external_prov.Services.Interfaces.{DeviceScanner}

pub record ScanConfig : Type 0 where
  pub dir_prefix : String
  pub fs_types : List String
  pub min_size : ℕ

-- A `uint64` difference.
abbrev pub sub_uint64 : ℕ → ℕ → ℕ
sub_uint64 a b = (a + 2 ^ 64 - b) % 2 ^ 64

-- The status filter of `ScanUnmounted`.
unfoldable pub mountpoint_empty : FilterFunc
mountpoint_empty d = record {
  name = "MountpointEmpty";
  skip = not ((properties d).mountpoint == "");
  stop = false;
}

abbrev pub unmounted_filters : ScanConfig → List FilterFunc
unmounted_filters config =
    mountpoint_empty
    ∷ fs_type_filter config.fs_types
    ∷ type_filter ("disk" ∷ "part" ∷ "loop" ∷ [])
    ∷ []

abbrev pub or_na : String → String
or_na uuid = if uuid == "" then "N/A" else uuid

-- The body of the loop of `ScanUnmounted` after its two `continue`s.
unfoldable pub unmounted_info : BlockDevice → DeviceInfo
unfolding uuid_or_part_uuid to_uint64
unmounted_info bd = record {
  uuid = or_na (uuid_or_part_uuid bd);
  device = (properties bd).name;
  mount_path = "";
  fs_type = (properties bd).fstype;
  status = if (properties bd).device_type == "part" then partitioned else not_partitioned;
  total_size = to_uint64 (properties bd).size;
  free_space = 0;
  used_space = 0;
}

-- The loop of `ScanUnmounted`.
unfoldable pub unmounted_infos : ScanConfig → List BlockDevice → List DeviceInfo
unfolding unmounted_info
unmounted_infos config [] = []
unmounted_infos config (bd ∷ bds) =
    let rest = unmounted_infos config bds in
    if (properties bd).device_type == "disk" && not (is_empty (children bd))
    then rest
    else if ltb (to_uint64 (properties bd).size) config.min_size
    then rest
    else unmounted_info bd ∷ rest

abbrev pub mounted_sizes : Result StatfsResult → DeviceInfo → DeviceInfo
mounted_sizes (err e) info = info
mounted_sizes (ok stats) info = record info {
  total_size = stats.total_size;
  free_space = stats.free_space;
  used_space = sub_uint64 stats.total_size stats.free_space;
}

module _ {W : Type 0} (config : ScanConfig) (lsblk : Lsblk W) where
  -- `getUUID`
  unfoldable pub get_uuid : String → W → String
  get_uuid source w = elim (lsblk.get_uuid source w) [ ok uuid ↦ or_na uuid | err e ↦ "N/A" ]

  unfoldable pub scan_unmounted : W → Result (List DeviceInfo)
  unfolding unmounted_infos
  scan_unmounted w = do
    bds ← lsblk.get_block_devices (some (all_of (unmounted_filters config))) w
    ok (unmounted_infos config bds)

  module _ (mounts : MountInfoProvider W) (statfs : StatfsProvider W) where
    -- The body of the loop of `ScanMounted`; the sizes stay 0 if statfs fails.
    unfoldable pub mounted_info : W → MountEntry → DeviceInfo
    unfolding get_uuid
    mounted_info w entry = mounted_sizes (statfs.statfs entry.mountpoint w) (record {
      uuid = get_uuid entry.source w;
      device = entry.source;
      mount_path = entry.mountpoint;
      fs_type = entry.fs_type;
      status = mounted;
      total_size = 0;
      free_space = 0;
      used_space = 0;
    })

    unfoldable pub scan_mounted : W → Result (List DeviceInfo)
    unfolding mounted_info
    scan_mounted w = do entries ← mounts.get_mounts w; ok (map (mounted_info w) entries)

    -- `ScanAll`; `sort` is `sort.Slice` by UUID.
    unfoldable pub scan_all : (List DeviceInfo → List DeviceInfo) → W → Result (List DeviceInfo)
    unfolding scan_mounted scan_unmounted
    scan_all sort w = do
      mounted_devices ← wrap "scanning mounted devices: %w" [] (scan_mounted w)
      unmounted ← wrap "scanning unmounted devices: %w" [] (scan_unmounted w)
      ok (sort (mounted_devices ++ unmounted))

-- The struct `scanner`, and `sort.Slice` by UUID, which `ScanAll` calls.
pub record Scanner (W : Type 0) : Type 0 where
  pub config : ScanConfig
  pub mounts : MountInfoProvider W
  pub statfs : StatfsProvider W
  pub lsblk : Lsblk W
  pub sort : List DeviceInfo → List DeviceInfo

-- The methods of `scanner`.
abbrev pub as_device_scanner : {W : Type 0} → Scanner W → DeviceScanner W
as_device_scanner s = record {
  scan_all = scan_all s.config s.lsblk s.mounts s.statfs s.sort;
  scan_mounted = scan_mounted s.config s.lsblk s.mounts s.statfs;
  scan_unmounted = scan_unmounted s.config s.lsblk;
}

-- `NewScanner`
abbrev pub new_scanner :
    {W : Type 0} (sort : List DeviceInfo → List DeviceInfo) (config : ScanConfig)
    (mounts : MountInfoProvider W) (statfs : StatfsProvider W) (lsblk : Lsblk W)
    → DeviceScanner W
new_scanner sort config mounts statfs lsblk =
    as_device_scanner
      (record { config = config; mounts = mounts; statfs = statfs; lsblk = lsblk; sort = sort })
