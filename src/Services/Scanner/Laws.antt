-- ===== src/Services/Scanner/Laws.antt =====
-- Which devices the scan reports, and how.
use kubernetes_external_prov.Base.{
  Bool, Result, String, [], arith, contains, err, false, is_empty, leb, not, ok, refl, ◌&&◌, ◌==◌,
  ◌||◌, ◌∙◌, ◌∷◌, ◌≡◌,
}
use kubernetes_external_prov.Fsutils.Device.{BlockDevice, children, properties, to_uint64}
use kubernetes_external_prov.Models.{DeviceInfo, MountEntry, StatfsResult, mounted}
use kubernetes_external_prov.Providers.{Lsblk, MountInfoProvider, StatfsProvider}
use kubernetes_external_prov.Providers.Statfs.{statfs}
use kubernetes_external_prov.Services.Scanner.{ScanConfig, mounted_info, mounted_sizes, or_na}

-- A device that the scan of unmounted devices reports.
abbrev pub is_reported : ScanConfig → BlockDevice → Bool
is_reported config d =
    (properties d).mountpoint == ""
    && ((properties d).fstype == "" || contains config.fs_types (properties d).fstype)
    && contains ("disk" ∷ "part" ∷ "loop" ∷ []) (properties d).device_type
    && not ((properties d).device_type == "disk" && not (is_empty (children d)))
    && leb config.min_size (to_uint64 (properties d).size)

abbrev passes_filters : ScanConfig → BlockDevice → Bool
passes_filters config d =
    (properties d).mountpoint == ""
    && ((properties d).fstype == "" || contains config.fs_types (properties d).fstype)
    && contains ("disk" ∷ "part" ∷ "loop" ∷ []) (properties d).device_type

-- A known UUID is reported as it is.
pub or_na-known : (u : String) → (u == "" || u == "N/A") ≡ false → or_na u ≡ u
or_na-known u h = ground arith

sizes-uuid : (r : Result StatfsResult) (info : DeviceInfo) → (mounted_sizes r info).uuid ≡ info.uuid
sizes-uuid (ok stats) info = refl
sizes-uuid (err e) info = refl

-- A mounted device is reported with the UUID that lsblk shows of it, if that is known.
pub mounted_info-uuid :
    {W : Type 0} (config : ScanConfig) (lsblk : Lsblk W) (mounts : MountInfoProvider W)
    (statfs : StatfsProvider W) (w : W) (entry : MountEntry) (u : String)
    → lsblk.get_uuid entry.source w ≡ ok u
    → (u == "" || u == "N/A") ≡ false
    → (mounted_info config lsblk mounts statfs w entry).uuid ≡ u
unfolding mounted_info kubernetes_external_prov.Services.Scanner.get_uuid
mounted_info-uuid config lsblk mounts statfs w entry u shown known =
    sizes-uuid (statfs.statfs entry.mountpoint w) (record {
      uuid = kubernetes_external_prov.Services.Scanner.get_uuid config lsblk entry.source w;
      device = entry.source;
      mount_path = entry.mountpoint;
      fs_type = entry.fs_type;
      status = mounted;
      total_size = 0;
      free_space = 0;
      used_space = 0;
    })
    ∙ rw (shown, kubernetes_external_prov.Services.Scanner.get_uuid) (or_na-known u known)
