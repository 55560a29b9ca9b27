-- ===== src/NodeScanner/Mounted.antt =====
-- What a scan mounts.
use kubernetes_external_prov.Base.{
  List, Result, String, [], ap, false, ok, refl, true, ◌++◌, ◌∙◌, ◌∷◌, ◌≡◌,
}
use kubernetes_external_prov.Models.{DeviceInfo}
use kubernetes_external_prov.NodeScanner.{
  Machine, ScannerConfig, after_mounts, format, init_config, lsblk, mount_all, mount_infos,
  mounter_for, no_uuid, scan, scan_config, statfs,
}
use kubernetes_external_prov.Providers.K8sMount.{real_mount_provider}
use kubernetes_external_prov.Services.Initializer.{init}
use kubernetes_external_prov.Services.Mounter.{target}
use kubernetes_external_prov.Services.Mounter.Allowed.{IsAllowed}
use kubernetes_external_prov.Services.Mounter.Complete.{mount_complete}
use kubernetes_external_prov.Services.Scanner.{scan_mounted, scan_unmounted}

module _ {W : Type 0} (config : ScannerConfig) (machine : Machine W) where
  -- The node after the first step of a scan.
  abbrev pub formatted : W → W
  formatted w =
      (init (init_config config machine) (format config machine) (lsblk config machine) w).1

  -- The device is known, `Mount` may mount it when the loop comes to it in the state `w`, the making of
  -- its target directory leaves `v`, and nothing is mounted there.
  pub record IsDue (dev : DeviceInfo) (path fs_type : String) (w v : W) : Type 0 where
    pub known : no_uuid dev ≡ false
    pub allowed : IsAllowed (mounter_for config machine dev.uuid) w path fs_type
    pub made :
        machine.files.mkdir_all (target (mounter_for config machine dev.uuid)) 0o750 w ≡ (ok tt, v)
    pub free :
        (mounter_for config machine dev.uuid).mounter.is_likely_not_mount_point
          (target (mounter_for config machine dev.uuid))
          v
        ≡ ok true

  -- The mount of the device at its target.
  abbrev pub mounted_at : DeviceInfo → String → String → W → W
  mounted_at dev path fs_type v =
      (machine.mount_utils.mount path (target (mounter_for config machine dev.uuid)) fs_type [] v).1

  mount_all-append :
      (xs ys : List DeviceInfo) (w : W)
      → mount_all config machine (xs ++ ys) w
        ≡ mount_all config machine ys (mount_all config machine xs w)
  unfolding mount_all
  mount_all-append [] ys w = refl
  mount_all-append (x ∷ xs) ys w = mount_all-append xs ys _

  due_head :
      (dev : DeviceInfo) (after : List DeviceInfo) (path fs_type : String) (w v : W)
      → IsDue dev path fs_type w v
      → mount_all config machine (dev ∷ after) w
        ≡ mount_all config machine after (mounted_at dev path fs_type v)
  unfolding mount_all real_mount_provider
  due_head dev after path fs_type w v due =
      rw (due.known, mount_all)
        (ap (λ (r : Result (Unit {0}) × W). mount_all config machine after r.1)
          (mount_complete (mounter_for config machine dev.uuid) w v path fs_type true due.allowed
            due.made due.free))

  -- A scan mounts each disk that is due: where it finds a device unmounted, with a known UUID,
  -- that `Mount` may mount when the loop comes to it, whose target directory can be made and has
  -- nothing mounted, then the scan goes on with the other devices, and with its report, from the
  -- state that the mount of the device at its target leaves.
  pub scan_mounts :
      (prev : List String) (w v : W) (before after : List DeviceInfo) (dev : DeviceInfo)
      (path fs_type : String)
      → scan_unmounted (scan_config config machine) (lsblk config machine) (formatted w)
        ≡ ok (before ++ (dev ∷ after))
      → IsDue dev path fs_type (mount_all config machine before (formatted w)) v
      → let mounted_state = mount_all config machine after (mounted_at dev path fs_type v) in
        scan config machine prev w
        ≡ after_mounts config machine prev mounted_state (
            scan_mounted
              (scan_config config machine)
              (lsblk config machine)
              (mount_infos config machine)
              (statfs config machine)
              mounted_state)
  unfolding scan
  scan_mounts prev w v before after dev path fs_type scanned due = rw scanned (
      ap
        (λ s. after_mounts config machine prev s (
          scan_mounted (scan_config config machine) (lsblk config machine)
            (mount_infos config machine) (statfs config machine) s))
        (mount_all-append before (dev ∷ after) (formatted w)
          ∙ due_head dev after path fs_type (mount_all config machine before (formatted w)) v due))
