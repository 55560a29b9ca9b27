-- ===== src/Flow/Found.antt =====
-- The devices that a scan publishes, if it does not fail before.
use kubernetes_external_prov.Base.{
  All, IsErr-ne_ok, List, Result-cases, String, [], arith, inl, inr, map, ok, ok-injective, ok≢err,
  refl, subst, sym, ◌∙◌, ◌∷◌, ◌≡◌,
}
use kubernetes_external_prov.Flow.DiskMapJson.ReadBack.{IsUint64}
use kubernetes_external_prov.Models.{DeviceInfo, MountEntry}
use kubernetes_external_prov.NodeScanner.{
  Machine, ScannerConfig, after_scan, lsblk, mount_all, mount_infos, publish, scan, scan_config,
  statfs,
}
use kubernetes_external_prov.NodeScanner.Mounted.{formatted}
use kubernetes_external_prov.Services.Scanner.{mounted_info, scan_mounted, scan_unmounted}

module _ {W : Type 0} (config : ScannerConfig) (machine : Machine W) where
  -- The devices that a scan finds mounted, after it has formatted and mounted.
  pub record HasFound (w : W) (devs : List DeviceInfo) : Type 0 where
    pub unmounted : List DeviceInfo
    pub scanned :
        scan_unmounted
          (scan_config config machine)
          (lsblk config machine)
          (formatted config machine w)
        ≡ ok unmounted
    pub remounted :
        scan_mounted
          (scan_config config machine)
          (lsblk config machine)
          (mount_infos config machine)
          (statfs config machine)
          (mount_all config machine unmounted (formatted config machine w))
        ≡ ok devs

  -- The sizes that are found are those of a `uint64`.
  mounted-IsUint64 :
      (w : W) (entry : MountEntry)
      → IsUint64 (
          mounted_info
            (scan_config config machine)
            (lsblk config machine)
            (mount_infos config machine)
            (statfs config machine)
            w
            entry)
  unfolding mounted_info kubernetes_external_prov.Providers.Statfs.statfs
  mounted-IsUint64 w entry = elim (Result-cases (machine.statfs_call entry.mountpoint w)) [
    | inl (stat, called) ↦ rw called (ground arith)
    | inr (e, failed) ↦ rw failed refl
  ]

  map-IsUint64 :
      (w : W) (es : List MountEntry)
      → All IsUint64 (
          map
            (mounted_info
              (scan_config config machine)
              (lsblk config machine)
              (mount_infos config machine)
              (statfs config machine)
              w)
            es)
  map-IsUint64 w [] = tt
  map-IsUint64 w (e ∷ es) = (mounted-IsUint64 w e, map-IsUint64 w es)

  scanned-IsUint64 :
      (w : W) (devs : List DeviceInfo)
      → scan_mounted
          (scan_config config machine)
          (lsblk config machine)
          (mount_infos config machine)
          (statfs config machine)
          w
        ≡ ok devs
      → All IsUint64 devs
  unfolding scan_mounted
  scanned-IsUint64 w devs h = elim (Result-cases ((mount_infos config machine).get_mounts w)) [
    | inl (es, got) ↦ subst (All IsUint64) (ok-injective (sym (rw got) ∙ h)) (map-IsUint64 w es)
    | inr (e, failed) ↦ absurd (ok≢err {a = devs} {e = e} (sym h ∙ rw failed))
  ]

  pub found-IsUint64 : (w : W) (devs : List DeviceInfo) → HasFound w devs → All IsUint64 devs
  found-IsUint64 w devs found =
      scanned-IsUint64 (mount_all config machine found.unmounted (formatted config machine w)) devs
        found.remounted

  pub found-publish :
      (prev : List String) (w : W) (devs : List DeviceInfo) (found : HasFound w devs)
      → scan config machine prev w
        ≡ publish config machine devs
            (mount_all config machine found.unmounted (formatted config machine w))
  unfolding scan
  found-publish prev w devs found = rw found.scanned (rw found.remounted)

  -- A scan that succeeds has found some list of devices mounted.
  pub ok-HasFound :
      (prev : List String) (w : W)
      → (scan config machine prev w).0 ≡ ok tt
      → (devs : List DeviceInfo) × HasFound w devs
  unfolding scan
  ok-HasFound prev w h =
      elim (Result-cases (
        scan_unmounted (scan_config config machine) (lsblk config machine)
          (formatted config machine w))) [
            | inr (e, failed) ↦ absurd (IsErr-ne_ok _ (rw failed tt) h)
            | inl (unmounted, scanned) ↦
                elim (Result-cases (
                  scan_mounted (scan_config config machine) (lsblk config machine)
                    (mount_infos config machine) (statfs config machine)
                    (mount_all config machine unmounted (formatted config machine w)))) [
                      | inr (e, failed) ↦
                          absurd (IsErr-ne_ok _ (rw (scanned, after_scan) (rw failed tt)) h)
                      | inl (devs, remounted) ↦ (
                        devs,
                        record { unmounted = unmounted; scanned = scanned; remounted = remounted },
                      )
                    ]
          ]
