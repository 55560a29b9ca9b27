-- ===== src/NodeScanner/Content.antt =====
-- What a scan does to the content of the disks.
use kubernetes_external_prov.Base.{
  Error, List, Result, Result-cases, String, ap, err, inl, inr, ok, refl, suc, zero, ℕ, ◌∙◌, ◌≡◌,
  ◌≢◌,
}
use kubernetes_external_prov.Exec.{Exec}
use kubernetes_external_prov.Exec.Keeps.{Keeps}
use kubernetes_external_prov.Fsutils.Device.{BlockDevice}
use kubernetes_external_prov.Fsutils.Lsblk.{get_block_devices}
use kubernetes_external_prov.Models.{DeviceInfo}
use kubernetes_external_prov.NodeScanner.{
  Machine, NodePatch, ScannerConfig, after_mounts, after_scan, format, init_config, lsblk,
  mount_all, publish, run, scan,
}
use kubernetes_external_prov.NodeScanner.Mounts.{mount_all-Keeps}
use kubernetes_external_prov.Providers.{FormatOptions}
use kubernetes_external_prov.Providers.Format.{mkfs_args}
use kubernetes_external_prov.Providers.Format.Laws.{format-Keeps}
use kubernetes_external_prov.Services.Initializer.{init}
use kubernetes_external_prov.Services.Initializer.Keeping.{init_content}
use kubernetes_external_prov.Services.Initializer.Raw.{HasRaw}

module _ {W C : Type 0} (config : ScannerConfig) (machine : Machine W)
    (content : W → String → C) where
  -- mkfs writes to the device that it is given and to no other; syncing, waiting for udev, making a
  -- directory, mounting and patching the node change no content; a retry makes no other calls than the
  -- one that it is given.
  pub record ContentLaws : Type 1 where
    pub run_apart :
        (c dev : String) (opts : FormatOptions) (w : W) (x : String)
        → dev ≢ x
        → content (machine.mkfs.run c (mkfs_args dev opts) w).1 x ≡ content w x
    pub sync_quiet : (w : W) (x : String) → content (machine.mkfs.sync w) x ≡ content w x
    pub settle_quiet : (w : W) (x : String) → content (machine.mkfs.settle w) x ≡ content w x
    pub mkdir_quiet :
        (path : String) (mode : ℕ) (w : W) (x : String)
        → content (machine.files.mkdir_all path mode w).1 x ≡ content w x
    pub mount_quiet :
        (source target fs_type : String) (opts : List String) (w : W) (x : String)
        → content (machine.mount_utils.mount source target fs_type opts w).1 x ≡ content w x
    pub patch_quiet :
        (node : String) (p : NodePatch) (w : W) (x : String)
        → content (machine.patch_node node p w).1 x ≡ content w x
    pub retried :
        (P : W → Type 0) (m : Exec W (Unit {0})) → Keeps P m → Keeps P (machine.retry_on_conflict m)

  module _ (laws : ContentLaws) (x : String) where
    format_apart :
        (dev : String) (opts : FormatOptions) (w : W)
        → dev ≢ x
        → content ((format config machine).format dev opts w).1 x ≡ content w x
    format_apart dev opts w apart =
        format-Keeps machine.mkfs (λ v. content v x ≡ content w x) (λ v p. laws.sync_quiet v x ∙ p)
          (λ v p. laws.settle_quiet v x ∙ p) dev opts
          (λ c v p. laws.run_apart c dev opts v x apart ∙ p) w refl

    module _ (c : C) where
      abbrev Has : W → Type 0
      Has w = content w x ≡ c

      publish-Has :
          (devs : List DeviceInfo) → (w : W) → Has w → Has (publish config machine devs w).2
      unfolding publish
      publish-Has devs = laws.retried Has _ (λ w p. laws.patch_quiet config.node_name _ w x ∙ p)

      remounted :
          (prev : List String) (w : W) (r : Result (List DeviceInfo))
          → Has w
          → Has (after_mounts config machine prev w r).2
      remounted prev w (err e) p = p
      remounted prev w (ok devs) p = publish-Has devs w p

      scanned :
          (prev : List String) (w : W) (r : Result (List DeviceInfo))
          → Has w
          → Has (after_scan config machine prev w r).2
      scanned prev w (err e) p = p
      scanned prev w (ok devs) p = remounted prev (mount_all config machine devs w) _ (
          mount_all-Keeps config machine Has (λ path mode v q. laws.mkdir_quiet path mode v x ∙ q)
            (λ source target fs_type opts v q. laws.mount_quiet source target fs_type opts v x ∙ q)
            devs w p)

    -- If mkfs writes only to the device that it is given, and nothing else that the scan calls
    -- writes to a device, then a scan leaves the content of every device alone that is not a raw
    -- top-level disk of lsblk's list at its start, whatever fails later: disks with partitions,
    -- with a filesystem or a UUID, mounted ones, small ones, and whatever lies on another disk.
    pub scan_content :
        (prev : List String) (w : W) (ds : List BlockDevice)
        → machine.output w ≡ ok ds
        → ¬ (HasRaw (init_config config machine) ds x)
        → content (scan config machine prev w).2 x ≡ content w x
    unfolding scan get_block_devices
    scan_content prev w ds listed safe = scanned (content w x) prev _ _ (
        init_content (init_config config machine) (format config machine) content
          (lsblk config machine) w ds x (λ dev v apart. format_apart dev _ v apart) listed safe)

    -- Where lsblk gives no list, nothing is formatted.
    init_unlisted :
        (w : W) (e : Error)
        → machine.output w ≡ err e
        → (init (init_config config machine) (format config machine) (lsblk config machine) w).1 ≡ w
    unfolding init get_block_devices
    init_unlisted w e failed = rw (failed, init)

    scan_content-unlisted :
        (prev : List String) (w : W) (e : Error)
        → machine.output w ≡ err e
        → content (scan config machine prev w).2 x ≡ content w x
    unfolding scan
    scan_content-unlisted prev w e failed =
        scanned (content w x) prev _ _ (ap (λ v. content v x) (init_unlisted w e failed))

    -- As long as the device has this content, lsblk does not list it as raw.
    module _ (c : C)
        (kept : (v : W) (ds : List BlockDevice)
          → content v x ≡ c
          → machine.output v ≡ ok ds
          → ¬ (HasRaw (init_config config machine) ds x)) where
      scan_kept_content :
          (prev : List String) (w : W)
          → content w x ≡ c
          → content (scan config machine prev w).2 x ≡ c
      scan_kept_content prev w p = elim (Result-cases (machine.output w)) [
        | inl (ds, listed) ↦ scan_content prev w ds listed (kept w ds p listed) ∙ p
        | inr (e, failed) ↦ scan_content-unlisted prev w e failed ∙ p
      ]

      -- If mkfs writes only to the device that it is given, and nothing else that the scan calls
      -- writes to a device: a device with a content with which lsblk, whenever it gives its list,
      -- does not report it as a raw top-level disk, still has that content after any number of
      -- scans of `Run`, whatever fails.
      pub run_content :
          (ticks : ℕ) (prev : List String) (w : W)
          → content w x ≡ c
          → content (run config machine ticks prev w).1 x ≡ c
      unfolding run
      run_content zero prev w p = scan_kept_content prev w p
      run_content (suc ticks) prev w p =
          run_content ticks (scan config machine prev w).1 (scan config machine prev w).2
            (scan_kept_content prev w p)
