-- ===== src/NodeScanner/Mounts.antt =====
-- What mounting keeps, in the loop of `scan` over the unmounted devices.
use kubernetes_external_prov.Base.{Bool, List, String, [], false, if◌then◌else◌, true, ℕ, ◌∷◌}
use kubernetes_external_prov.Exec.Keeps.{Keeps}
use kubernetes_external_prov.Models.{DeviceInfo}
use kubernetes_external_prov.NodeScanner.{Machine, ScannerConfig, mount_all, mounter_for, no_uuid}
use kubernetes_external_prov.Providers.K8sMount.{real_mount_provider}
use kubernetes_external_prov.Services.Mounter.{mount}
use kubernetes_external_prov.Services.Mounter.Allowed.{mount_allowed}

module _ {W : Type 0} (config : ScannerConfig) (machine : Machine W) (P : W → Type 0)
    (mkdir : (path : String) (mode : ℕ) → Keeps P (machine.files.mkdir_all path mode))
    (mounting : (source target fs_type : String) (opts : List String)
      → Keeps P (machine.mount_utils.mount source target fs_type opts)) where
  mount-Keeps : (uuid : String) → Keeps P (mount (mounter_for config machine uuid))
  unfolding real_mount_provider
  mount-Keeps uuid w =
      mount_allowed (mounter_for config machine uuid) P (mkdir _ _) w
        (λ path fs_type v _. mounting path _ fs_type _ v)

  pub mount_all-Keeps : (devs : List DeviceInfo) (w : W) → P w → P (mount_all config machine devs w)
  unfolding mount_all
  mount_all-Keeps [] w p = p
  mount_all-Keeps (dev ∷ devs) w p = mount_all-Keeps devs _ (step (no_uuid dev))
    where
      step : (b : Bool) → P (if b then w else (mount (mounter_for config machine dev.uuid) w).1)
      step true = p
      step false = mount-Keeps dev.uuid w p
