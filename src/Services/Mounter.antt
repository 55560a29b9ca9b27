-- ===== src/Services/Mounter.antt =====
-- cmd-drivers/services/mounter.go. `os.MkdirAll`, `os.Stat` with `os.IsNotExist`, and `os.Remove` are
-- the operations of `Files`.
pub mod RootGuard
pub mod Allowed
pub mod Complete
pub mod Again
use kubernetes_external_prov.Base.{
  Bool, Error, List, Option, Result, Result_map, String, [], contains, err, errorf, false,
  if◌then◌else◌, none, not, ok, some, true, wrap, ℕ, ◌&&◌, ◌==◌, ◌||◌, ◌∷◌,
}
use kubernetes_external_prov.Exec.{Exec, gets, lift, pure, wrapped, ◌>>=◌, ◌>>◌}
use kubernetes_external_prov.Fsutils.Device.{BlockDevice, properties}
use kubernetes_external_prov.Fsutils.RootDisk.{find_root_disk_descendants}
use kubernetes_external_prov.Models.{MountEntry}
use kubernetes_external_prov.Providers.{DeviceResolver, Lsblk, MountInfoProvider, MountProvider}
use kubernetes_external_prov.Services.Interfaces.{DeviceMounts}
use kubernetes_external_prov.Services.Paths.{path_join}

pub record MountConfig : Type 0 where
  pub uuid : String
  pub mount_point : String
  pub fs_type : String
  pub options : List String
  pub managed_only : Bool
  pub require_label : String

pub record Files (W : Type 0) : Type 0 where
  pub mkdir_all : String → ℕ → Exec W (Unit {0})
  pub is_missing : String → W → Bool
  pub remove : String → W → W

-- The loop over the mounts in `checkNotRootDisk`: the source of the first entry at "/", or "".
unfoldable pub root_source : List MountEntry → String
root_source [] = ""
root_source (e ∷ es) = let rest = root_source es in if e.mountpoint == "/" then e.source else rest

abbrev pub nil_dereference : Error
nil_dereference = errorf "invalid memory address or nil pointer dereference" []

-- The struct `deviceMounter`; `mounter` is its field `mount`.
pub record DeviceMounter (W : Type 0) : Type 0 where
  pub config : MountConfig
  pub resolver : DeviceResolver W
  pub mounter : MountProvider W
  pub lsblk : Lsblk W
  pub mounts : MountInfoProvider W
  pub files : Files W

module _ {W : Type 0} (m : DeviceMounter W) where
  abbrev pub target : String
  target = path_join m.config.mount_point m.config.uuid

  abbrev pub on_root_disk : String → String → Error
  on_root_disk path root =
      errorf "refusing to mount %q: device is on the root disk (%s)" (path ∷ root ∷ [])

  abbrev check_devices : String → String → Result (List BlockDevice) → Result (Unit {0})
  check_devices path root (err e) = ok tt
  check_devices path root (ok devices) =
      if contains (find_root_disk_descendants devices root) path
      then err (on_root_disk path root)
      else ok tt

  abbrev check_entries : String → W → Result (List MountEntry) → Result (Unit {0})
  check_entries path w (err e) = ok tt
  check_entries path w (ok entries) =
      let root = root_source entries in
      if root == "" then ok tt else check_devices path root (m.lsblk.get_block_devices none w)

  unfoldable pub check_not_root_disk : String → W → Result (Unit {0})
  unfolding root_source
  check_not_root_disk path w = check_entries path w (m.mounts.get_mounts w)

  -- The device's description is read only if it is needed.
  unfoldable pub read_info : String → W → Result (Option BlockDevice)
  read_info path w =
      if m.config.managed_only || m.config.fs_type == ""
      then wrap "read device info for %q: %w" (path ∷ [])
          (Result_map some (m.lsblk.get_block_device path w))
      else ok none

  unfoldable pub check_label : String → Option BlockDevice → Result (Unit {0})
  check_label path none = if m.config.managed_only then err nil_dereference else ok tt
  check_label path (some d) =
      if m.config.managed_only && not ((properties d).label == m.config.require_label)
      then err (
          errorf "refusing to mount %q: label %q does not match required %q"
            (path ∷ (properties d).label ∷ m.config.require_label ∷ []))
      else ok tt

  abbrev pub no_filesystem : String → Error
  no_filesystem path =
      errorf "cannot determine filesystem type for %q: device has no filesystem" (path ∷ [])

  unfoldable pub choose_fs_type : String → Option BlockDevice → Result String
  choose_fs_type path none =
      if m.config.fs_type == "" then err nil_dereference else ok m.config.fs_type
  choose_fs_type path (some d) =
      if m.config.fs_type == ""
      then (if (properties d).fstype == ""
          then err (no_filesystem path)
          else ok (properties d).fstype)
      else ok m.config.fs_type

  -- From the test of the mount point on.
  unfoldable pub mount_at : String → Option BlockDevice → Bool → Exec W (Unit {0})
  unfolding choose_fs_type
  mount_at path info false = pure tt
  mount_at path info true = do
    fs_type ← lift (choose_fs_type path info)
    m.mounter.mount path target fs_type m.config.options

  -- From the making of the target directory on.
  unfoldable pub mount_dir : String → Option BlockDevice → Exec W (Unit {0})
  unfolding mount_at
  mount_dir path info = do
    wrapped "create mount target %q: %w" (target ∷ []) (m.files.mkdir_all target 0o750)
    not_mounted ←
        wrapped "check mount point %q: %w" (target ∷ [])
          (gets (m.mounter.is_likely_not_mount_point target))
    mount_at path info not_mounted

  -- `Mount`
  unfoldable pub mount : Exec W (Unit {0})
  unfolding check_not_root_disk read_info check_label mount_dir
  mount = do
    path ←
        wrapped "resolve UUID %q: %w" (m.config.uuid ∷ [])
          (gets (m.resolver.resolve_uuid m.config.uuid))
    gets (check_not_root_disk path)
    info ← gets (read_info path)
    lift (check_label path info)
    mount_dir path info

  unfoldable pub unmount_at : Bool → Exec W (Unit {0})
  unmount_at true = pure tt
  unmount_at false = do m.mounter.unmount target; λ w. (ok tt, m.files.remove target w)

  -- `Unmount`; what `os.Remove` answers is only logged.
  unfoldable pub unmount : Exec W (Unit {0})
  unfolding unmount_at
  unmount w =
      if m.files.is_missing target w
      then (ok tt, w)
      else (do
        not_mounted ←
            wrapped "check mount point %q: %w" (target ∷ [])
              (gets (m.mounter.is_likely_not_mount_point target))
        unmount_at not_mounted)
          w

-- The methods of `deviceMounter`.
abbrev pub as_device_mounts : {W : Type 0} → DeviceMounter W → DeviceMounts W
as_device_mounts m = record { mount = mount m; unmount = unmount m }

-- `NewDeviceMounter`
abbrev pub new_device_mounter :
    {W : Type 0} (config : MountConfig) (resolver : DeviceResolver W) (mounter : MountProvider W)
    (lsblk : Lsblk W) (mounts : MountInfoProvider W) (files : Files W)
    → DeviceMounts W
new_device_mounter config resolver mounter lsblk mounts files = as_device_mounts (record {
  config = config;
  resolver = resolver;
  mounter = mounter;
  lsblk = lsblk;
  mounts = mounts;
  files = files;
})
