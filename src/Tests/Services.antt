-- ===== src/Tests/Services.antt =====
-- The initializer, the scan of unmounted devices and the mounter, over the log of the devices that were
-- formatted or mounted.
use kubernetes_external_prov.Base.{
  ==-false, Any, Bool, List, String, [], arith, contains, false, if◌then◌else◌, inl, inr, ne_of_==,
  not, ok, ok-injective, ok≢err, refl, sym, true, ℕ, ◌+◌, ◌==◌, ◌∙◌, ◌∷◌, ◌≡◌,
}
use kubernetes_external_prov.Exec.{pure}
use kubernetes_external_prov.Fsutils.Device.{pos, to_uint64}
use kubernetes_external_prov.Fsutils.Lsblk.{get_block_device, get_block_devices}
use kubernetes_external_prov.Fsutils.RootDisk.{find_root_disk_descendants}
use kubernetes_external_prov.Models.{DeviceInfo, default_label}
use kubernetes_external_prov.Providers.{FormatProvider, Lsblk, real_lsblk}
use kubernetes_external_prov.Providers.Statfs.{StatfsT, real_statfs}
use kubernetes_external_prov.Services.Initializer.{InitConfig, format_targets, init, is_target}
use kubernetes_external_prov.Services.Initializer.Formats.{init_formats}
use kubernetes_external_prov.Services.Initializer.Raw.{HasRaw, IsRaw, is_target_iff}
use kubernetes_external_prov.Services.Mounter.{DeviceMounter, check_not_root_disk, mount, unmount}
use kubernetes_external_prov.Services.Mounter.Again.{unmount-again}
use kubernetes_external_prov.Services.Mounter.Allowed.{IsAllowed, mount_allowed}
use kubernetes_external_prov.Services.Mounter.Complete.{mount_complete}
use kubernetes_external_prov.Services.Mounter.RootGuard.{check_not_root_disk_iff}
use kubernetes_external_prov.Services.Scanner.{mounted_info}
use kubernetes_external_prov.Services.Scanner.Space.{mounted_info_space}
use kubernetes_external_prov.Tests.Samples.{all_devices, disk_mount, root_mount, sdb, sdc}

abbrev Log : Type 0
Log = List String

abbrev log_lsblk : Lsblk Log
log_lsblk = real_lsblk (λ w. ok all_devices)

abbrev log_format : FormatProvider Log
log_format = record { format = λ dev opts w. (ok tt, dev ∷ w) }

abbrev wet : InitConfig
wet = record { fs_type = "ext4"; label = default_label; min_size = 52428800; dry_run = false }

sdb-IsRaw : IsRaw wet sdb
sdb-IsRaw = (is_target_iff wet sdb).0 (unfold is_target to_uint64 in refl)

abbrev Formatted : String → Log → Type 0
Formatted dev w = Any (λ x. x ≡ dev) w

init_formats_example : Formatted "/dev/sdb" (init wet log_format log_lsblk []).1
unfolding get_block_devices to_uint64
init_formats_example =
    init_formats wet log_format Formatted (λ dev v h. inl refl) (λ dev x v differs h p. inr p)
      log_lsblk [] all_devices "/dev/sdb" refl refl (unfold init format_targets in refl)
      (inr (inl (sdb-IsRaw, refl)))

-- How often the log has the device.
abbrev times : Log → String → ℕ
times [] x = 0
times (y ∷ w) x = let rest = times w x in if y == x then 1 + rest else rest

sdc-kept : ¬ (HasRaw wet all_devices "/dev/sdc")
sdc-kept h = elim h [
  | inl raw ↦ ne_of_== "/dev/sda" "/dev/sdc" refl raw.1
  | inr (inl raw) ↦ ne_of_== "/dev/sdb" "/dev/sdc" refl raw.1
  | inr (inr (inl raw)) ↦ ne_of_== "ext4" "" refl raw.0.no_fstype
  | inr (inr (inr no')) ↦ no'
]

-- A mounter of the device of that name, on a node whose root is `/dev/sda1`.
abbrev log_mounter : String → DeviceMounter Log
log_mounter path = record {
  config = record {
    uuid = "u-1";
    mount_point = "/mnt/cubbit";
    fs_type = "ext4";
    options = [];
    managed_only = true;
    require_label = default_label;
  };
  resolver = record { resolve_uuid = λ uuid w. ok path };
  mounter = record {
    mount = λ source target fs_type opts w. (ok tt, source ∷ w);
    unmount = λ target. pure tt;
    is_likely_not_mount_point = λ target w. ok true;
  };
  lsblk = log_lsblk;
  mounts = record { get_mounts = λ w. ok (root_mount ∷ []) };
  files = record {
    mkdir_all = λ path mode. pure tt;
    is_missing = λ path w. false;
    remove = λ path w. w;
  };
}

mounts_the_disk : mount (log_mounter "/dev/sdc") [] ≡ (ok tt, "/dev/sdc" ∷ [])
unfolding mount get_block_devices contains find_root_disk_descendants get_block_device
mounts_the_disk = refl

-- No device on the root disk is in the log.
mount_allowed_example : times (mount (log_mounter "/dev/sdc") []).1 "/dev/sda1" ≡ 0
mount_allowed_example =
    mount_allowed (log_mounter "/dev/sdc") (λ w. times w "/dev/sda1" ≡ 0) (λ v p. p) []
      (λ path fs_type v allowed p.
        rw
          (==-false path "/dev/sda1"
            (λ e. ne_of_== "/dev/sdc" "/dev/sda1" refl (ok-injective allowed.resolved ∙ e)))
          p)
      refl

sdc-passes : check_not_root_disk (log_mounter "/dev/sdc") "/dev/sdc" [] ≡ ok tt
unfolding check_not_root_disk get_block_devices contains find_root_disk_descendants
sdc-passes = refl

sdc-IsAllowed : IsAllowed (log_mounter "/dev/sdc") [] "/dev/sdc" "ext4"
sdc-IsAllowed = record {
  resolved = refl;
  off_root = λ on.
      ok≢err (
        sym sdc-passes ∙ ((check_not_root_disk_iff (log_mounter "/dev/sdc") "/dev/sdc" []).1 on).1);
  labelled = λ managed. (sdc, unfold get_block_device in refl, refl);
  typed = inl (ne_of_== "ext4" "" refl, refl);
}

mount_complete_example : mount (log_mounter "/dev/sdc") [] ≡ (ok tt, "/dev/sdc" ∷ [])
mount_complete_example =
    mount_complete (log_mounter "/dev/sdc") [] [] "/dev/sdc" "ext4" true sdc-IsAllowed refl refl

-- A mounter whose state says whether its target is mounted.
abbrev switch : DeviceMounter Bool
switch = record {
  config = record {
    uuid = "u-1";
    mount_point = "/mnt/cubbit";
    fs_type = "ext4";
    options = [];
    managed_only = false;
    require_label = "";
  };
  resolver = record { resolve_uuid = λ uuid w. ok "/dev/sdc" };
  mounter = record {
    mount = λ source target fs_type opts w. (ok tt, true);
    unmount = λ target w. (ok tt, false);
    is_likely_not_mount_point = λ target w. ok (not w);
  };
  lsblk = real_lsblk (λ w. ok all_devices);
  mounts = record { get_mounts = λ w. ok [] };
  files = record {
    mkdir_all = λ path mode. pure tt;
    is_missing = λ path w. false;
    remove = λ path w. w;
  };
}

unmount-again_example : unmount switch (unmount switch true).1 ≡ (ok tt, (unmount switch true).1)
unmount-again_example = unmount-again switch (λ w h. inr refl) true (unfold unmount in refl)

-- A filesystem of 25600 blocks of 4096 bytes, a quarter of them free.
abbrev quarter_free : StatfsT
quarter_free = record { blocks = 25600; bfree = 6400; bsize = pos 4096 }

abbrev quarter_info : DeviceInfo
quarter_info =
    mounted_info (record { dir_prefix = "/mnt/cubbit"; fs_types = "ext4" ∷ []; min_size = 0 })
      log_lsblk (record { get_mounts = λ w. ok (disk_mount ∷ []) })
      (real_statfs (λ path w. ok quarter_free)) [] disk_mount

mounted_info_space_example :
    (quarter_info.total_size ≡ 104857600)
    × (quarter_info.free_space ≡ 26214400)
    × (quarter_info.used_space + quarter_info.free_space ≡ quarter_info.total_size)
mounted_info_space_example =
    mounted_info_space (record { dir_prefix = "/mnt/cubbit"; fs_types = "ext4" ∷ []; min_size = 0 })
      log_lsblk (record { get_mounts = λ w. ok (disk_mount ∷ []) }) (λ path w. ok quarter_free) []
      disk_mount quarter_free 4096 refl refl (omega arith) (omega arith) (omega arith)
