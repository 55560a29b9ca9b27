-- ===== src/Tests/Delivery.antt =====
-- The way of a disk through the three parts, on a node whose state is what is mounted and what the API
-- server holds of it.
use kubernetes_external_prov.Base.{
  Bool-cases, Dict, List, Option, Result, Result_map, String, [], ap, contains, err, external,
  false, filter, if◌then◌else◌, inl, inr, lookup, ne_of_==, none, none≢some, not, ok, ok≢err, refl,
  some, some-injective, subst⁻¹, sym, true, ◌==◌, ◌∙◌, ◌∷◌, ◌≡◌,
}
use kubernetes_external_prov.Exec.{pure}
use kubernetes_external_prov.Flow.DiskMapJson.{decode_disk_map, encode_disk_map}
use kubernetes_external_prov.Flow.DiskMapJson.GoMap.{as_map, decode_disk_map-as_map}
use kubernetes_external_prov.Flow.Found.{HasFound}
use kubernetes_external_prov.Fsutils.Device.{flatten_devices, pos, to_uint64}
use kubernetes_external_prov.Fsutils.Filters.{all_of, fs_type_filter, type_filter}
use kubernetes_external_prov.Fsutils.Lsblk.{
  filter_device_recursive, get_block_device, get_block_devices, uuid_or_part_uuid,
}
use kubernetes_external_prov.Fsutils.RootDisk.{find_root_disk_descendants}
use kubernetes_external_prov.Models.{DeviceInfo, MountEntry, mounted, pvc_annotation_uuid}
use kubernetes_external_prov.NodeScanner.{
  Machine, NodePatch, after_mounts, disk_map_from, lsblk, mount_all, mount_infos, mounter_for, scan,
  scan_config,
}
use kubernetes_external_prov.NodeScanner.Mounted.{IsDue, formatted, mounted_at, scan_mounts}
use kubernetes_external_prov.Providers.K8sMount.{real_mount_provider}
use kubernetes_external_prov.Providers.MountInfo.{
  MountFilter, get_all_mounts, get_mounts, size_filter,
}
use kubernetes_external_prov.Providers.Resolver.{find_uuid, resolve_uuid}
use kubernetes_external_prov.Provisioner.{Node}
use kubernetes_external_prov.Services.Initializer.{format_targets, init, init_targets, is_target}
use kubernetes_external_prov.Services.Mounter.{
  DeviceMounter, check_label, check_not_root_disk, choose_fs_type, mount, mount_at, mount_dir,
  read_info, root_source,
}
use kubernetes_external_prov.Services.Mounter.RootGuard.{check_not_root_disk_iff}
use kubernetes_external_prov.Services.Paths.{path_join}
use kubernetes_external_prov.Services.Scanner.{
  mountpoint_empty, scan_mounted, scan_unmounted, unmounted_info, unmounted_infos,
}
use kubernetes_external_prov.Tests.NodeScanner.{config}
use kubernetes_external_prov.Tests.Samples.{all_devices, root_mount, sdb, sdc}
use kubernetes_external_prov.Webhook.{Cluster}

record Home : Type 0 where
  mounts : List MountEntry
  node : Node

abbrev pub set_labels : Dict (Option String) → Dict String
set_labels [] = []
set_labels ((k, none) ∷ m) = set_labels m
set_labels ((k, some v) ∷ m) = (k, v) ∷ set_labels m

abbrev pub renewed : NodePatch → Node
renewed p = record { name = "n1"; labels = set_labels p.labels; annotations = p.annotations }

pub set_labels-lookup :
    (m : Dict (Option String)) (k v : String)
    → lookup k m ≡ some (some v)
    → lookup k (set_labels m) ≡ some v
unfolding lookup
set_labels-lookup [] k v h = cc
set_labels-lookup ((j, none) ∷ m) k v h = elim (Bool-cases (j == k)) [
  | inl same ↦
      absurd
        (none≢some (some-injective (sym (ap (λ b. if b then some none else lookup k m) same) ∙ h)))
  | inr differs ↦
      set_labels-lookup m k v (sym (ap (λ b. if b then some none else lookup k m) differs) ∙ h)
]
set_labels-lookup ((j, some w) ∷ m) k v h = elim (Bool-cases (j == k)) [
  | inl same ↦
      rw same (some-injective (sym (ap (λ b. if b then some (some w) else lookup k m) same) ∙ h))
  | inr differs ↦ rw differs (
      set_labels-lookup m k v (sym (ap (λ b. if b then some (some w) else lookup k m) differs) ∙ h))
]

abbrev pub kept_mounts : Option MountFilter → List MountEntry → List MountEntry
kept_mounts none es = es
kept_mounts (some f) es = filter (λ e. not (f e).skip) es

abbrev home : Machine Home
home = record {
  output = λ w. ok all_devices;
  mkfs = record { run = λ c args. pure tt; sync = λ w. w; settle = λ w. w };
  moby = record {
    get_mounts = λ f w. ok (kept_mounts f w.mounts);
    prefix_filter = λ p info. record { skip = info.mountpoint == "/"; stop = false };
    fs_type_filter = λ ts info. record { skip = not (contains ts info.fs_type); stop = false };
  };
  statfs_call = λ path w. ok (record { blocks = 25600; bfree = 25600; bsize = pos 4096 });
  eval_symlinks = λ path w. err (external "no such file or directory");
  mount_utils = record {
    mount = λ source target fs_type opts w. (
      ok tt,
      record {
        mounts = record { source = source; mountpoint = target; fs_type = fs_type } ∷ w.mounts;
        node = w.node;
      },
    );
    unmount = λ target. pure tt;
    is_likely_not_mount_point = λ target w. ok true;
  };
  files = record {
    mkdir_all = λ path mode. pure tt;
    is_missing = λ path w. false;
    remove = λ path w. w;
  };
  patch_node = λ name p w. (ok tt, record { mounts = w.mounts; node = renewed p });
  retry_on_conflict = λ m. m;
  sort_devices = λ devices. devices;
  marshal = λ m. "{}";
}

abbrev read_node : String → Home → Result Node
read_node name w = ok w.node

abbrev pub with_label : String → String → Node → List String
with_label k v node = elim (lookup k node.labels) [
  | none ↦ []
  | some x ↦ if x == v then "n1" ∷ [] else []
]

abbrev listing : Home → Cluster
listing w = record {
  cached_pvc = λ namespace name. err (external "not found");
  live_pvc = λ namespace name. ok ((pvc_annotation_uuid, "u-1") ∷ []);
  list_nodes = λ k v. ok (with_label k v w.node);
}

-- At the start, only the root disk is mounted, and the node has no labels.
abbrev fresh : Home
fresh = record {
  mounts = root_mount ∷ [];
  node = record { name = "n1"; labels = []; annotations = [] };
}

abbrev data_disk : DeviceInfo
data_disk = record {
  uuid = "u-1";
  device = "/dev/sdc";
  mount_path = "/mnt/cubbit/u-1";
  fs_type = "ext4";
  status = mounted;
  total_size = 104857600;
  free_space = 104857600;
  used_space = 0;
}

fresh-HasFound : HasFound config home fresh (data_disk ∷ [])
unfolding scan_unmounted unmounted_infos get_block_devices filter_device_recursive contains init
    init_targets format_targets is_target to_uint64 mount_all mount check_not_root_disk root_source
    find_root_disk_descendants read_info check_label mount_dir mount_at choose_fs_type
    get_block_device get_all_mounts scan_mounted get_mounts size_filter filter path_join find_uuid
    flatten_devices all_of type_filter fs_type_filter mountpoint_empty resolve_uuid
    kubernetes_external_prov.Providers.Format.format
    kubernetes_external_prov.Providers.K8sMount.real_mount_provider
    kubernetes_external_prov.Providers.Statfs.statfs kubernetes_external_prov.Fsutils.Lsblk.get_uuid
fresh-HasFound = record {
  unmounted = unmounted_info sdb ∷ unmounted_info sdc ∷ [];
  scanned = refl;
  remounted = refl;
}

decode_disk_map-as_map_example :
    Result_map as_map
      (decode_disk_map (encode_disk_map (λ j k. true) (disk_map_from [] (data_disk ∷ []))))
    ≡ ok (as_map (disk_map_from [] (data_disk ∷ [])))
decode_disk_map-as_map_example = decode_disk_map-as_map (λ j k. true) (data_disk ∷ []) (refl, tt)

abbrev sdc_mounter : DeviceMounter Home
sdc_mounter = mounter_for config home "u-1"

sdc_off_root : check_not_root_disk sdc_mounter "/dev/sdc" fresh ≡ ok tt
unfolding check_not_root_disk root_source get_all_mounts get_block_devices
    find_root_disk_descendants contains
sdc_off_root = refl

sdc-IsDue : IsDue config home (unmounted_info sdc) "/dev/sdc" "ext4" fresh fresh
unfolding unmounted_info uuid_or_part_uuid
sdc-IsDue = record {
  known = refl;
  allowed = record {
    resolved = unfold resolve_uuid find_uuid get_block_devices flatten_devices in refl;
    off_root = λ on.
        ok≢err (sym sdc_off_root ∙ ((check_not_root_disk_iff sdc_mounter "/dev/sdc" fresh).1 on).1);
    labelled = λ managed. (sdc, unfold get_block_device in refl, refl);
    typed = inl (ne_of_== "ext4" "" refl, refl);
  };
  made = refl;
  free = unfold real_mount_provider in refl;
}

sdb_passed : mount_all config home (unmounted_info sdb ∷ []) (formatted config home fresh) ≡ fresh
unfolding mount_all unmounted_info uuid_or_part_uuid init get_block_devices init_targets
    format_targets is_target to_uint64 kubernetes_external_prov.Providers.Format.format
sdb_passed = refl

scan_mounts_example :
    scan config home [] fresh
    ≡ after_mounts config home []
        (mounted_at config home (unmounted_info sdc) "/dev/sdc" "ext4" fresh)
        (scan_mounted
          (scan_config config home)
          (lsblk config home)
          (mount_infos config home)
          (kubernetes_external_prov.NodeScanner.statfs config home)
          (mounted_at config home (unmounted_info sdc) "/dev/sdc" "ext4" fresh))
unfolding mount_all fresh-HasFound
scan_mounts_example =
    scan_mounts config home [] fresh fresh (unmounted_info sdb ∷ []) [] (unmounted_info sdc)
      "/dev/sdc" "ext4" fresh-HasFound.scanned
      (subst⁻¹ (λ w. IsDue config home (unmounted_info sdc) "/dev/sdc" "ext4" w fresh) sdb_passed
        sdc-IsDue)
