-- ===== src/Tests/NodeScanner.antt =====
-- The node scanner on a machine whose state is the labels of its node.
use kubernetes_external_prov.Services.Mounter
use kubernetes_external_prov.Base.{
  ==-false, List, Option, Option-cases, String, [], arith, contains, err, external, false,
  if◌then◌else◌, inl, inr, join, lookup, ne_of_==, none, ok, ok-injective, refl, some, subst, suc,
  true, ℕ, ◌==◌, ◌↔◌, ◌∷◌, ◌≡◌,
}
use kubernetes_external_prov.Exec.{pure}
use kubernetes_external_prov.Fsutils.Device.{pos}
use kubernetes_external_prov.Models.{default_fs_type, default_min_size, default_mount_base}
use kubernetes_external_prov.NodeScanner.{
  Machine, ScannerConfig, init_config, mounter_for, patch_labels, run,
}
use kubernetes_external_prov.NodeScanner.Content.{ContentLaws, run_content}
use kubernetes_external_prov.NodeScanner.Labels.{patch_labels-lookup}
use kubernetes_external_prov.NodeScanner.Stale.{LabelLaws, run_keeps_label}
use kubernetes_external_prov.NodeScanner.Targets.{target-apart}
use kubernetes_external_prov.Providers.{FormatOptions}
use kubernetes_external_prov.Providers.Format.{mkfs_args}
use kubernetes_external_prov.Services.Initializer.Raw.{HasRaw}
use kubernetes_external_prov.Services.Paths.Plain.{IsPlain, slash_free}
use kubernetes_external_prov.Tests.Samples.{all_devices, sda}

abbrev Labels : Type 0
Labels = String → Option String

abbrev label_of : Labels → String → Option String
label_of w k = w k

abbrev patched_value : Option (Option String) → Option String → Option String
patched_value none o = o
patched_value (some v) o = v

-- Commands succeed, nothing is mounted, and each patch is applied.
abbrev machine : Machine Labels
machine = record {
  output = λ w. ok (sda ∷ []);
  mkfs = record { run = λ c args. pure tt; sync = λ w. w; settle = λ w. w };
  moby = record {
    get_mounts = λ f w. ok [];
    prefix_filter = λ p info. record { skip = false; stop = false };
    fs_type_filter = λ ts info. record { skip = false; stop = false };
  };
  statfs_call = λ path w. err (external "no such file or directory");
  eval_symlinks = λ path w. err (external "no such file or directory");
  mount_utils = record {
    mount = λ source target fs_type opts. pure tt;
    unmount = λ target. pure tt;
    is_likely_not_mount_point = λ target w. ok true;
  };
  files = record {
    mkdir_all = λ path mode. pure tt;
    is_missing = λ path w. false;
    remove = λ path w. w;
  };
  patch_node = λ node p w. (ok tt, λ k. patched_value (lookup k p.labels) (w k));
  retry_on_conflict = λ m. m;
  sort_devices = λ devices. devices;
  marshal = λ m. "";
}

abbrev pub config : ScannerConfig
config = record {
  node_name = "n1";
  scan_interval = pos 60000000000;
  mount_base = default_mount_base;
  fs_type = default_fs_type;
  min_size = default_min_size;
}

machine-LabelLaws : LabelLaws config machine label_of
machine-LabelLaws = record {
  run_quiet = λ c args w k. refl;
  sync_quiet = λ w k. refl;
  settle_quiet = λ w k. refl;
  mkdir_quiet = λ path mode w k. refl;
  mount_quiet = λ source target fs_type opts w k. refl;
  patched = λ node p w k. elim (Option-cases (lookup k p.labels)) [
    | inl absent ↦ inl (rw absent)
    | inr (v, named) ↦ inr (v, named, rw named)
  ];
  retried = λ P m keeps. keeps;
}

-- The disk with the UUID "u-1" is gone, and its label is still there.
run_keeps_label_example :
    label_of (run config machine 2 ("u-1" ∷ []) (λ k. some "true")).1 "agent.cubbit.io/has-uuid-u-1"
    ≡ some "true"
run_keeps_label_example =
    run_keeps_label config machine label_of machine-LabelLaws "agent.cubbit.io/has-uuid-u-1" 2
      ("u-1" ∷ []) (λ k. some "true") refl

patch_labels-lookup_example :
    lookup "agent.cubbit.io/has-uuid-u-1" (patch_labels ("u-2" ∷ []) ("u-1" ∷ [])) ≡ some none
unfolding contains
patch_labels-lookup_example = patch_labels-lookup ("u-2" ∷ []) ("u-1" ∷ []) "u-1"

-- Each disk of this machine has a count of how often it was formatted.
abbrev Counts : Type 0
Counts = String → ℕ

abbrev content_of : Counts → String → ℕ
content_of w x = w x

abbrev device_of : List String → String
device_of [] = ""
device_of (x ∷ []) = x
device_of (x ∷ y ∷ xs) = device_of (y ∷ xs)

abbrev count_up : String → Counts → Counts
count_up dev w x = let n = w x in if dev == x then suc n else n

abbrev disks : Machine Counts
disks = record {
  output = λ w. ok all_devices;
  mkfs = record {
    run = λ c args w. (ok tt, count_up (device_of args) w);
    sync = λ w. w;
    settle = λ w. w;
  };
  moby = record {
    get_mounts = λ f w. ok [];
    prefix_filter = λ p info. record { skip = false; stop = false };
    fs_type_filter = λ ts info. record { skip = false; stop = false };
  };
  statfs_call = λ path w. err (external "no such file or directory");
  eval_symlinks = λ path w. err (external "no such file or directory");
  mount_utils = record {
    mount = λ source target fs_type opts. pure tt;
    unmount = λ target. pure tt;
    is_likely_not_mount_point = λ target w. ok true;
  };
  files = record {
    mkdir_all = λ path mode. pure tt;
    is_missing = λ path w. false;
    remove = λ path w. w;
  };
  patch_node = λ node p. pure tt;
  retry_on_conflict = λ m. m;
  sort_devices = λ devices. devices;
  marshal = λ m. "";
}

device_of-mkfs_args : (dev : String) (opts : FormatOptions) → device_of (mkfs_args dev opts) ≡ dev
unfolding mkfs_args
device_of-mkfs_args dev opts = ground arith

disks-ContentLaws : ContentLaws config disks content_of
disks-ContentLaws = record {
  run_apart = λ c dev opts w x apart. rw (device_of-mkfs_args dev opts, ==-false dev x apart);
  sync_quiet = λ w x. refl;
  settle_quiet = λ w x. refl;
  mkdir_quiet = λ path mode w x. refl;
  mount_quiet = λ source target fs_type opts w x. refl;
  patch_quiet = λ node p w x. refl;
  retried = λ P m keeps. keeps;
}

sdc-IsSafe : ¬ (HasRaw (init_config config disks) all_devices "/dev/sdc")
sdc-IsSafe h = elim h [
  | inl raw ↦ ne_of_== "/dev/sda" "/dev/sdc" refl raw.1
  | inr (inl raw) ↦ ne_of_== "/dev/sdb" "/dev/sdc" refl raw.1
  | inr (inr (inl raw)) ↦ ne_of_== "ext4" "" refl raw.0.no_fstype
  | inr (inr (inr no')) ↦ no'
]

run_content_example : content_of (run config disks 2 [] (λ x. 0)).1 "/dev/sdc" ≡ 0
run_content_example =
    run_content config disks content_of disks-ContentLaws "/dev/sdc" 0
      (λ v ds same listed.
        subst (λ es. ¬ (HasRaw (init_config config disks) es "/dev/sdc")) (ok-injective listed)
          sdc-IsSafe)
      2 [] (λ x. 0) refl

plain :
    (name : String)
    → slash_free name ≡ true
    → (name == "") ≡ false
    → (name == ".") ≡ false
    → (name == "..") ≡ false
    → IsPlain name
plain name free full here above = record {
  no_slash = free;
  not_empty = ne_of_== name "" full;
  not_here = ne_of_== name "." here;
  not_up = ne_of_== name ".." above;
}

target-apart_example :
    (kubernetes_external_prov.Services.Mounter.target (mounter_for config disks "u-1")
      ≡ "/mnt/cubbit/u-1")
    × ((kubernetes_external_prov.Services.Mounter.target (mounter_for config disks "u-1")
          ≡ kubernetes_external_prov.Services.Mounter.target (mounter_for config disks "u-2"))
        ↔ (◌≡◌ {A = String} "u-1" "u-2"))
target-apart_example =
    target-apart config disks "mnt" ("cubbit" ∷ []) "u-1" "u-2" (unfold join in refl)
      (plain "mnt" refl refl refl refl, (plain "cubbit" refl refl refl refl, tt))
      (plain "u-1" refl refl refl refl) (plain "u-2" refl refl refl refl)
