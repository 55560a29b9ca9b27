-- ===== src/Tests/Providers.antt =====
-- The mounts of a node and the resolution of a UUID, over a mount table as the node's state.
use text.Mathlib.Text.{starts_with}
use kubernetes_external_prov.Base.{
  List, Result, String, [], ap, contains, err, external, false, filter, find?, none, not, ok,
  ok-injective, refl, some, ◌∷◌, ◌≡◌,
}
use kubernetes_external_prov.Fsutils.Device.{flatten_devices}
use kubernetes_external_prov.Fsutils.Lsblk.{get_block_devices}
use kubernetes_external_prov.Models.{MountEntry}
use kubernetes_external_prov.Providers.{Lsblk, StatfsProvider, real_lsblk}
use kubernetes_external_prov.Providers.MountInfo.{Moby, get_mounts}
use kubernetes_external_prov.Providers.MountInfo.Laws.{MobyLaws, get_mounts-filter, passes}
use kubernetes_external_prov.Providers.Resolver.{resolve_uuid}
use kubernetes_external_prov.Providers.Resolver.Laws.{resolve_uuid-find}
use kubernetes_external_prov.Tests.Samples.{all_devices, disk_mount, root_mount}

abbrev Table : Type 0
Table = List MountEntry

abbrev table_moby : Moby Table
table_moby = record {
  get_mounts = λ f w. elim f [ none ↦ ok w | some g ↦ ok (filter (passes g) w) ];
  prefix_filter = λ p info. record { skip = not (starts_with info.mountpoint p); stop = false };
  fs_type_filter = λ ts info. record { skip = not (contains ts info.fs_type); stop = false };
}

table_moby-MobyLaws : MobyLaws table_moby
table_moby-MobyLaws = record {
  reads = λ f w all steady h. ap (λ (t : Table). ok (filter (passes f) t)) (ok-injective h);
  prefix_steady = λ p info. refl;
  type_steady = λ ts info. refl;
}

-- Every mount point has 100 MiB.
abbrev roomy : StatfsProvider Table
roomy = record { statfs = λ path w. ok (record { total_size = 104857600; free_space = 104857600 }) }

get_mounts-filter_example :
    get_mounts table_moby "/mnt/cubbit" ("ext4" ∷ []) 52428800 roomy (root_mount ∷ disk_mount ∷ [])
    ≡ ok (disk_mount ∷ [])
unfolding filter contains
get_mounts-filter_example =
    get_mounts-filter table_moby table_moby-MobyLaws "/mnt/cubbit" ("ext4" ∷ []) 52428800 roomy
      (root_mount ∷ disk_mount ∷ []) (root_mount ∷ disk_mount ∷ []) refl

abbrev no_link : String → Table → Result String
no_link path w = err (external "no such file or directory")

abbrev table_lsblk : Lsblk Table
table_lsblk = real_lsblk (λ w. ok all_devices)

resolve_uuid-find_example : resolve_uuid no_link table_lsblk "u-1" [] ≡ ok "/dev/sdc"
unfolding flatten_devices find? get_block_devices
resolve_uuid-find_example =
    resolve_uuid-find no_link table_lsblk "u-1" [] (external "no such file or directory") refl
