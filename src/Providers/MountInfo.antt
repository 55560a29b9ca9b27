-- ===== src/Providers/MountInfo.antt =====
-- cmd-drivers/providers/mountinfo_provider.go. The package github.com/moby/sys/mountinfo is `Moby`: its
-- reader with an optional filter, and its filters by prefix and by filesystem type.
pub mod Laws
use kubernetes_external_prov.Base.{
  Bool, List, Option, Result, String, [], err, false, if◌then◌else◌, ltb, none, ok, some, true,
  wrap, ℕ, ◌||◌, ◌∷◌,
}
use kubernetes_external_prov.Models.{MountEntry}
use kubernetes_external_prov.Providers.{MountInfoProvider, StatfsProvider}

-- What a `mountinfo.FilterFunc` returns.
pub record Answer : Type 0 where
  pub skip : Bool
  pub stop : Bool

abbrev pub MountFilter : Type 0
MountFilter = MountEntry → Answer

pub record Moby (W : Type 0) : Type 0 where
  pub get_mounts : Option MountFilter → W → Result (List MountEntry)
  pub prefix_filter : String → MountFilter
  pub fs_type_filter : List String → MountFilter

-- `and`
unfoldable pub and_filter : List MountFilter → MountFilter
and_filter [] info = record { skip = false; stop = false }
and_filter (f ∷ fs) info =
    let rest = and_filter fs info in if (f info).skip || (f info).stop then f info else rest

-- `createSizeFilter`; the statfs of the state in which the mounts are read.
unfoldable pub size_filter : {W : Type 0} → StatfsProvider W → ℕ → W → MountFilter
size_filter statfs min_size w info = elim (statfs.statfs info.mountpoint w) [
  | err e ↦ record { skip = true; stop = false }
  | ok result ↦ record { skip = ltb result.total_size min_size; stop = false }
]

module _ {W : Type 0} (moby : Moby W) where
  -- The filter of `realMountInfoProvider.GetMounts`.
  abbrev pub wanted : String → List String → ℕ → StatfsProvider W → W → MountFilter
  wanted dir_prefix fs_types min_size statfs w = and_filter (
      moby.prefix_filter dir_prefix
      ∷ moby.fs_type_filter fs_types
      ∷ size_filter statfs min_size w
      ∷ [])

  -- `realMountInfoProvider.GetMounts`
  unfoldable pub get_mounts :
      String → List String → ℕ → StatfsProvider W → W → Result (List MountEntry)
  unfolding and_filter size_filter
  get_mounts dir_prefix fs_types min_size statfs w =
      wrap "reading mounts: %w" []
        (moby.get_mounts (some (wanted dir_prefix fs_types min_size statfs w)) w)

  -- `unfilteredMountInfoProvider.GetMounts`
  unfoldable pub get_all_mounts : W → Result (List MountEntry)
  get_all_mounts w = wrap "reading mounts: %w" [] (moby.get_mounts none w)

  abbrev pub mount_info_provider : String → List String → ℕ → StatfsProvider W → MountInfoProvider W
  mount_info_provider dir_prefix fs_types min_size statfs = record {
    get_mounts = get_mounts dir_prefix fs_types min_size statfs;
  }

  abbrev pub unfiltered_mount_info_provider : MountInfoProvider W
  unfiltered_mount_info_provider = record { get_mounts = get_all_mounts }
