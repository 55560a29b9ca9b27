-- ===== src/Providers/MountInfo/Laws.antt =====
-- Which mounts the filtered provider reports.
use kubernetes_external_prov.Base.{
  Bool, List, Result, String, ap, arith, err, false, filter, fun_ext, leb, none, not, ok, some, ℕ,
  ◌&&◌, ◌≡◌,
}
use kubernetes_external_prov.Models.{MountEntry, StatfsResult}
use kubernetes_external_prov.Providers.{StatfsProvider}
use kubernetes_external_prov.Providers.MountInfo.{Moby, MountFilter, get_mounts, wanted}

abbrev pub passes : MountFilter → MountEntry → Bool
passes f info = not (f info).skip

-- What moby documents of its reader: all mounts with no filter, and with one that never stops those
-- that it does not skip; the prefix and type filters never stop.
pub record MobyLaws {W : Type 0} (moby : Moby W) : Type 0 where
  pub reads :
      (f : MountFilter) (w : W) (all : List MountEntry)
      → ((info : MountEntry) → (f info).stop ≡ false)
      → moby.get_mounts none w ≡ ok all
      → moby.get_mounts (some f) w ≡ ok (filter (passes f) all)
  pub prefix_steady : (p : String) (info : MountEntry) → (moby.prefix_filter p info).stop ≡ false
  pub type_steady :
      (ts : List String) (info : MountEntry) → (moby.fs_type_filter ts info).stop ≡ false

-- Large enough by statfs; a mount whose statfs fails is not.
abbrev pub large : Result StatfsResult → ℕ → Bool
large (err e) min_size = false
large (ok r) min_size = leb min_size r.total_size

filter-congr :
    (p q : MountEntry → Bool) (xs : List MountEntry)
    → ((x : MountEntry) → p x ≡ q x)
    → filter p xs ≡ filter q xs
filter-congr p q xs h = rw (fun_ext h)

-- If moby's reader applies a filter as documented, and all mounts can be read, the provider
-- reports of them those below the prefix, of the types wanted, whose statfs succeeds and is at
-- least the minimum size.
pub get_mounts-filter :
    {W : Type 0} (moby : Moby W) (laws : MobyLaws moby) (dir_prefix : String)
    (fs_types : List String) (min_size : ℕ) (statfs : StatfsProvider W) (w : W)
    (all : List MountEntry)
    → moby.get_mounts none w ≡ ok all
    → get_mounts moby dir_prefix fs_types min_size statfs w
      ≡ ok (
          filter
            (λ info.
              passes (moby.prefix_filter dir_prefix) info
              && passes (moby.fs_type_filter fs_types) info
              && large (statfs.statfs info.mountpoint w) min_size)
            all)
unfolding get_mounts
get_mounts-filter moby laws dir_prefix fs_types min_size statfs w all h =
    rw (laws.reads (wanted moby dir_prefix fs_types min_size statfs w) w all steady h)
      (ap ok (filter-congr _ _ all same))
  where
    steady :
        (info : MountEntry) → (wanted moby dir_prefix fs_types min_size statfs w info).stop ≡ false
    steady info = ground (arith, laws.prefix_steady dir_prefix info, laws.type_steady fs_types info)

    same :
        (info : MountEntry)
        → passes (wanted moby dir_prefix fs_types min_size statfs w) info ≡ (
            passes (moby.prefix_filter dir_prefix) info
            && passes (moby.fs_type_filter fs_types) info
            && large (statfs.statfs info.mountpoint w) min_size)
    same info = ground (arith, laws.prefix_steady dir_prefix info, laws.type_steady fs_types info)
