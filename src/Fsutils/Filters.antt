-- ===== src/Fsutils/Filters.antt =====
-- The filter combinators and the ready filters of cmd-drivers/fsutils/lsblk.go.
pub mod Laws
use kubernetes_external_prov.Base.{
  Bool, List, String, [], contains, false, if◌then◌else◌, join, not, true, ◌++◌, ◌==◌, ◌^^◌, ◌||◌,
  ◌∷◌,
}
use kubernetes_external_prov.Fsutils.Device.{properties}
use kubernetes_external_prov.Fsutils.Lsblk.{FilterFunc}

-- The loop of `And`; `names` holds the names of the filters called so far.
unfoldable pub and_from : List String → List FilterFunc → FilterFunc
and_from names [] d = record { name = join " AND " names; skip = false; stop = false }
and_from names (f ∷ fs) d =
    let v = f d in
    let names' = names ++ v.name ∷ [] in
    let rest = and_from names' fs d in
    if v.skip || v.stop
    then record { name = join " AND " names'; skip = v.skip; stop = v.stop }
    else rest

-- `And`
unfoldable pub all_of : List FilterFunc → FilterFunc
unfolding and_from
all_of fs = and_from [] fs

-- The loop of `Or`.
unfoldable pub or_from : List String → Bool → List FilterFunc → FilterFunc
or_from names all_skipped [] d = record {
  name = join " OR " names;
  skip = all_skipped;
  stop = false;
}
or_from names all_skipped (f ∷ fs) d =
    let v = f d in
    let names' = names ++ v.name ∷ [] in
    let rest = or_from names' (if v.skip then all_skipped else false) fs d in
    if v.stop then record { name = join " OR " names'; skip = v.skip; stop = v.stop } else rest

-- `Or`
unfoldable pub any_of : List FilterFunc → FilterFunc
unfolding or_from
any_of fs = or_from [] true fs

-- `Not`
unfoldable pub not_filter : FilterFunc → FilterFunc
not_filter f d = let v = f d in record { name = "NOT " ^^ v.name; skip = not v.skip; stop = v.stop }

-- `TypeFilter`
unfoldable pub type_filter : List String → FilterFunc
unfolding contains
type_filter types d =
    if contains types (properties d).device_type
    then record { name = "TypeFilter"; skip = false; stop = false }
    else record { name = "TypeFilter"; skip = true; stop = false }

-- `NameFilter`
unfoldable pub name_filter : String → FilterFunc
name_filter wanted d =
    if (properties d).name == wanted
    then record { name = "NameFilter"; skip = false; stop = false }
    else record { name = "NameFilter"; skip = true; stop = false }

-- `FSTypeFilter`
unfoldable pub fs_type_filter : List String → FilterFunc
unfolding contains
fs_type_filter fs_types d =
    if (properties d).fstype == ""
    then record { name = "FSTypeFilter"; skip = false; stop = false }
    else if contains fs_types (properties d).fstype
    then record { name = "FSTypeFilter"; skip = false; stop = false }
    else record { name = "FSTypeFilter"; skip = true; stop = false }
