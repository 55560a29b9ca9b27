-- ===== src/NodeScanner/DiskMap.antt =====
-- The disk map and the set of UUIDs that a scan builds from the mounted devices.
use kubernetes_external_prov.Base.{
  Any, Bool, Bool-cases, Dict, List, Option, String, [], ap, arith, contains, eq_iff, eq_refl,
  false, false≢true, if◌then◌else◌, inl, inr, insert, lookup, lookup-insert, none, not, refl, some,
  subst⁻¹, sym, true, ◌&&◌, ◌==◌, ◌||◌, ◌∙◌, ◌∷◌, ◌≡◌, ◌≢◌,
}
use kubernetes_external_prov.Models.{DeviceInfo, DiskEntry}
use kubernetes_external_prov.NodeScanner.{current_uuids, disk_map_from, no_uuid}

abbrev pub entry_of : DeviceInfo → DiskEntry
entry_of dev = record { path = dev.mount_path; size = dev.total_size }

abbrev pub is_device : String → DeviceInfo → Bool
is_device u dev = not (no_uuid dev) && dev.uuid == u

-- The entry of the last device with that UUID, or else `o`.
abbrev pub last_entry : Option DiskEntry → String → List DeviceInfo → Option DiskEntry
last_entry o u [] = o
last_entry o u (dev ∷ devs) = last_entry (if is_device u dev then some (entry_of dev) else o) u devs

disk_map_from-last :
    (m : Dict DiskEntry) (devs : List DeviceInfo) (u : String)
    → lookup u (disk_map_from m devs) ≡ last_entry (lookup u m) u devs
unfolding disk_map_from
disk_map_from-last m [] u = refl
disk_map_from-last m (dev ∷ devs) u = elim (Bool-cases (no_uuid dev)) [
  | inl skipped ↦ rw (skipped, disk_map_from) (disk_map_from-last m devs u)
  | inr kept ↦
      rw (kept, disk_map_from)
        (disk_map_from-last (insert dev.uuid (entry_of dev) m) devs u
          ∙ ap (λ o. last_entry o u devs) (lookup-insert dev.uuid u (entry_of dev) m))
]

-- The disk map gives for each UUID the mount path and the size of the last mounted device that has it;
-- devices with no known UUID are left out.
pub disk_map-last :
    (devs : List DeviceInfo) (u : String)
    → lookup u (disk_map_from [] devs) ≡ last_entry none u devs
unfolding lookup
disk_map-last devs u = disk_map_from-last [] devs u

abbrev pub is_some : {A : Type 0} → Option A → Bool
is_some none = false
is_some (some a) = true

last_entry-is_some :
    (o : Option DiskEntry) (u : String) (devs : List DeviceInfo)
    → is_some (last_entry o u devs) ≡ (is_some o || contains (current_uuids devs) u)
unfolding current_uuids contains
last_entry-is_some o u [] = ground arith
last_entry-is_some o u (dev ∷ devs) =
    ground (arith, last_entry-is_some (if is_device u dev then some (entry_of dev) else o) u devs)

-- A UUID is among those that are labelled exactly if the disk map has an entry for it.
pub current_uuids-disk_map :
    (devs : List DeviceInfo) (u : String)
    → contains (current_uuids devs) u ≡ is_some (lookup u (disk_map_from [] devs))
current_uuids-disk_map devs u =
    sym (ap is_some (disk_map-last devs u) ∙ last_entry-is_some none u devs)

-- A UUID that is published is not empty, and the disk map has an entry for it.
pub current_uuids-named :
    (devs : List DeviceInfo) (u : String) → contains (current_uuids devs) u ≡ true → u ≢ ""
unfolding current_uuids contains
current_uuids-named [] u h = absurd (false≢true h)
current_uuids-named (dev ∷ devs) u h =
    ground (arith, current_uuids-named devs u, eq_iff dev.uuid u, eq_iff dev.uuid "")

is_some-some : {A : Type 0} (o : Option A) → is_some o ≡ true → (a : A) × (o ≡ some a)
is_some-some none h = absurd (false≢true h)
is_some-some (some a) h = (a, refl)

pub current_uuids-last_entry :
    (devs : List DeviceInfo) (u : String)
    → contains (current_uuids devs) u ≡ true
    → (entry : DiskEntry) × (last_entry none u devs ≡ some entry)
current_uuids-last_entry devs u h =
    is_some-some (last_entry none u devs)
      (ap is_some (sym (disk_map-last devs u)) ∙ sym (current_uuids-disk_map devs u) ∙ h)

-- A known UUID of one of the devices is among those that are labelled.
pub current_uuids-Any :
    (u : String) (devs : List DeviceInfo)
    → (u == "" || u == "N/A") ≡ false
    → Any (λ dev. dev.uuid ≡ u) devs
    → contains (current_uuids devs) u ≡ true
unfolding current_uuids contains
current_uuids-Any u [] known there = absurd there
current_uuids-Any u (dev ∷ devs) known (inl same) =
    subst⁻¹
      (λ v.
        contains (if v == "" || v == "N/A" then current_uuids devs else v ∷ current_uuids devs) u
        ≡ true)
      same (rw known (rw (eq_refl u)))
current_uuids-Any u (dev ∷ devs) known (inr later) =
    ground (arith, current_uuids-Any u devs known later)
