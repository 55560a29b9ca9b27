-- ===== src/Flow/DiskMapJson/ReadBack.antt =====
-- A disk map that is written is read back with the same entries.
use kubernetes_external_prov.Base.{
  All, Bool, Bool-cases, Dict, List, Option, String, [], ap, eq_of_==, inl, inr, insert, lookup,
  lookup-insert, ltb, none, ok, refl, some, subst, true, ◌==◌, ◌^◌, ◌∙◌, ◌∷◌, ◌≡◌,
}
use kubernetes_external_prov.Flow.DiskMapJson.{
  decode_disk_map, decode_entries, decode_entry, decode_entry_fields, encode_disk_map,
  encode_entries, encode_entry, sort_keys,
}
use kubernetes_external_prov.Flow.DiskMapJson.Keys.{
  AreSmall, IsDistinct, insert-AreSmall, insert-IsDistinct, sort_keys-AreSmall,
  sort_keys-IsDistinct, sort_keys-lookup,
}
use kubernetes_external_prov.Fsutils.Decode.{matches}
use kubernetes_external_prov.Models.{DeviceInfo, DiskEntry}
use kubernetes_external_prov.NodeScanner.{disk_map_from, no_uuid}
use kubernetes_external_prov.NodeScanner.DiskMap.{disk_map-last, entry_of, last_entry}

entry_read :
    (entry : DiskEntry)
    → ltb entry.size (2 ^ 64) ≡ true
    → decode_entry (encode_entry entry) ≡ ok entry
unfolding decode_entry decode_entry_fields matches
entry_read entry small = rw small

insert_all : Dict DiskEntry → Dict DiskEntry → Dict DiskEntry
insert_all acc [] = acc
insert_all acc ((k, entry) ∷ m) = insert_all (insert k entry acc) m

entries_read :
    (acc m : Dict DiskEntry)
    → AreSmall m
    → decode_entries acc (encode_entries m) ≡ ok (insert_all acc m)
unfolding decode_entries encode_entries insert_all
entries_read acc [] small = refl
entries_read acc ((k, entry) ∷ m) (small, smalls) =
    rw (entry_read entry small) (entries_read (insert k entry acc) m smalls)

abbrev or_else : Option DiskEntry → Option DiskEntry → Option DiskEntry
or_else none other = other
or_else (some entry) other = some entry

insert_all-lookup :
    (acc m : Dict DiskEntry) (u : String)
    → IsDistinct m
    → lookup u (insert_all acc m) ≡ or_else (lookup u m) (lookup u acc)
unfolding insert_all lookup
insert_all-lookup acc [] u distinct = refl
insert_all-lookup acc ((k, entry) ∷ m) u (fresh, distinct) =
    insert_all-lookup (insert k entry acc) m u distinct
    ∙ ap (or_else (lookup u m)) (lookup-insert k u entry acc)
    ∙ elim (Bool-cases (k == u)) [
      | inl same ↦ rw (same, subst (λ x. lookup x m ≡ none) (eq_of_== k u same) fresh)
      | inr differs ↦ rw differs
    ]

or_else-none : (o : Option DiskEntry) → or_else o none ≡ o
or_else-none none = refl
or_else-none (some entry) = refl

-- The JSON of a map with distinct keys and sizes that a `uint64` holds is read as a map with the same
-- entries.
pub decode_disk_map-encode :
    (before : String → String → Bool) (m : Dict DiskEntry)
    → IsDistinct m
    → AreSmall m
    → (parsed : Dict DiskEntry) × (decode_disk_map (encode_disk_map before m) ≡ ok parsed)
      × ((u : String) → lookup u parsed ≡ lookup u m)
unfolding decode_disk_map encode_disk_map lookup
decode_disk_map-encode before m distinct smalls = (
  insert_all [] (sort_keys before m),
  entries_read [] (sort_keys before m) (sort_keys-AreSmall before m smalls),
  λ u.
      insert_all-lookup [] (sort_keys before m) u (sort_keys-IsDistinct before m distinct)
      ∙ or_else-none (lookup u (sort_keys before m))
      ∙ sort_keys-lookup before m distinct u,
)

pub disk_map_from-IsDistinct :
    (m : Dict DiskEntry) (devs : List DeviceInfo) → IsDistinct m → IsDistinct (disk_map_from m devs)
unfolding disk_map_from
disk_map_from-IsDistinct m [] distinct = distinct
disk_map_from-IsDistinct m (dev ∷ devs) distinct = elim (Bool-cases (no_uuid dev)) [
  | inl skipped ↦ rw (skipped, disk_map_from) (disk_map_from-IsDistinct m devs distinct)
  | inr kept ↦
      rw (kept, disk_map_from)
        (disk_map_from-IsDistinct (insert dev.uuid (entry_of dev) m) devs
          (insert-IsDistinct dev.uuid (entry_of dev) m distinct))
]

-- The total size is that of a `uint64`.
abbrev pub IsUint64 : DeviceInfo → Type 0
IsUint64 dev = ltb dev.total_size (2 ^ 64) ≡ true

pub disk_map_from-AreSmall :
    (m : Dict DiskEntry) (devs : List DeviceInfo)
    → All IsUint64 devs
    → AreSmall m
    → AreSmall (disk_map_from m devs)
unfolding disk_map_from
disk_map_from-AreSmall m [] sized smalls = smalls
disk_map_from-AreSmall m (dev ∷ devs) (small, sized) smalls = elim (Bool-cases (no_uuid dev)) [
  | inl skipped ↦ rw (skipped, disk_map_from) (disk_map_from-AreSmall m devs sized smalls)
  | inr kept ↦
      rw (kept, disk_map_from)
        (disk_map_from-AreSmall (insert dev.uuid (entry_of dev) m) devs sized
          (insert-AreSmall dev.uuid (entry_of dev) m small smalls))
]

-- The JSON of the disk map of devices whose sizes a `uint64` holds is decoded to a map that has
-- for every UUID the entry of the last of the devices with it, and none if there is none.
pub disk_map-decode :
    (before : String → String → Bool) (devs : List DeviceInfo)
    → All IsUint64 devs
    → (parsed : Dict DiskEntry) × (decode_disk_map (encode_disk_map before (disk_map_from [] devs))
        ≡ ok parsed)
      × ((u : String) → lookup u parsed ≡ last_entry none u devs)
disk_map-decode before devs sized =
    let (parsed, decoded, same) =
      decode_disk_map-encode before (disk_map_from [] devs) (disk_map_from-IsDistinct [] devs tt)
        (disk_map_from-AreSmall [] devs sized tt) in
    (parsed, decoded, λ u. same u ∙ disk_map-last devs u)
