-- ===== src/Flow/DiskMapJson/GoMap.antt =====
-- Disk maps as Go has them: association lists up to the order of their keys.
use mathlib.Core.Quot
use mathlib.Core.Quot.{Quot}
use kubernetes_external_prov.Base.{
  All, Bool, Dict, List, Result_map, String, [], ap, arith, eq_iff, if◌then◌else◌, lookup, none, ok,
  some, sym, ◌∙◌, ◌∷◌, ◌≡◌, ◌≢◌,
}
use kubernetes_external_prov.Flow.DiskMapJson.{decode_disk_map, encode_disk_map}
use kubernetes_external_prov.Flow.DiskMapJson.ReadBack.{
  IsUint64, decode_disk_map-encode, disk_map_from-AreSmall, disk_map_from-IsDistinct,
}
use kubernetes_external_prov.Models.{DeviceInfo, DiskEntry}
use kubernetes_external_prov.NodeScanner.{disk_map_from}
use kubernetes_external_prov.NodeScanner.DiskMap.{disk_map-last, entry_of, is_device, last_entry}

abbrev pub SameEntries : Dict DiskEntry → Dict DiskEntry → Type 0
SameEntries m n = (u : String) → lookup u m ≡ lookup u n

abbrev pub GoMap : Type 0
GoMap = Quot SameEntries

abbrev pub as_map : Dict DiskEntry → GoMap
as_map m = Quot.mk m

-- What the scanner writes is what the provisioner reads: for devices whose sizes a `uint64` holds,
-- the JSON of their disk map, whatever order its keys are written in, is decoded to that same map,
-- where maps with the same entries are equal.
pub decode_disk_map-as_map :
    (before : String → String → Bool) (devs : List DeviceInfo)
    → All IsUint64 devs
    → Result_map as_map (decode_disk_map (encode_disk_map before (disk_map_from [] devs)))
      ≡ ok (as_map (disk_map_from [] devs))
decode_disk_map-as_map before devs sized =
    let (parsed, decoded, same) =
      decode_disk_map-encode before (disk_map_from [] devs) (disk_map_from-IsDistinct [] devs tt)
        (disk_map_from-AreSmall [] devs sized tt) in
    rw decoded (ap ok (Quot.sound same))

-- The order in which two devices with different UUIDs are found makes no difference.
swap_entries :
    (a b : DeviceInfo) (u : String)
    → a.uuid ≢ b.uuid
    → (if is_device u b
        then some (entry_of b)
        else if is_device u a
        then some (entry_of a)
        else none)
      ≡ (if is_device u a
          then some (entry_of a)
          else if is_device u b
          then some (entry_of b)
          else none)
swap_entries a b u apart = ground (arith, eq_iff a.uuid u, eq_iff b.uuid u)

pub as_map-swap :
    (devs : List DeviceInfo) (a b : DeviceInfo)
    → a.uuid ≢ b.uuid
    → as_map (disk_map_from [] (a ∷ b ∷ devs)) ≡ as_map (disk_map_from [] (b ∷ a ∷ devs))
as_map-swap devs a b apart = Quot.sound (λ u.
    disk_map-last (a ∷ b ∷ devs) u
    ∙ ap (λ o. last_entry o u devs) (swap_entries a b u apart)
    ∙ sym (disk_map-last (b ∷ a ∷ devs) u))
