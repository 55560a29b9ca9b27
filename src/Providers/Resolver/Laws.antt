-- ===== src/Providers/Resolver/Laws.antt =====
-- What `ResolveUUID` finds without the udev link.
use kubernetes_external_prov.Base.{
  Bool, Error, List, Option, Result, Result-cases, String, [], arith, err, errorf, find?, inl, inr,
  none, ok, refl, some, wrap, ◌==◌, ◌>>=◌, ◌^^◌, ◌||◌, ◌∷◌, ◌≡◌,
}
use kubernetes_external_prov.Fsutils.Device.{BlockDevice, flatten_devices, properties}
use kubernetes_external_prov.Providers.{Lsblk}
use kubernetes_external_prov.Providers.Resolver.{fallback, find_uuid, resolve_uuid}

abbrev pub carries : String → BlockDevice → Bool
carries wanted d = (properties d).uuid == wanted || (properties d).part_uuid == wanted

abbrev pub name_of : String → Option BlockDevice → Result String
name_of wanted none = err (errorf "device with UUID %q not found" (wanted ∷ []))
name_of wanted (some d) = ok (properties d).name

find_uuid-find :
    (wanted : String) (ds : List BlockDevice)
    → find_uuid wanted ds ≡ name_of wanted (find? (carries wanted) ds)
unfolding find_uuid find?
find_uuid-find wanted [] = refl
find_uuid-find wanted (d ∷ ds) = ground (arith, find_uuid-find wanted ds)

-- Without a udev link, the path is the name of the first device of the flattened tree that carries
-- the identifier as its UUID or its PARTUUID; if none does, or lsblk fails, there is an error.
pub resolve_uuid-find :
    {W : Type 0} (eval_symlinks : String → W → Result String) (lsblk : Lsblk W) (wanted : String)
    (w : W) (e : Error)
    → eval_symlinks ("/dev/disk/by-uuid/" ^^ wanted) w ≡ err e
    → resolve_uuid eval_symlinks lsblk wanted w ≡ (
        wrap "lsblk enumeration failed: %w" [] (lsblk.get_block_devices none w) >>= λ ds.
        name_of wanted (find? (carries wanted) (flatten_devices ds)))
unfolding resolve_uuid
resolve_uuid-find eval_symlinks lsblk wanted w e missing =
    elim (Result-cases (lsblk.get_block_devices none w)) [
      | inl (ds, listed) ↦
          rw (missing, resolve_uuid)
            (rw (listed, fallback) (find_uuid-find wanted (flatten_devices ds)))
      | inr (e', failed) ↦ rw (missing, resolve_uuid) (rw (failed, fallback))
    ]
