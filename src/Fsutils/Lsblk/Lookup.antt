-- ===== src/Fsutils/Lsblk/Lookup.antt =====
-- The lookups by name, against a search of the flattened devices.
use kubernetes_external_prov.Base.{
  ==-false, Bool, Bool-cases, List, Option, Result, String, [], ap, ap₂, arith, eq_of_==, err,
  errorf, find?, head?, inl, inr, ne_of_==, none, ok, refl, some, starts_with, true, ◌++◌, ◌==◌,
  ◌>>=◌, ◌∷◌, ◌≡◌, ◌≢◌,
}
use kubernetes_external_prov.Fsutils.Device.{
  BlockDevice, Devices, cons, device, flatten_children, flatten_device, flatten_devices, nil,
  properties,
}
use kubernetes_external_prov.Fsutils.Lsblk.{
  after_lookup, device_filter, filter_all, filter_children_recursive, filter_device_recursive,
  first_found, get_block_device, get_uuid, search_flat, uuid_or_part_uuid,
}

abbrev pub is_named : String → BlockDevice → Bool
is_named wanted d = (properties d).name == wanted

abbrev or_else {ℓ} : {A : Type ℓ} → Option A → Option A → Option A
or_else none o = o
or_else (some a) o = some a

find?-append {ℓ} :
    {A : Type ℓ} (p : A → Bool) (xs ys : List A)
    → find? p (xs ++ ys) ≡ or_else (find? p xs) (find? p ys)
unfolding find?
find?-append p [] ys = refl
find?-append p (x ∷ xs) ys = ground (arith, find?-append p xs ys)

head?-append {ℓ} : {A : Type ℓ} (xs ys : List A) → head? (xs ++ ys) ≡ or_else (head? xs) (head? ys)
head?-append [] ys = refl
head?-append (x ∷ xs) ys = refl

module _ (wanted : String) where
  mutual
    unfolding filter_device_recursive flatten_device find? device_filter

    device_head :
        (d : BlockDevice)
        → head? (filter_device_recursive (device_filter wanted) d)
          ≡ find? (is_named wanted) (flatten_device d)
    device_head (device p cs) = ground (arith, children_head cs)

    children_head :
        (cs : Devices)
        → head? (filter_children_recursive (device_filter wanted) cs)
          ≡ find? (is_named wanted) (flatten_children cs)
    children_head nil = refl
    children_head (cons d ds) =
        rw (head?-append _ _, find?-append (is_named wanted) _ _)
          (ap₂ or_else (device_head d) (children_head ds))

  all_head :
      (ds : List BlockDevice)
      → head? (filter_all (device_filter wanted) ds) ≡ find? (is_named wanted) (flatten_devices ds)
  unfolding filter_all flatten_devices find?
  all_head [] = refl
  all_head (d ∷ ds) =
      rw (head?-append _ _, find?-append (is_named wanted) _ _)
        (ap₂ or_else (device_head d) (all_head ds))

  search_flat-find :
      (ds : List BlockDevice)
      → search_flat wanted ds
        ≡ (first_found wanted (find? (is_named wanted) ds) >>= λ d. ok (uuid_or_part_uuid d))
  unfolding search_flat find?
  search_flat-find [] = refl
  search_flat-find (d ∷ ds) = ground (arith, search_flat-find ds)

-- For a non-empty name, the lookup gives the first device of that name in the flattened tree, an
-- error if there is none, and the error of lsblk if it failed.
pub get_block_device-find :
    (output : Result (List BlockDevice)) (wanted : String)
    → wanted ≢ ""
    → get_block_device output wanted
      ≡ (output >>= λ ds. first_found wanted (find? (is_named wanted) (flatten_devices ds)))
unfolding get_block_device
get_block_device-find (ok ds) wanted h =
    rw (==-false wanted "" h) (ap (first_found wanted) (all_head wanted ds))
get_block_device-find (err e) wanted h = rw (==-false wanted "" h)

-- The text is the UUID of the device, where it has one, and otherwise its PARTUUID.
pub data IsIdentifier (d : BlockDevice) : String → Type 0 where
  by_uuid : (properties d).uuid ≢ "" → IsIdentifier d (properties d).uuid
  by_part_uuid : (properties d).uuid ≡ "" → IsIdentifier d (properties d).part_uuid

-- What `GetUUID` promises of a path below /dev/, where lsblk lists these devices.
pub data IsLookup (ds : List BlockDevice) (wanted : String) : Result String → Type 0 where
  found_as :
      (d : BlockDevice) (u : String)
      → find? (is_named wanted) (flatten_devices ds) ≡ some d
      → IsIdentifier d u
      → IsLookup ds wanted (ok u)
  found_nowhere :
      find? (is_named wanted) (flatten_devices ds) ≡ none
      → IsLookup ds wanted (err (errorf "device %q not found" (wanted ∷ [])))

uuid_or_part_uuid-IsIdentifier : (d : BlockDevice) → IsIdentifier d (uuid_or_part_uuid d)
unfolding uuid_or_part_uuid
uuid_or_part_uuid-IsIdentifier d = elim (Bool-cases ((properties d).uuid == "")) [
  | inl blank ↦ rw blank (by_part_uuid (eq_of_== (properties d).uuid "" blank))
  | inr there ↦ rw there (by_uuid (ne_of_== (properties d).uuid "" there))
]

-- Where both runs of lsblk list the same devices, `GetUUID` of a path below /dev/ gives the UUID of the
-- first device of that name in the flattened tree, or its PARTUUID if it has no UUID, and an error
-- that names the path if there is none.
pub get_uuid-find :
    (ds : List BlockDevice) (wanted : String)
    → wanted ≢ ""
    → starts_with wanted "/dev/" ≡ true
    → IsLookup ds wanted (get_uuid (ok ds) (ok ds) wanted)
unfolding get_uuid get_block_device
get_uuid-find ds wanted h below =
    rw (==-false wanted "" h, below, all_head wanted ds)
      (after (find? (is_named wanted) (flatten_devices ds)) refl)
  where
    after :
        (o : Option BlockDevice)
        → find? (is_named wanted) (flatten_devices ds) ≡ o
        → IsLookup ds wanted (after_lookup (first_found wanted o) (ok ds) wanted)
    after none e = rw (search_flat-find wanted (flatten_devices ds), e) (found_nowhere e)
    after (some d) e = found_as d (uuid_or_part_uuid d) e (uuid_or_part_uuid-IsIdentifier d)
