-- ===== src/Services/Mounter/RootGuard.antt =====
-- The guard against the root disk: when it refuses, and that nothing has happened by then.
use kubernetes_external_prov.Base.{
  ==-false, Bool, Bool-cases, Error, List, Result, Result-cases, String, err, false, find?, inl,
  inr, ne_of_==, none, ok, ok≢err, sym, true, ◌==◌, ◌↔◌, ◌∙◌, ◌≡◌, ◌≢◌,
}
use kubernetes_external_prov.Fsutils.Device.{BlockDevice}
use kubernetes_external_prov.Fsutils.RootDisk.Laws.{
  covers, find_root_disk_descendants_iff, on_first,
}
use kubernetes_external_prov.Models.{MountEntry}
use kubernetes_external_prov.Services.Mounter.{
  DeviceMounter, check_not_root_disk, mount, on_root_disk, root_source,
}

module _ {W : Type 0} (m : DeviceMounter W) where
  -- The mounts and the devices can be read, "/" has a source, and the first top-level disk whose
  -- subtree has that source has the path too.
  pub record OnRootDisk (path : String) (w : W) : Type 0 where
    pub entries : List MountEntry
    pub devices : List BlockDevice
    pub mounted : m.mounts.get_mounts w ≡ ok entries
    pub listed : m.lsblk.get_block_devices none w ≡ ok devices
    pub known : root_source entries ≢ ""
    pub covered : on_first (find? (covers (root_source entries)) devices) path ≡ true

  abbrev guard : String → W → Result (Unit {0})
  guard = check_not_root_disk m

  abbrev refusal : String → String → Error
  refusal = on_root_disk m

  guard_refuses :
      (path : String) (w : W) (on : OnRootDisk path w)
      → guard path w ≡ err (refusal path (root_source on.entries))
  unfolding check_not_root_disk
  guard_refuses path w on = rw (
    on.mounted,
    check_not_root_disk,
    ==-false (root_source on.entries) "" on.known,
    on.listed,
    find_root_disk_descendants_iff on.devices (root_source on.entries) path,
    on.covered,
  )

  guard_open :
      (path : String) (w : W) (entries : List MountEntry) (devices : List BlockDevice)
      → m.mounts.get_mounts w ≡ ok entries
      → m.lsblk.get_block_devices none w ≡ ok devices
      → root_source entries ≢ ""
      → on_first (find? (covers (root_source entries)) devices) path ≡ false
      → guard path w ≡ ok tt
  unfolding check_not_root_disk
  guard_open path w entries devices mounted listed known apart = rw (
    mounted,
    check_not_root_disk,
    ==-false (root_source entries) "" known,
    listed,
    find_root_disk_descendants_iff devices (root_source entries) path,
    apart,
  )

  abbrev pub covered_by : List MountEntry → List BlockDevice → String → Bool
  covered_by entries devices path = on_first (find? (covers (root_source entries)) devices) path

  guard_unread :
      (path : String) (w : W) (e : Error) → m.mounts.get_mounts w ≡ err e → guard path w ≡ ok tt
  unfolding check_not_root_disk
  guard_unread path w e failed = rw (failed, check_not_root_disk)

  guard_unknown :
      (path : String) (w : W) (entries : List MountEntry)
      → m.mounts.get_mounts w ≡ ok entries
      → (root_source entries == "") ≡ true
      → guard path w ≡ ok tt
  unfolding check_not_root_disk
  guard_unknown path w entries mounted unknown = rw (mounted, check_not_root_disk, unknown)

  guard_unlisted :
      (path : String) (w : W) (entries : List MountEntry) (e : Error)
      → m.mounts.get_mounts w ≡ ok entries
      → (root_source entries == "") ≡ false
      → m.lsblk.get_block_devices none w ≡ err e
      → guard path w ≡ ok tt
  unfolding check_not_root_disk
  guard_unlisted path w entries e mounted known failed =
      rw (mounted, check_not_root_disk, known, failed)

  passed :
      {A : Type 0} (path : String) (w : W) (e : Error)
      → guard path w ≡ err e
      → guard path w ≡ ok tt
      → A
  passed path w e refused open' = absurd (ok≢err (sym open' ∙ refused))

  guard_sound : (path : String) (w : W) (e : Error) → guard path w ≡ err e → OnRootDisk path w
  guard_sound path w e h = elim (Result-cases (m.mounts.get_mounts w)) [
    | inr (e', failed) ↦ passed path w e h (guard_unread path w e' failed)
    | inl (entries, mounted) ↦ elim (Bool-cases (root_source entries == "")) [
      | inl unknown ↦ passed path w e h (guard_unknown path w entries mounted unknown)
      | inr known ↦ elim (Result-cases (m.lsblk.get_block_devices none w)) [
        | inr (e', failed) ↦
            passed path w e h (guard_unlisted path w entries e' mounted known failed)
        | inl (devices, listed) ↦ elim (Bool-cases (covered_by entries devices path)) [
          | inr apart ↦ passed path w e h (
              guard_open path w entries devices mounted listed
                (ne_of_== (root_source entries) "" known) apart)
          | inl covered ↦ record {
            entries = entries;
            devices = devices;
            mounted = mounted;
            listed = listed;
            known = ne_of_== (root_source entries) "" known;
            covered = covered;
          }
        ]
      ]
    ]
  ]

  pub check_not_root_disk_iff :
      (path : String) (w : W)
      → ((e : Error) × (check_not_root_disk m path w ≡ err e)) ↔ OnRootDisk path w
  check_not_root_disk_iff path w = (
    λ r. guard_sound path w r.0 r.1,
    λ on. (refusal path (root_source on.entries), guard_refuses path w on),
  )

  -- `Mount` of a device on the root disk fails, with an error that names the device and the source of
  -- "/", and leaves the node as it was: no directory is made and nothing is mounted.
  pub mount_root_disk :
      (path : String) (w : W)
      → m.resolver.resolve_uuid m.config.uuid w ≡ ok path
      → (on : OnRootDisk path w) → mount m w ≡ (err (refusal path (root_source on.entries)), w)
  unfolding mount
  mount_root_disk path w resolved on = rw (resolved, mount) (rw (guard_refuses path w on))
