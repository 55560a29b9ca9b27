-- ===== src/Services/Mounter/Allowed.antt =====
-- Which mounts `Mount` may make.
use kubernetes_external_prov.Base.{
  Bool, Bool-cases, Option, Result-cases, String, [], arith, eq_iff, eq_of_==, false, false≢true,
  inl, inr, ne_of_==, none, ok, ok≢err, read, some, sym, true, ◌==◌, ◌∙◌, ◌∷◌, ◌≡◌, ◌≢◌, ◌⊎◌,
}
use kubernetes_external_prov.Exec.{gets, wrapped}
use kubernetes_external_prov.Exec.Keeps.{Keeps, Keeps-bind}
use kubernetes_external_prov.Fsutils.Device.{BlockDevice, properties}
use kubernetes_external_prov.Services.Mounter.{
  DeviceMounter, check_label, check_not_root_disk, choose_fs_type, mount, mount_at, mount_dir,
  read_info, target,
}
use kubernetes_external_prov.Services.Mounter.RootGuard.{OnRootDisk, check_not_root_disk_iff}

module _ {W : Type 0} (m : DeviceMounter W) where
  -- The filesystem type that is passed on: the configured one, or else that of the device.
  abbrev pub IsTypeOf : String → W → String → Type 0
  IsTypeOf path w fs_type =
      ((m.config.fs_type ≢ "") × (fs_type ≡ m.config.fs_type))
      ⊎ ((m.config.fs_type ≡ "")
          × ((d : BlockDevice) × (m.lsblk.get_block_device path w ≡ ok d)
              × ((properties d).fstype ≡ fs_type)
              × (fs_type ≢ "")))

  -- What `Mount` has checked in the state `w` when it mounts `path` with `fs_type`.
  pub record IsAllowed (w : W) (path fs_type : String) : Type 0 where
    pub resolved : m.resolver.resolve_uuid m.config.uuid w ≡ ok path
    pub off_root : ¬ (OnRootDisk m path w)
    pub labelled :
        m.config.managed_only ≡ true
        → (d : BlockDevice) × (m.lsblk.get_block_device path w ≡ ok d)
          × ((properties d).label ≡ m.config.require_label)
    pub typed : IsTypeOf path w fs_type

  -- Where the description was read, it was of the device.
  abbrev IsInfo : String → W → Option BlockDevice → Type 0
  IsInfo path w none = (m.config.managed_only ≡ false) × (m.config.fs_type ≢ "")
  IsInfo path w (some d) =
      (m.lsblk.get_block_device path w ≡ ok d)
      × (m.config.managed_only ≡ true → (properties d).label ≡ m.config.require_label)

  read_info-some :
      (path : String) (w : W) (d : BlockDevice)
      → read_info m path w ≡ ok (some d)
      → m.lsblk.get_block_device path w ≡ ok d
  unfolding read_info
  read_info-some path w d h = ground arith

  read_info-none :
      (path : String) (w : W)
      → read_info m path w ≡ ok none
      → (m.config.managed_only ≡ false) × (m.config.fs_type ≢ "")
  unfolding read_info
  read_info-none path w h = (ground arith, ground (arith, eq_iff m.config.fs_type ""))

  IsInfo-sound :
      (path : String) (w : W) (i : Option BlockDevice)
      → read_info m path w ≡ ok i
      → check_label m path i ≡ ok tt
      → IsInfo path w i
  unfolding check_label
  IsInfo-sound path w none read labelled = read_info-none path w read
  IsInfo-sound path w (some d) read labelled = (
    read_info-some path w d read,
    λ managed. ground (arith, eq_iff (properties d).label m.config.require_label),
  )

  type_sound :
      (path : String) (w : W) (i : Option BlockDevice) (fs_type : String)
      → IsInfo path w i
      → choose_fs_type m path i ≡ ok fs_type
      → IsTypeOf path w fs_type
  unfolding choose_fs_type
  type_sound path w none fs_type h chosen = inl (h.1, ground (arith, eq_iff m.config.fs_type ""))
  type_sound path w (some d) fs_type h chosen = elim (Bool-cases (m.config.fs_type == "")) [
    | inl unset ↦ inr (
      eq_of_== _ _ unset,
      (d, h.0, ground arith, ground (arith, eq_iff (properties d).fstype "")),
    )
    | inr set ↦ inl (ne_of_== _ _ set, ground arith)
  ]

  label_of :
      (path : String) (w : W) (i : Option BlockDevice)
      → IsInfo path w i
      → m.config.managed_only ≡ true
      → (d : BlockDevice) × (m.lsblk.get_block_device path w ≡ ok d)
        × ((properties d).label ≡ m.config.require_label)
  label_of path w none h managed = absurd (false≢true (sym h.0 ∙ managed))
  label_of path w (some d) h managed = (d, h.0, h.1 managed)

  allowed :
      (w : W) (path fs_type : String) (i : Option BlockDevice)
      → m.resolver.resolve_uuid m.config.uuid w ≡ ok path
      → check_not_root_disk m path w ≡ ok tt
      → read_info m path w ≡ ok i
      → check_label m path i ≡ ok tt
      → choose_fs_type m path i ≡ ok fs_type
      → IsAllowed w path fs_type
  allowed w path fs_type i resolved off read labelled chosen = record {
    resolved = resolved;
    off_root = λ on. absurd (ok≢err (sym off ∙ ((check_not_root_disk_iff m path w).1 on).1));
    labelled = label_of path w i (IsInfo-sound path w i read labelled);
    typed = type_sound path w i fs_type (IsInfo-sound path w i read labelled) chosen;
  }

  module _ (P : W → Type 0) (keeps_mkdir : Keeps P (m.files.mkdir_all (target m) 0o750)) where
    mount_at-keeps :
        (w : W) (path : String) (i : Option BlockDevice) (b : Bool) (v : W)
        → ((fs_type : String)
            → choose_fs_type m path i ≡ ok fs_type
            → P v
            → P (m.mounter.mount path (target m) fs_type m.config.options v).1)
        → P v
        → P (mount_at m path i b v).1
    unfolding mount_at
    mount_at-keeps w path i false v h p = p
    mount_at-keeps w path i true v h p = elim (Result-cases (choose_fs_type m path i)) [
      | inl (fs_type, chosen) ↦ rw chosen (h fs_type chosen p)
      | inr (e, failed) ↦ rw failed p
    ]

    mount_dir-keeps :
        (path : String) (i : Option BlockDevice) (w : W)
        → ((fs_type : String) (v : W)
            → choose_fs_type m path i ≡ ok fs_type
            → P v
            → P (m.mounter.mount path (target m) fs_type m.config.options v).1)
        → P w
        → P (mount_dir m path i w).1
    unfolding mount_dir
    mount_dir-keeps path i w h =
        Keeps-bind P
          (wrapped "create mount target %q: %w" (target m ∷ [])
            (m.files.mkdir_all (target m) 0o750))
          _ keeps_mkdir
          (λ _.
            Keeps-bind P
              (wrapped "check mount point %q: %w" (target m ∷ [])
                (gets (m.mounter.is_likely_not_mount_point (target m))))
              _ (λ v p. p) (λ b v p. mount_at-keeps w path i b v (λ fs_type. h fs_type v) p))
          w

    -- What holds of the node, and is kept by making the target directory and by mounting a device
    -- that `Mount` may mount there, holds after `Mount`, whether it fails or not. The device is
    -- the one that the UUID resolves to; it is not known to be on the root disk (that is known
    -- where the mounts and the block devices can be read, "/" is mounted from a source, and the
    -- device and that source are of one disk); it carries the required label if only managed
    -- devices may be mounted; and the filesystem type is the configured one or else its own.
    pub mount_allowed :
        (w : W)
        → ((path fs_type : String) (v : W)
            → IsAllowed w path fs_type
            → P v
            → P (m.mounter.mount path (target m) fs_type m.config.options v).1)
        → P w
        → P (mount m w).1
    unfolding mount
    mount_allowed w h p = elim (Result-cases (m.resolver.resolve_uuid m.config.uuid w)) [
      | inr (e, failed) ↦ rw (failed, mount) p
      | inl (path, resolved) ↦ elim (Result-cases (check_not_root_disk m path w)) [
        | inr (e, refused) ↦ rw (resolved, mount) (rw refused p)
        | inl (a, off) ↦ elim (Result-cases (read_info m path w)) [
          | inr (e, unread) ↦ rw (resolved, mount) (rw (off, unread) p)
          | inl (i, read) ↦ elim (Result-cases (check_label m path i)) [
            | inr (e, foreign) ↦ rw (resolved, mount) (rw (off, read) (rw foreign p))
            | inl (b, labelled) ↦
                rw (resolved, mount)
                  (rw (off, read)
                    (rw labelled (
                      mount_dir-keeps path i w
                        (λ fs_type v chosen.
                          h path fs_type v
                            (allowed w path fs_type i resolved off read labelled chosen))
                        p)))
          ]
        ]
      ]
    ]
