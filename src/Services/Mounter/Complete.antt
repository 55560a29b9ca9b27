-- ===== src/Services/Mounter/Complete.antt =====
-- `Mount` mounts what it may mount.
use kubernetes_external_prov.Base.{
  ==-false, Bool, Bool-cases, Option, Result-cases, String, ap, arith, eq_iff, false, if◌then◌else◌,
  inl, inr, none, ok, ok-injective, refl, some, sym, true, ◌∙◌, ◌≡◌, ◌≢◌,
}
use kubernetes_external_prov.Fsutils.Device.{BlockDevice, properties}
use kubernetes_external_prov.Services.Mounter.{
  DeviceMounter, check_label, check_not_root_disk, choose_fs_type, mount, mount_at, mount_dir,
  read_info, target,
}
use kubernetes_external_prov.Services.Mounter.Allowed.{IsAllowed, IsTypeOf}
use kubernetes_external_prov.Services.Mounter.RootGuard.{OnRootDisk, check_not_root_disk_iff}

module _ {W : Type 0} (m : DeviceMounter W) where
  off_root-passes :
      (path : String) (w : W) → ¬ (OnRootDisk m path w) → check_not_root_disk m path w ≡ ok tt
  off_root-passes path w off = elim (Result-cases (check_not_root_disk m path w)) [
    | inl (u, passed) ↦ passed
    | inr (e, failed) ↦ absurd (off ((check_not_root_disk_iff m path w).0 (e, failed)))
  ]

  -- What is read of the device, and passes the tests.
  record HasPassed (w : W) (path fs_type : String) : Type 0 where
    info : Option BlockDevice
    read_out : read_info m path w ≡ ok info
    labelled : check_label m path info ≡ ok tt
    typed : choose_fs_type m path info ≡ ok fs_type

  own_type :
      (path fs_type : String) (d : BlockDevice)
      → m.config.fs_type ≡ ""
      → (properties d).fstype ≡ fs_type
      → fs_type ≢ ""
      → choose_fs_type m path (some d) ≡ ok fs_type
  unfolding choose_fs_type
  own_type path fs_type d unset same set =
      rw (unset, ==-false (properties d).fstype "" (λ e. set (sym same ∙ e))) (ap ok same)

  managed-HasPassed :
      (w : W) (path fs_type : String) (d : BlockDevice)
      → m.config.managed_only ≡ true
      → m.lsblk.get_block_device path w ≡ ok d
      → (properties d).label ≡ m.config.require_label
      → IsTypeOf m path w fs_type
      → HasPassed w path fs_type
  unfolding read_info check_label choose_fs_type
  managed-HasPassed w path fs_type d managed got label (inl (set, same)) = record {
    info = some d;
    read_out = rw managed (rw got);
    labelled = ground (arith, eq_iff (properties d).label m.config.require_label);
    typed = rw (==-false m.config.fs_type "" set, same);
  }
  managed-HasPassed w path fs_type d managed got label (inr (unset, (e, got', same, set))) =
      record {
        info = some d;
        read_out = rw managed (rw got);
        labelled = ground (arith, eq_iff (properties d).label m.config.require_label);
        typed =
            own_type path fs_type d unset
              (ap (λ x. (properties x).fstype) (ok-injective (sym got ∙ got')) ∙ same) set;
      }

  unmanaged-HasPassed :
      (w : W) (path fs_type : String)
      → m.config.managed_only ≡ false
      → IsTypeOf m path w fs_type
      → HasPassed w path fs_type
  unfolding read_info check_label choose_fs_type
  unmanaged-HasPassed w path fs_type unmanaged (inl (set, same)) = record {
    info = none;
    read_out = rw (unmanaged, ==-false m.config.fs_type "" set);
    labelled = rw unmanaged;
    typed = rw (==-false m.config.fs_type "" set, same);
  }
  unmanaged-HasPassed w path fs_type unmanaged (inr (unset, (d, got, same, set))) = record {
    info = some d;
    read_out = rw (unmanaged, unset) (rw got);
    labelled = rw unmanaged;
    typed = own_type path fs_type d unset same set;
  }

  IsAllowed-HasPassed :
      (w : W) (path fs_type : String) → IsAllowed m w path fs_type → HasPassed w path fs_type
  IsAllowed-HasPassed w path fs_type h = elim (Bool-cases m.config.managed_only) [
    | inl managed ↦
        let (d, got, label) = h.labelled managed in
        managed-HasPassed w path fs_type d managed got label h.typed
    | inr unmanaged ↦ unmanaged-HasPassed w path fs_type unmanaged h.typed
  ]

  -- Where the UUID resolves to a device that may be mounted (not known to be on the root disk,
  -- labelled if only managed devices may be, with a filesystem type from the configuration or its
  -- own), its target directory can be made, and the test of the mount point answers: `Mount` is
  -- the mount of that device at its target with that type and the options, or, where the target is
  -- a mount point already, leaves the node as it is and succeeds.
  pub mount_complete :
      (w v : W) (path fs_type : String) (unmounted : Bool)
      → IsAllowed m w path fs_type
      → m.files.mkdir_all (target m) 0o750 w ≡ (ok tt, v)
      → m.mounter.is_likely_not_mount_point (target m) v ≡ ok unmounted
      → mount m w ≡ (
          if unmounted
          then m.mounter.mount path (target m) fs_type m.config.options v
          else (ok tt, v))
  unfolding mount mount_dir mount_at
  mount_complete w v path fs_type unmounted h made asked =
      let passed = IsAllowed-HasPassed w path fs_type h in
      rw (h.resolved, mount)
        (rw (off_root-passes path w h.off_root) (
          rw passed.read_out
            (rw passed.labelled (rw (made, mount_dir) (rw asked (at_target unmounted passed))))))
    where
      at_target :
          (b : Bool) (passed : HasPassed w path fs_type)
          → mount_at m path passed.info b v
            ≡ (if b then m.mounter.mount path (target m) fs_type m.config.options v else (ok tt, v))
      at_target false passed = refl
      at_target true passed = rw passed.typed
