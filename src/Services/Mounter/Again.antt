-- ===== src/Services/Mounter/Again.antt =====
-- `Unmount` of what is not mounted.
use kubernetes_external_prov.Base.{
  Bool, Bool-cases, Error, IsErr, IsErr-ne_ok, Result, Result-cases, ap, err, false, inl, inr, ok,
  subst⁻¹, sym, true, ◌∙◌, ◌≡◌, ◌⊎◌,
}
use kubernetes_external_prov.Services.Mounter.{DeviceMounter, target, unmount, unmount_at}

module _ {W : Type 0} (m : DeviceMounter W) where
  -- The target directory is missing or is no mount point.
  abbrev pub IsIdle : W → Type 0
  IsIdle w =
      (m.files.is_missing (target m) w ≡ true)
      ⊎ (m.mounter.is_likely_not_mount_point (target m) w ≡ ok true)

  unmount_idle : (w : W) → IsIdle w → unmount m w ≡ (ok tt, w)
  unfolding unmount
  unmount_idle w (inl missing') = rw (missing', unmount)
  unmount_idle w (inr apart) = elim (Bool-cases (m.files.is_missing (target m) w)) [
    | inl missing' ↦ rw (missing', unmount)
    | inr there ↦ rw (there, unmount) (rw (apart, unmount_at))
  ]

  unmount_busy :
      (w : W)
      → m.files.is_missing (target m) w ≡ false
      → m.mounter.is_likely_not_mount_point (target m) w ≡ ok false
      → unmount m w ≡ unmount_at m false w
  unfolding unmount
  unmount_busy w there busy = rw (there, unmount) (rw busy)

  unmount_unknown :
      (w : W) (e : Error)
      → m.files.is_missing (target m) w ≡ false
      → m.mounter.is_likely_not_mount_point (target m) w ≡ err e
      → IsErr (unmount m w).0
  unfolding unmount
  unmount_unknown w e there failed = rw (there, unmount) (rw failed tt)

  unmount_failed :
      (w : W) (e : Error)
      → (m.mounter.unmount (target m) w).0 ≡ err e
      → IsErr (unmount_at m false w).0
  unfolding unmount_at
  unmount_failed w e failed = rw (failed, unmount_at) tt

  module _
      (gone : (w : W)
        → (m.mounter.unmount (target m) w).0 ≡ ok tt
        → IsIdle (m.files.remove (target m) (m.mounter.unmount (target m) w).1)) where
    unmount_at-IsIdle : (w : W) → (unmount_at m false w).0 ≡ ok tt → IsIdle (unmount_at m false w).1
    unfolding unmount_at
    unmount_at-IsIdle w h = elim (Result-cases (m.mounter.unmount (target m) w).0) [
      | inl (a, done) ↦ rw (done, unmount_at) (gone w done)
      | inr (e, failed) ↦ absurd (IsErr-ne_ok _ (unmount_failed w e failed) h)
    ]

    known-IsIdle :
        (w : W)
        → m.files.is_missing (target m) w ≡ false
        → (b : Bool) → m.mounter.is_likely_not_mount_point (target m) w ≡ ok b
        → (unmount m w).0 ≡ ok tt
        → IsIdle (unmount m w).1
    known-IsIdle w there true known h = rw (unmount_idle w (inr known)) (inr known)
    known-IsIdle w there false known h =
        let busy = unmount_busy w there known in
        subst⁻¹ (λ (r : Result (Unit {0}) × W). IsIdle r.1) busy
          (unmount_at-IsIdle w (ap (λ (r : Result (Unit {0}) × W). r.0) (sym busy) ∙ h))

    unmount-IsIdle : (w : W) → (unmount m w).0 ≡ ok tt → IsIdle (unmount m w).1
    unmount-IsIdle w h = elim (Bool-cases (m.files.is_missing (target m) w)) [
      | inl missing' ↦ rw (unmount_idle w (inl missing')) (inl missing')
      | inr there ↦ elim (Result-cases (m.mounter.is_likely_not_mount_point (target m) w)) [
        | inr (e, failed) ↦ absurd (IsErr-ne_ok _ (unmount_unknown w e there failed) h)
        | inl (apart, known) ↦ known-IsIdle w there apart known h
      ]
    ]

    -- After an `Unmount` that succeeds, another one succeeds and changes nothing, if a device that is
    -- unmounted, and its directory removed where that is possible, leaves no mount point there.
    pub unmount-again :
        (w : W) → (unmount m w).0 ≡ ok tt → unmount m (unmount m w).1 ≡ (ok tt, (unmount m w).1)
    unmount-again w h = unmount_idle (unmount m w).1 (unmount-IsIdle w h)
