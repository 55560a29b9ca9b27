-- ===== src/Providers/Format/Laws.antt =====
-- What formatting leaves alone, and what has run when it succeeds.
use kubernetes_external_prov.Base.{
  Bool-cases, IsErr-ne_ok, Result-cases, String, [], inl, inr, ok, ◌^^◌, ◌∷◌, ◌≡◌,
}
use kubernetes_external_prov.Exec.{wrapped}
use kubernetes_external_prov.Exec.Keeps.{Keeps, Keeps-bind, Keeps-if}
use kubernetes_external_prov.Fsutils.FsType.{is_valid_fs_type}
use kubernetes_external_prov.Providers.{FormatOptions}
use kubernetes_external_prov.Providers.Format.{Mkfs, format, mkfs_args}

module _ {W : Type 0} (mkfs : Mkfs W) (P : W → Type 0) (syncs : (w : W) → P w → P (mkfs.sync w))
    (settles : (w : W) → P w → P (mkfs.settle w)) where
  -- What the run of mkfs on the device, sync and settle keep, `Format` keeps.
  pub format-Keeps :
      (dev : String) (opts : FormatOptions)
      → ((c : String) → Keeps P (mkfs.run c (mkfs_args dev opts)))
      → Keeps P (format mkfs dev opts)
  unfolding format
  format-Keeps dev opts runs =
      Keeps-if P (is_valid_fs_type opts.fs_type) _ _
        (λ _.
          Keeps-bind P
            (wrapped "mkfs.%s %q failed: %w" (opts.fs_type ∷ dev ∷ [])
              (mkfs.run ("mkfs." ^^ opts.fs_type) (mkfs_args dev opts)))
            _ (runs ("mkfs." ^^ opts.fs_type)) (λ _ w p. settles (mkfs.sync w) (syncs w p)))
        (λ _ w p. p)

-- A format that succeeds has run mkfs with success, and then sync and settle.
pub format_ran :
    {W : Type 0} (mkfs : Mkfs W) (dev : String) (opts : FormatOptions) (w : W)
    → (format mkfs dev opts w).0 ≡ ok tt
    → ((mkfs.run ("mkfs." ^^ opts.fs_type) (mkfs_args dev opts) w).0 ≡ ok tt)
      × ((format mkfs dev opts w).1
          ≡ mkfs.settle (mkfs.sync (mkfs.run ("mkfs." ^^ opts.fs_type) (mkfs_args dev opts) w).1))
unfolding format
format_ran mkfs dev opts w h = elim (Bool-cases (is_valid_fs_type opts.fs_type)) [
  | inl valid ↦ elim (Result-cases (mkfs.run ("mkfs." ^^ opts.fs_type) (mkfs_args dev opts) w).0) [
    | inl (a, ran) ↦ (ran, rw (valid, ran))
    | inr (e, failed) ↦ absurd (IsErr-ne_ok _ (rw (valid, failed) tt) h)
  ]
  | inr refused ↦ absurd (IsErr-ne_ok _ (rw refused tt) h)
]
