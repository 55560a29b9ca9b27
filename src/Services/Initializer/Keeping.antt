-- ===== src/Services/Initializer/Keeping.antt =====
-- What the initializer leaves alone.
use kubernetes_external_prov.Base.{
  List, Result-cases, String, [], inl, inr, none, ok, refl, subst, true, ◌∙◌, ◌∷◌, ◌≡◌, ◌≢◌,
}
use kubernetes_external_prov.Exec.{wrapped}
use kubernetes_external_prov.Exec.Keeps.{Keeps, Keeps-bind, Keeps-if}
use kubernetes_external_prov.Fsutils.Device.{BlockDevice}
use kubernetes_external_prov.Providers.{FormatProvider, Lsblk}
use kubernetes_external_prov.Services.Initializer.{
  InitConfig, format_options, format_targets, init, init_targets,
}
use kubernetes_external_prov.Services.Initializer.Raw.{HasRaw, Member, targets_raw}

module _ {W : Type 0} (config : InitConfig) (format : FormatProvider W) where
  format_targets_dry :
      (devs : List String) (w : W)
      → config.dry_run ≡ true
      → format_targets config format devs w ≡ (ok tt, w)
  unfolding format_targets
  format_targets_dry [] w dry = refl
  format_targets_dry (dev ∷ devs) w dry = rw dry (format_targets_dry devs w dry)

  -- On a dry run, the world stays as it is, and the targets are reported with no error if lsblk gives
  -- its list.
  pub init_dry_run :
      (lsblk : Lsblk W) (w : W) (ds : List BlockDevice)
      → config.dry_run ≡ true
      → lsblk.get_block_devices none w ≡ ok ds
      → init config format lsblk w ≡ ((init_targets config ds, ok tt), w)
  unfolding init
  init_dry_run lsblk w ds dry listed =
      rw (listed, init) (rw (format_targets_dry (init_targets config ds) w dry))

  format_targets-Keeps :
      (P : W → Type 0) (devs : List String)
      → ((dev : String) → Member dev devs → Keeps P (format.format dev (format_options config)))
      → Keeps P (format_targets config format devs)
  unfolding format_targets
  format_targets-Keeps P [] h w p = p
  format_targets-Keeps P (dev ∷ devs) h w p =
      let later = format_targets-Keeps P devs (λ d m. h d (inr m)) in
      Keeps-if P config.dry_run (format_targets config format devs) _ (λ _. later)
        (λ _.
          Keeps-bind P
            (wrapped "format %q: %w" (dev ∷ []) (format.format dev (format_options config))) _
            (h dev (inl refl)) (λ _. later))
        w p

  -- What every format keeps, `Init` keeps.
  pub init-Keeps :
      (P : W → Type 0) (lsblk : Lsblk W)
      → ((dev : String) → Keeps P (format.format dev (format_options config)))
      → (w : W) → P w
      → P (init config format lsblk w).1
  unfolding init
  init-Keeps P lsblk h w p = elim (Result-cases (lsblk.get_block_devices none w)) [
    | inl (ds, listed) ↦
        rw (listed, init) (format_targets-Keeps P (init_targets config ds) (λ dev m. h dev) w p)
    | inr (e, failed) ↦ rw (failed, init) p
  ]

  -- Where lsblk gives its list, and formatting one device leaves the content of the others alone,
  -- the content of a device that is not a raw top-level device of that list (because it is
  -- partitioned, formatted, mounted, too small, or below another) is the same after `Init` as
  -- before, whether `Init` fails or not.
  pub init_content :
      {C : Type 0} (content : W → String → C) (lsblk : Lsblk W) (w : W) (ds : List BlockDevice)
      (x : String)
      → ((dev : String) (v : W)
          → dev ≢ x
          → content (format.format dev (format_options config) v).1 x ≡ content v x)
      → lsblk.get_block_devices none w ≡ ok ds
      → ¬ (HasRaw config ds x)
      → content (init config format lsblk w).1 x ≡ content w x
  unfolding init
  init_content content lsblk w ds x apart listed safe =
      rw (listed, init)
        (format_targets-Keeps (λ v. content v x ≡ content w x) (init_targets config ds)
          (λ dev m v p.
            apart dev v (λ e.
              safe
                ((targets_raw config ds x).0 (subst (λ y. Member y (init_targets config ds)) e m)))
            ∙ p)
          w refl)
