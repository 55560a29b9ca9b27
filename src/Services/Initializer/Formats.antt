-- ===== src/Services/Initializer/Formats.antt =====
-- What the initializer formats.
use kubernetes_external_prov.Base.{
  Bool-cases, Error, List, Result, Result-cases, String, [], ap, eq_of_==, err, false, inl, inr,
  ne_of_==, none, ok, ok≢err, subst, subst⁻¹, sym, wrapf, ◌==◌, ◌∙◌, ◌∷◌, ◌≡◌, ◌≢◌,
}
use kubernetes_external_prov.Fsutils.Device.{BlockDevice}
use kubernetes_external_prov.Providers.{FormatProvider, Lsblk}
use kubernetes_external_prov.Services.Initializer.{
  InitConfig, format_options, format_targets, init, init_targets,
}
use kubernetes_external_prov.Services.Initializer.Raw.{HasRaw, Member, targets_raw}

module _ {W : Type 0} (config : InitConfig) (format : FormatProvider W) where
  format_targets-ok :
      (dev : String) (devs : List String) (w : W)
      → config.dry_run ≡ false
      → (format.format dev (format_options config) w).0 ≡ ok tt
      → format_targets config format (dev ∷ devs) w
        ≡ format_targets config format devs (format.format dev (format_options config) w).1
  unfolding format_targets
  format_targets-ok dev devs w wet fine = rw (wet, format_targets, fine)

  format_targets-err :
      (dev : String) (devs : List String) (w : W) (e : Error)
      → config.dry_run ≡ false
      → (format.format dev (format_options config) w).0 ≡ err e
      → (format_targets config format (dev ∷ devs) w).0 ≡ err (wrapf "format %q: %w" (dev ∷ []) e)
  unfolding format_targets
  format_targets-err dev devs w e wet failed = rw (wet, format_targets, failed)

  module _ (Done : String → W → Type 0)
      (does : (dev : String) (v : W)
        → (format.format dev (format_options config) v).0 ≡ ok tt
        → Done dev (format.format dev (format_options config) v).1)
      (apart : (dev x : String) (v : W)
        → dev ≢ x
        → (format.format dev (format_options config) v).0 ≡ ok tt
        → Done x v
        → Done x (format.format dev (format_options config) v).1) where
    format-stays :
        (dev x : String) (v : W)
        → (format.format dev (format_options config) v).0 ≡ ok tt
        → Done x v
        → Done x (format.format dev (format_options config) v).1
    format-stays dev x v fine d = elim (Bool-cases (dev == x)) [
      | inl same ↦
          subst (λ y. Done y (format.format dev (format_options config) v).1) (eq_of_== dev x same)
            (does dev v fine)
      | inr differs ↦ apart dev x v (ne_of_== dev x differs) fine d
    ]

    -- The state from which the rest of the targets is formatted, with success.
    rest_succeeds :
        (dev : String) (devs : List String) (w : W)
        → config.dry_run ≡ false
        → (format_targets config format (dev ∷ devs) w).0 ≡ ok tt
        → ((format.format dev (format_options config) w).0 ≡ ok tt)
          × (format_targets config format (dev ∷ devs) w
              ≡ format_targets config format devs (format.format dev (format_options config) w).1)
          × ((format_targets config format devs (format.format dev (format_options config) w).1).0
              ≡ ok tt)
    rest_succeeds dev devs w wet h =
        elim (Result-cases (format.format dev (format_options config) w).0) [
          | inl (a, fine) ↦
              let same = format_targets-ok dev devs w wet fine in
              (fine, same, ap (λ (r : Result (Unit {0}) × W). r.0) (sym same) ∙ h)
          | inr (e, failed) ↦ absurd (ok≢err (sym h ∙ format_targets-err dev devs w e wet failed))
        ]

    format_targets-stays :
        (devs : List String) (x : String) (w : W)
        → config.dry_run ≡ false
        → (format_targets config format devs w).0 ≡ ok tt
        → Done x w
        → Done x (format_targets config format devs w).1
    unfolding format_targets
    format_targets-stays [] x w wet h d = d
    format_targets-stays (dev ∷ devs) x w wet h d =
        let (fine, same, later) = rest_succeeds dev devs w wet h in
        subst⁻¹ (λ (r : Result (Unit {0}) × W). Done x r.1) same
          (format_targets-stays devs x (format.format dev (format_options config) w).1 wet later
            (format-stays dev x w fine d))

    format_targets-Done :
        (devs : List String) (x : String) (w : W)
        → config.dry_run ≡ false
        → (format_targets config format devs w).0 ≡ ok tt
        → Member x devs
        → Done x (format_targets config format devs w).1
    format_targets-Done [] x w wet h m = absurd m
    format_targets-Done (dev ∷ devs) x w wet h (inl e) =
        let (fine, same, later) = rest_succeeds dev devs w wet h in
        subst⁻¹ (λ (r : Result (Unit {0}) × W). Done x r.1) same
          (format_targets-stays devs x (format.format dev (format_options config) w).1 wet later (
            subst (λ y. Done y (format.format dev (format_options config) w).1) e
              (does dev w fine)))
    format_targets-Done (dev ∷ devs) x w wet h (inr m) =
        let (fine, same, later) = rest_succeeds dev devs w wet h in
        subst⁻¹ (λ (r : Result (Unit {0}) × W). Done x r.1) same
          (format_targets-Done devs x (format.format dev (format_options config) w).1 wet later m)

    -- If lsblk gives its list, and `Init` succeeds and is no dry run, every raw device of the list
    -- is formatted, if a format that succeeds makes it so and one of another device that succeeds
    -- does not undo it.
    pub init_formats :
        (lsblk : Lsblk W) (w : W) (ds : List BlockDevice) (x : String)
        → config.dry_run ≡ false
        → lsblk.get_block_devices none w ≡ ok ds
        → (init config format lsblk w).0.1 ≡ ok tt
        → HasRaw config ds x
        → Done x (init config format lsblk w).1
    unfolding init
    init_formats lsblk w ds x wet listed =
        rw (listed, init)
          (λ h raw.
            format_targets-Done (init_targets config ds) x w wet h
              ((targets_raw config ds x).1 raw))
