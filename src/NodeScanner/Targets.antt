-- ===== src/NodeScanner/Targets.antt =====
-- Where a scan mounts.
use text.Mathlib.TextLemmas.{append_cancel_left}
use kubernetes_external_prov.Base.{All, List, String, ap, subst⁻¹, sym, ◌^^◌, ◌↔◌, ◌∙◌, ◌∷◌, ◌≡◌}
use kubernetes_external_prov.NodeScanner.{Machine, ScannerConfig, mounter_for}
use kubernetes_external_prov.Services.Mounter.{target}
use kubernetes_external_prov.Services.Paths.{path_join}
use kubernetes_external_prov.Services.Paths.Plain.{IsPlain, absolute, path_join-plain}

module _ {W : Type 0} (config : ScannerConfig) (machine : Machine W) where
  -- If the mount base is an absolute path whose elements are plain names (with no slash, not
  -- empty, not `.` and not `..`), and two UUIDs are plain names: the target at which the disk of
  -- the first is mounted is the base, a slash and the UUID, and the targets of the two are the
  -- same exactly if the UUIDs are.
  pub target-apart :
      (p : String) (ps : List String) (u v : String)
      → config.mount_base ≡ absolute (p ∷ ps)
      → All IsPlain (p ∷ ps)
      → IsPlain u
      → IsPlain v
      → (target (mounter_for config machine u) ≡ config.mount_base ^^ "/" ^^ u)
        × ((target (mounter_for config machine u) ≡ target (mounter_for config machine v))
            ↔ (u ≡ v))
  target-apart p ps u v based plain hu hv = (
    below u hu,
    (
      λ same. append_cancel_left "/" u v (
          append_cancel_left config.mount_base ("/" ^^ u) ("/" ^^ v)
            (sym (below u hu) ∙ same ∙ below v hv)),
      λ same. ap (λ w. target (mounter_for config machine w)) same,
    ),
  )
    where
      below :
          (w : String) → IsPlain w → path_join config.mount_base w ≡ config.mount_base ^^ "/" ^^ w
      below w h =
          subst⁻¹ (λ base. path_join base w ≡ base ^^ "/" ^^ w) based
            (path_join-plain p ps w plain h)
