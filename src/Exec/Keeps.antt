-- ===== src/Exec/Keeps.antt =====
-- Invariants of actions: what holds of the world before holds after, whether the action fails or not.
use kubernetes_external_prov.Base.{Bool, Result, err, false, if◌then◌else◌, ok, refl, true, ◌≡◌}
use kubernetes_external_prov.Exec.{Exec, continue, ◌>>=◌}

abbrev pub Keeps : {W A : Type 0} → (W → Type 0) → Exec W A → Type 0
Keeps {W} P m = (w : W) → P w → P (m w).1

module _ {W : Type 0} (P : W → Type 0) where
  continue-Keeps :
      {A B : Type 0} (r : Result A) (f : A → Exec W B)
      → ((a : A) → Keeps P (f a))
      → Keeps P (continue r f)
  continue-Keeps (ok a) f h w p = h a w p
  continue-Keeps (err e) f h w p = p

  pub Keeps-bind :
      {A B : Type 0} (m : Exec W A) (f : A → Exec W B)
      → Keeps P m
      → ((a : A) → Keeps P (f a))
      → Keeps P (m >>= f)
  Keeps-bind m f hm hf w p = continue-Keeps (m w).0 f hf (m w).1 (hm w p)

  pub Keeps-if :
      {A : Type 0} (test : Bool) (taken missed : Exec W A)
      → (test ≡ true → Keeps P taken)
      → (test ≡ false → Keeps P missed)
      → Keeps P (if test then taken else missed)
  Keeps-if true taken missed h _ = h refl
  Keeps-if false taken missed _ h = h refl
