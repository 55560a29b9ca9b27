-- ===== src/Exec.antt =====
-- Go functions that act on the node or on the cluster and may return an error: they take the state of
-- the world, and give a result and the state that they leave, also beside an error.
pub mod Keeps
pub mod Returns
use kubernetes_external_prov.Base.{Error, List, Result, String, err, ok, wrap}

abbrev pub Exec : Type 0 → Type 0 → Type 0
Exec W A = W → Result A × W

module _ {W A : Type 0} where
  abbrev pub pure : A → Exec W A
  pure a w = (ok a, w)

  abbrev pub raise : Error → Exec W A
  raise e w = (err e, w)

  -- A call that cannot change the world.
  abbrev pub lift : Result A → Exec W A
  lift r w = (r, w)

  -- A call that reads the world.
  abbrev pub gets : (W → Result A) → Exec W A
  gets f w = (f w, w)

  -- An error of the call is wrapped, as `fmt.Errorf(format, args..., err)`.
  abbrev pub wrapped : String → List String → Exec W A → Exec W A
  wrapped format args m w = (wrap format args (m w).0, (m w).1)

module _ {W A B : Type 0} where
  abbrev pub continue : Result A → (A → Exec W B) → Exec W B
  continue (ok a) f w = f a w
  continue (err e) f w = (err e, w)

  infixl 5 ◌>>=◌ ◌>>◌
  abbrev pub ◌>>=◌ : Exec W A → (A → Exec W B) → Exec W B
  ◌>>=◌ m f w = continue (m w).0 f (m w).1

  abbrev pub ◌>>◌ : Exec W A → Exec W B → Exec W B
  m >> n = m >>= λ _. n
