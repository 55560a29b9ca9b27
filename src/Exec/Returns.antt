-- ===== src/Exec/Returns.antt =====
-- What is known of the parts of an action that has succeeded.
use kubernetes_external_prov.Base.{List, Result, String, err, ok, ok≢err, refl, sym, wrap, ◌≡◌}
use kubernetes_external_prov.Exec.{Exec, continue, wrapped, ◌>>=◌}

module _ {W A B : Type 0} where
  continue-ok :
      (r : Result A) (f : A → Exec W B) (w : W) (b : B)
      → (continue r f w).0 ≡ ok b
      → (a : A) × (r ≡ ok a) × ((continue r f w) ≡ f a w) × ((f a w).0 ≡ ok b)
  continue-ok (ok a) f w b h = (a, refl, refl, h)
  continue-ok (err e) f w b h = absurd (ok≢err (sym h))

  -- The first part has succeeded, and the whole is what follows it, in the state that it left.
  pub >>=-ok :
      (m : Exec W A) (f : A → Exec W B) (w : W) (b : B)
      → ((m >>= f) w).0 ≡ ok b
      → (a : A) × ((m w).0 ≡ ok a) × ((m >>= f) w ≡ f a (m w).1) × ((f a (m w).1).0 ≡ ok b)
  >>=-ok m f w b h = continue-ok (m w).0 f (m w).1 b h

module _ {A : Type 0} where
  pub wrap-ok :
      (format : String) (args : List String) (r : Result A) {a : A}
      → wrap format args r ≡ ok a
      → r ≡ ok a
  wrap-ok format args (ok b) h = h
  wrap-ok format args (err e) h = absurd (ok≢err (sym h))

  pub wrapped-ok :
      {W : Type 0} (format : String) (args : List String) (m : Exec W A) (w : W) (a : A)
      → (wrapped format args m w).0 ≡ ok a
      → (m w).0 ≡ ok a
  wrapped-ok format args m w a h = wrap-ok format args (m w).0 h

module _ {W A B : Type 0} where
  -- The same where the error of the first part is wrapped.
  pub wrapped_bind-ok :
      (format : String) (args : List String) (m : Exec W A) (f : A → Exec W B) (w : W) (b : B)
      → ((wrapped format args m >>= f) w).0 ≡ ok b
      → (a : A) × ((m w).0 ≡ ok a)
        × ((wrapped format args m >>= f) w ≡ f a (m w).1)
        × ((f a (m w).1).0 ≡ ok b)
  wrapped_bind-ok format args m f w b h =
      let (a, done, same, out) = >>=-ok (wrapped format args m) f w b h in
      (a, wrapped-ok format args m w a done, same, out)
