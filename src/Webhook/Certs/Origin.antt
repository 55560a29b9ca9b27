-- ===== src/Webhook/Certs/Origin.antt =====
-- Where the certificates that `EnsureTLSSecret` returns come from.
use kubernetes_external_prov.Base.{
  Dict, Option, Result, String, err, ok, ok-injective, ok≢err, refl, some, subst, sym, ◌∙◌, ◌≡◌,
}
use kubernetes_external_prov.Exec.{Exec}
use kubernetes_external_prov.Webhook.Certs.{
  Certs, CreateAnswer, GetAnswer, SecretApi, already_exists, certs_of, create_failed, created_now,
  ensure_created, ensure_generated, ensure_got, ensure_raced, ensure_tls_secret, get_failed,
  secret_found, secret_missing, secret_of,
}
use kubernetes_external_prov.Webhook.Certs.Agreement.{ApiLaws}

-- Certificates in the secret, if there is one, have the property.
abbrev pub IsGood : {W : Type 0} → (W → Option (Dict String)) → (Certs → Type 0) → W → Type 0
IsGood stored P w = (s : Dict String) → stored w ≡ some s → P (certs_of s)

module _ {W : Type 0} (api : SecretApi W) (generate : Exec W Certs)
    (stored : W → Option (Dict String)) (laws : ApiLaws api generate stored)
    (namespace name : String) (P : Certs → Type 0) where
  got-IsGood :
      (w : W) (a : GetAnswer)
      → api.get w ≡ a
      → IsGood stored P w
      → (certs : Certs) → (ensure_raced api generate namespace name a w).0 ≡ ok certs
      → P certs
  got-IsGood w (secret_found s) e good certs h =
      subst P (ok-injective h) (good s (laws.gives w s e))
  got-IsGood w (secret_missing e) f good certs h = absurd (ok≢err (sym h))
  got-IsGood w (get_failed e) f good certs h = absurd (ok≢err (sym h))

  -- A create that finds the secret there leaves a good one, whoever has put it there.
  module _
      (others : (s : Dict String) (w : W)
        → (api.create s w).0 ≡ already_exists
        → IsGood stored P w
        → IsGood stored P (api.create s w).1) where
    created-good :
        (certs : Certs) (w : W) (a : CreateAnswer)
        → (api.create (secret_of certs) w).0 ≡ a
        → P certs
        → IsGood stored P w
        → (c : Certs)
        → (ensure_created api generate namespace name certs a (api.create (secret_of certs) w).1).0
          ≡ ok c
        → P c
    created-good certs w created_now e p good c h = subst P (ok-injective h) p
    created-good certs w already_exists e p good c h =
        got-IsGood (api.create (secret_of certs) w).1 _ refl (others (secret_of certs) w e good) c h
    created-good certs w (create_failed f) e p good c h = absurd (ok≢err (sym h))

    generated-good :
        (r : Result Certs) (w : W)
        → ((certs : Certs) → r ≡ ok certs → P certs)
        → IsGood stored P w
        → (c : Certs) → (ensure_generated api generate namespace name r w).0 ≡ ok c
        → P c
    generated-good (err e) w p good c h = absurd (ok≢err (sym h))
    generated-good (ok certs) w p good c h = created-good certs w _ refl (p certs refl) good c h

    ensured-good :
        (a : GetAnswer) (w : W)
        → ((certs : Certs) → (generate w).0 ≡ ok certs → P certs)
        → api.get w ≡ a
        → IsGood stored P w
        → (c : Certs) → (ensure_got api generate namespace name a w).0 ≡ ok c
        → P c
    ensured-good (secret_found s) w made e good c h =
        subst P (ok-injective h) (good s (laws.gives w s e))
    ensured-good (secret_missing f) w made e good c h =
        generated-good (generate w).0 (generate w).1 made
          (λ s there. good s (sym (laws.quiet w) ∙ there)) c h
    ensured-good (get_failed f) w made e good c h = absurd (ok≢err (sym h))

    -- What holds of the certificates that are generated then, and of those in the secret, holds of
    -- those that `EnsureTLSSecret` returns.
    pub ensure_tls_secret-origin :
        (w : W)
        → ((certs : Certs) → (generate w).0 ≡ ok certs → P certs)
        → IsGood stored P w
        → (certs : Certs) → (ensure_tls_secret api generate namespace name w).0 ≡ ok certs
        → P certs
    unfolding ensure_tls_secret
    ensure_tls_secret-origin w made good certs h = ensured-good (api.get w) w made refl good certs h
