-- ===== src/Webhook/Certs/Alone.antt =====
-- One call of `EnsureTLSSecret`, from the step that is taken at each call of the client.
use kubernetes_external_prov.Base.{
  Dict, Option, Result, String, ap, err, ok, refl, some, subst, ◌≡◌,
}
use kubernetes_external_prov.Exec.{Exec}
use kubernetes_external_prov.Webhook.Certs.{
  Certs, CreateAnswer, GetAnswer, Phase, SecretApi, after_create, after_generate, after_get,
  after_race, already_exists, certs_of, create_failed, created_now, ensure_created,
  ensure_generated, ensure_got, ensure_raced, ensure_tls_secret, get_failed, returned, secret_found,
  secret_missing, starting, step,
}
use kubernetes_external_prov.Webhook.Certs.Agreement.{ApiLaws, IsAgreed, step-IsAgreed, step-keeps}

module _ {W : Type 0} (api : SecretApi W) (generate : Exec W Certs) (namespace name : String) where
  abbrev after : Phase → W → Phase × W
  after = step api generate namespace name

  -- The end of the code with this result, in this state.
  abbrev ended : Result Certs × W → Phase × W
  ended r = (returned r.0, r.1)

  raced-ended :
      (a : GetAnswer) (w : W)
      → (after_race api generate namespace name a, w)
        ≡ ended (ensure_raced api generate namespace name a w)
  raced-ended (secret_found s) w = refl
  raced-ended (secret_missing e) w = refl
  raced-ended (get_failed e) w = refl

  created-ended :
      (certs : Certs) (a : CreateAnswer) (w : W)
      → after (after_create api generate namespace name certs a) w
        ≡ ended (ensure_created api generate namespace name certs a w)
  unfolding step
  created-ended certs created_now w = refl
  created-ended certs already_exists w = raced-ended (api.get w) w
  created-ended certs (create_failed e) w = refl

  generated-ended :
      (r : Result Certs) (w : W)
      → after
          (after_generate api generate namespace name r w).0
          (after_generate api generate namespace name r w).1
        ≡ ended (ensure_generated api generate namespace name r w)
  unfolding step
  generated-ended (err e) w = refl
  generated-ended (ok certs) w = created-ended certs _ _

  got-ended :
      (a : GetAnswer) (w : W)
      → after
          (after (after_get api generate namespace name a) w).0
          (after (after_get api generate namespace name a) w).1
        ≡ ended (ensure_got api generate namespace name a w)
  unfolding step
  got-ended (secret_found s) w = refl
  got-ended (secret_missing e) w = generated-ended (generate w).0 (generate w).1
  got-ended (get_failed e) w = refl

  -- Three steps of a replica, with none of another between them, are a call of `EnsureTLSSecret`.
  step-ensure_tls_secret :
      (w : W)
      → let one = after starting w in
        let two = after one.0 one.1 in
        after two.0 two.1 ≡ (
          returned (ensure_tls_secret api generate namespace name w).0,
          (ensure_tls_secret api generate namespace name w).1,
        )
  unfolding step ensure_tls_secret
  step-ensure_tls_secret w = got-ended (api.get w) w

  -- The certificates that are returned are those of the secret that is stored then, and a secret that was
  -- there before is stored still.
  pub record IsEnsured (stored : W → Option (Dict String)) (w : W) (r : Result Certs × W)
      : Type 0 where
    pub current :
        (certs : Certs)
        → r.0 ≡ ok certs
        → (s : Dict String) × (stored r.1 ≡ some s) × (certs_of s ≡ certs)
    pub kept : (s : Dict String) → stored w ≡ some s → stored r.1 ≡ some s

  module _ (stored : W → Option (Dict String)) (laws : ApiLaws api generate stored) where
    steps-IsAgreed :
        (w : W)
        → let one = after starting w in
          let two = after one.0 one.1 in
          IsAgreed api generate stored (after two.0 two.1).1 (after two.0 two.1).0
    steps-IsAgreed w =
        let one = after starting w in
        let two = after one.0 one.1 in
        step-IsAgreed api generate stored laws namespace name two.0 two.1 (
          step-IsAgreed api generate stored laws namespace name one.0 one.1
            (step-IsAgreed api generate stored laws namespace name starting w tt))

    steps-keep :
        (w : W) (s : Dict String)
        → stored w ≡ some s
        → let one = after starting w in
          let two = after one.0 one.1 in stored (after two.0 two.1).1 ≡ some s
    steps-keep w s h =
        let one = after starting w in
        let two = after one.0 one.1 in
        step-keeps api generate stored laws namespace name two.0 two.1 s (
          step-keeps api generate stored laws namespace name one.0 one.1 s
            (step-keeps api generate stored laws namespace name starting w s h))

    -- If the API server stores secrets as documented, then whatever the calls of the client answer, the
    -- certificates that `EnsureTLSSecret` returns are those of the secret that is stored at its end,
    -- also where another replica has put that secret there between its get and its create; and a
    -- secret that was stored before is stored still, whether it fails or not.
    pub ensure_tls_secret-IsEnsured :
        (w : W) → IsEnsured stored w (ensure_tls_secret api generate namespace name w)
    ensure_tls_secret-IsEnsured w = record {
      current = λ certs h.
          subst (IsAgreed api generate stored (ensure_tls_secret api generate namespace name w).1)
            (ap returned h)
            (subst (λ (r : Phase × W). IsAgreed api generate stored r.1 r.0)
              (step-ensure_tls_secret w) (steps-IsAgreed w));
      kept = λ s h.
          subst (λ (r : Phase × W). stored r.1 ≡ some s) (step-ensure_tls_secret w)
            (steps-keep w s h);
    }
