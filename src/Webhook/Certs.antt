-- ===== src/Webhook/Certs.antt =====
-- `EnsureTLSSecret` of webhook/internal/webhook/certs.go. The client's calls on the one secret are the
-- operations of `SecretApi`; `generate` stands for `GenerateSelfSignedCert`, with its random numbers
-- taken from the world. Texts stand for the bytes of PEM.
pub mod Agreement
pub mod Termination
pub mod Alone
pub mod Origin
use kubernetes_external_prov.Base.{
  Dict, Error, List, Result, String, [], err, ok, read, suc, wrapf, zero, ℕ, ◌∷◌,
}
use kubernetes_external_prov.Exec.{Exec}

-- The certificate of the authority, the one of the server, and its key.
pub record Certs : Type 0 where
  pub ca_cert : String
  pub server_cert : String
  pub server_key : String

-- What the client answers: with `IsNotFound` and `IsAlreadyExists` apart from other errors.
pub data GetAnswer : Type 0 where
  secret_found : Dict String → GetAnswer
  secret_missing : Error → GetAnswer
  get_failed : Error → GetAnswer

pub data CreateAnswer : Type 0 where
  created_now already_exists : CreateAnswer
  create_failed : Error → CreateAnswer

pub record SecretApi (W : Type 0) : Type 0 where
  pub get : W → GetAnswer
  pub create : Dict String → W → CreateAnswer × W

-- The three entries of `secret.Data`.
unfoldable pub certs_of : Dict String → Certs
unfolding read
certs_of secret = record {
  ca_cert = read "ca.crt" secret;
  server_cert = read "tls.crt" secret;
  server_key = read "tls.key" secret;
}

abbrev pub secret_of : Certs → Dict String
secret_of certs =
    ("ca.crt", certs.ca_cert) ∷ ("tls.crt", certs.server_cert) ∷ ("tls.key", certs.server_key) ∷ []

-- Where a replica stands between two calls of the client: before the first get, before the generation
-- and the create, before the get after a lost race, or at the return.
pub data Phase : Type 0 where
  starting missing raced : Phase
  returned : Result Certs → Phase

module _ {W : Type 0} (api : SecretApi W) (generate : Exec W Certs) (namespace name : String) where
  abbrev pub after_get : GetAnswer → Phase
  after_get (secret_found secret) = returned (ok (certs_of secret))
  after_get (secret_missing e) = missing
  after_get (get_failed e) = returned (err (wrapf "get secret %s/%s: %w" (namespace ∷ name ∷ []) e))

  abbrev pub after_create : Certs → CreateAnswer → Phase
  after_create certs created_now = returned (ok certs)
  after_create certs already_exists = raced
  after_create certs (create_failed e) =
      returned (err (wrapf "create secret %s/%s: %w" (namespace ∷ name ∷ []) e))

  abbrev pub after_generate : Result Certs → W → Phase × W
  after_generate (err e) w = (returned (err e), w)
  after_generate (ok certs) w =
      let answer = api.create (secret_of certs) w in (after_create certs answer.0, answer.1)

  abbrev pub after_race : GetAnswer → Phase
  after_race (secret_found secret) = returned (ok (certs_of secret))
  after_race (secret_missing e) = returned (err (wrapf "get secret after race: %w" [] e))
  after_race (get_failed e) = returned (err (wrapf "get secret after race: %w" [] e))

  -- One call of the client, with what the code does up to the next one.
  unfoldable pub step : Phase → W → Phase × W
  unfolding certs_of
  step starting w = (after_get (api.get w), w)
  step missing w = after_generate (generate w).0 (generate w).1
  step raced w = (after_race (api.get w), w)
  step (returned r) w = (returned r, w)

  -- The replica at that place of the list takes a step.
  unfoldable pub step_at : ℕ → List Phase → W → List Phase × W
  unfolding step
  step_at n [] w = ([], w)
  step_at zero (p ∷ ps) w = let next = step p w in (next.0 ∷ ps, next.1)
  step_at (suc n) (p ∷ ps) w = let rest = step_at n ps w in (p ∷ rest.0, rest.1)

  -- The replicas take steps in the order of the schedule.
  unfoldable pub interleave : List ℕ → List Phase → W → List Phase × W
  unfolding step_at
  interleave [] ps w = (ps, w)
  interleave (n ∷ ns) ps w = let (ps', w') = step_at n ps w in interleave ns ps' w'

  abbrev pub ensure_raced : GetAnswer → Exec W Certs
  ensure_raced (secret_found secret) w = (ok (certs_of secret), w)
  ensure_raced (secret_missing e) w = (err (wrapf "get secret after race: %w" [] e), w)
  ensure_raced (get_failed e) w = (err (wrapf "get secret after race: %w" [] e), w)

  abbrev pub ensure_created : Certs → CreateAnswer → Exec W Certs
  ensure_created certs created_now w = (ok certs, w)
  ensure_created certs already_exists w = ensure_raced (api.get w) w
  ensure_created certs (create_failed e) w =
      (err (wrapf "create secret %s/%s: %w" (namespace ∷ name ∷ []) e), w)

  abbrev pub ensure_generated : Result Certs → Exec W Certs
  ensure_generated (err e) w = (err e, w)
  ensure_generated (ok certs) w =
      let answer = api.create (secret_of certs) w in ensure_created certs answer.0 answer.1

  abbrev pub ensure_got : GetAnswer → Exec W Certs
  ensure_got (secret_found secret) w = (ok (certs_of secret), w)
  ensure_got (secret_missing e) w = ensure_generated (generate w).0 (generate w).1
  ensure_got (get_failed e) w = (err (wrapf "get secret %s/%s: %w" (namespace ∷ name ∷ []) e), w)

  -- `EnsureTLSSecret`, with no other replica at work.
  unfoldable pub ensure_tls_secret : Exec W Certs
  unfolding certs_of
  ensure_tls_secret w = ensure_got (api.get w) w
