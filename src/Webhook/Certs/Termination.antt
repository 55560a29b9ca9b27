-- ===== src/Webhook/Certs/Termination.antt =====
-- How many calls a replica makes before it returns.
use kubernetes_external_prov.Base.{Result, String, arith, err, ok, refl, ℕ, ◌-◌, ◌≡◌, ◌≤◌}
use kubernetes_external_prov.Exec.{Exec}
use kubernetes_external_prov.Webhook.Certs.{
  Certs, CreateAnswer, GetAnswer, Phase, SecretApi, after_create, after_generate, after_get,
  after_race, already_exists, create_failed, created_now, get_failed, missing, raced, returned,
  secret_found, secret_missing, starting, step,
}

-- The end of `EnsureTLSSecret`, with certificates or an error.
abbrev pub HasReturned : Phase → Type 0
HasReturned p = (r : Result Certs) × (p ≡ returned r)

-- How many calls are left at most.
abbrev pub calls_left : Phase → ℕ
calls_left (returned r) = 0
calls_left raced = 1
calls_left missing = 2
calls_left starting = 3

module _ {W : Type 0} (api : SecretApi W) (generate : Exec W Certs) (namespace name : String) where
  get-calls_left : (a : GetAnswer) → calls_left (after_get api generate namespace name a) ≤ 2
  get-calls_left (secret_found s) = omega arith
  get-calls_left (secret_missing e) = omega arith
  get-calls_left (get_failed e) = omega arith

  race-calls_left : (a : GetAnswer) → calls_left (after_race api generate namespace name a) ≤ 0
  race-calls_left (secret_found s) = omega arith
  race-calls_left (secret_missing e) = omega arith
  race-calls_left (get_failed e) = omega arith

  create-calls_left :
      (certs : Certs) (a : CreateAnswer)
      → calls_left (after_create api generate namespace name certs a) ≤ 1
  create-calls_left certs created_now = omega arith
  create-calls_left certs already_exists = omega arith
  create-calls_left certs (create_failed e) = omega arith

  generate-calls_left :
      (r : Result Certs) (w : W) → calls_left (after_generate api generate namespace name r w).0 ≤ 1
  generate-calls_left (err e) w = omega arith
  generate-calls_left (ok certs) w = create-calls_left certs _

  step-calls_left :
      (p : Phase) (w : W) → calls_left (step api generate namespace name p w).0 ≤ calls_left p - 1
  unfolding step
  step-calls_left starting w = get-calls_left (api.get w)
  step-calls_left missing w = generate-calls_left (generate w).0 (generate w).1
  step-calls_left raced w = race-calls_left (api.get w)
  step-calls_left (returned r) w = omega arith

  none_left : (p : Phase) → calls_left p ≤ 0 → HasReturned p
  none_left (returned r) h = (r, refl)
  none_left raced h = absurd (omega arith)
  none_left missing h = absurd (omega arith)
  none_left starting h = absurd (omega arith)

  -- A replica has returned after three steps of its own, whatever the others have made of the world
  -- between them.
  pub step-HasReturned :
      (w w' w'' : W)
      → HasReturned
          (step api generate namespace name
            (step api generate namespace name (step api generate namespace name starting w).0 w').0
            w'').0
  step-HasReturned w w' w'' =
      let one = step api generate namespace name starting w in
      let two = step api generate namespace name one.0 w' in
      none_left (step api generate namespace name two.0 w'').0 (
        omega
          (arith, step-calls_left starting w, step-calls_left one.0 w', step-calls_left two.0 w''))
