-- ===== src/Tests/Certs.antt =====
-- Two replicas of the webhook on one secret; the state is the secret and how many certificates were made.
use kubernetes_external_prov.Base.{
  All, Dict, Option, String, [], external, lookup, none, ok, read, refl, some, suc, zero, ℕ, ◌∷◌,
  ◌≡◌,
}
use kubernetes_external_prov.Exec.{Exec}
use kubernetes_external_prov.Webhook.CaBundle.{WebhookEntry}
use kubernetes_external_prov.Webhook.Certs.{
  Certs, CreateAnswer, GetAnswer, SecretApi, already_exists, certs_of, created_now,
  ensure_tls_secret, interleave, returned, secret_found, secret_missing, secret_of, starting, step,
}
use kubernetes_external_prov.Webhook.Certs.Agreement.{
  ApiLaws, IsAgreed, all_starting, interleave-IsAgreed,
}
use kubernetes_external_prov.Webhook.Certs.Alone.{IsEnsured, ensure_tls_secret-IsEnsured}
use kubernetes_external_prov.Webhook.Certs.Termination.{HasReturned, step-HasReturned}

abbrev Store : Type 0
Store = Option (Dict String) × ℕ

abbrev certs_no : ℕ → Certs
certs_no zero = record { ca_cert = "a"; server_cert = "b"; server_key = "c" }
certs_no (suc n) = record { ca_cert = "x"; server_cert = "y"; server_key = "z" }

abbrev pub get_of : Option (Dict String) → GetAnswer
get_of none = secret_missing (external "not found")
get_of (some s) = secret_found s

abbrev pub create_in :
    {A : Type 0}
    → Dict String
    → Option (Dict String)
    → A
    → CreateAnswer × (Option (Dict String) × A)
create_in s none n = (created_now, (some s, n))
create_in s (some t) n = (already_exists, (some t, n))

abbrev secrets : SecretApi Store
secrets = record { get = λ w. get_of w.0; create = λ s w. create_in s w.0 w.1 }

abbrev make : Exec Store Certs
make w = (ok (certs_no w.1), (w.0, suc w.1))

pub get_of-found :
    (o : Option (Dict String)) (s : Dict String) → get_of o ≡ secret_found s → o ≡ some s
get_of-found none s h = cc
get_of-found (some t) s h = cc

pub create_in-stores :
    {A : Type 0} (s : Dict String) (o : Option (Dict String)) (n : A)
    → (create_in s o n).0 ≡ created_now
    → (create_in s o n).1.0 ≡ some s
create_in-stores s none n h = refl
create_in-stores s (some t) n h = cc

pub create_in-keeps :
    {A : Type 0} (s t : Dict String) (o : Option (Dict String)) (n : A)
    → o ≡ some t
    → (create_in s o n).1.0 ≡ some t
create_in-keeps s t none n h = cc
create_in-keeps s t (some u) n h = h

secrets-ApiLaws : ApiLaws secrets make (λ w. w.0)
secrets-ApiLaws = record {
  gives = λ w s. get_of-found w.0 s;
  stores = λ s w. create_in-stores s w.0 w.1;
  keeps = λ s t w. create_in-keeps s t w.0 w.1;
  quiet = λ w. refl;
}

-- Another replica always wins the race.
abbrev rival : Dict String
rival = secret_of (certs_no 7)

abbrev create_late : Option (Dict String) → ℕ → CreateAnswer × Store
create_late none n = (already_exists, (some rival, n))
create_late (some t) n = (already_exists, (some t, n))

abbrev late_secrets : SecretApi Store
late_secrets = record { get = λ w. get_of w.0; create = λ s w. create_late w.0 w.1 }

late_secrets-ApiLaws : ApiLaws late_secrets make (λ w. w.0)
late_secrets-ApiLaws = record {
  gives = λ w s. get_of-found w.0 s;
  stores = λ s w. never w.0 w.1 s;
  keeps = λ s t w. stays w.0 w.1 t;
  quiet = λ w. refl;
}
  where
    never :
        (o : Option (Dict String)) (n : ℕ) (s : Dict String)
        → (create_late o n).0 ≡ created_now
        → (create_late o n).1.0 ≡ some s
    never none n s h = cc
    never (some t) n s h = cc

    stays :
        (o : Option (Dict String)) (n : ℕ) (t : Dict String)
        → o ≡ some t
        → (create_late o n).1.0 ≡ some t
    stays none n t h = cc
    stays (some u) n t h = h

ensure_tls_secret-IsEnsured_example :
    IsEnsured late_secrets make "system" "tls"
      (λ w. w.0)
      (none, 0)
      (ensure_tls_secret late_secrets make "system" "tls" (none, 0))
ensure_tls_secret-IsEnsured_example =
    ensure_tls_secret-IsEnsured late_secrets make "system" "tls" (λ w. w.0) late_secrets-ApiLaws
      (none, 0)

-- The call returns the rival's certificates.
race_taken_over : (ensure_tls_secret late_secrets make "system" "tls" (none, 0)).0 ≡ ok (certs_no 7)
unfolding ensure_tls_secret certs_of read lookup
race_taken_over = refl

-- Both see no secret and make certificates; the first creates it, and the second takes it over.
lost_race :
    (interleave secrets make "system" "tls" (0 ∷ 1 ∷ 0 ∷ 1 ∷ 1 ∷ []) (all_starting 2) (none, 0)).0
    ≡ returned (ok (certs_no 0)) ∷ returned (ok (certs_no 0)) ∷ []
unfolding interleave certs_of read lookup
lost_race = refl

interleave-IsAgreed_example :
    All
      (IsAgreed secrets make
        (λ w. w.0)
        (interleave secrets make "system" "tls"
          (0 ∷ 1 ∷ 0 ∷ 1 ∷ 1 ∷ [])
          (all_starting 2)
          (none, 0)).1)
      (interleave secrets make "system" "tls" (0 ∷ 1 ∷ 0 ∷ 1 ∷ 1 ∷ []) (all_starting 2) (none, 0)).0
interleave-IsAgreed_example =
    interleave-IsAgreed secrets make (λ w. w.0) secrets-ApiLaws "system" "tls" 2
      (0 ∷ 1 ∷ 0 ∷ 1 ∷ 1 ∷ []) (none, 0)

step-HasReturned_example :
    HasReturned
      (step secrets make "system" "tls"
        (step secrets make "system" "tls"
          (step secrets make "system" "tls" starting (none, 0)).0
          (none, 0)).0
        (some (secret_of (certs_no 0)), 1)).0
step-HasReturned_example =
    step-HasReturned secrets make "system" "tls" (none, 0) (none, 0)
      (some (secret_of (certs_no 0)), 1)

abbrev pub unset_entry : WebhookEntry
unset_entry = record { name = "pods"; ca_bundle = ""; failure_policy = none }
