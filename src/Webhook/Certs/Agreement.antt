-- ===== src/Webhook/Certs/Agreement.antt =====
-- Replicas that make the secret at the same time.
use kubernetes_external_prov.Base.{
  All, Dict, List, Option, Result, String, [], err, lookup, ok, read, refl, some, suc, zero, ℕ, ◌∙◌,
  ◌∷◌, ◌≡◌,
}
use kubernetes_external_prov.Exec.{Exec}
use kubernetes_external_prov.Webhook.Certs.{
  Certs, CreateAnswer, GetAnswer, Phase, SecretApi, after_create, after_generate, after_get,
  after_race, already_exists, certs_of, create_failed, created_now, get_failed, interleave, missing,
  raced, returned, secret_found, secret_missing, secret_of, starting, step, step_at,
}

abbrev pub all_starting : ℕ → List Phase
all_starting zero = []
all_starting (suc n) = starting ∷ all_starting n

module _ {W : Type 0} (api : SecretApi W) (generate : Exec W Certs)
    (stored : W → Option (Dict String)) where
  -- What the API server documents: a get gives what is stored, a create that succeeds stores its
  -- secret, and one on a name in use changes nothing; generating touches no secret.
  pub record ApiLaws : Type 0 where
    pub gives : (w : W) (s : Dict String) → api.get w ≡ secret_found s → stored w ≡ some s
    pub stores :
        (s : Dict String) (w : W)
        → (api.create s w).0 ≡ created_now
        → stored (api.create s w).1 ≡ some s
    pub keeps : (s t : Dict String) (w : W) → stored w ≡ some t → stored (api.create s w).1 ≡ some t
    pub quiet : (w : W) → stored (generate w).1 ≡ stored w

  -- Certificates that a replica returns are those of the stored secret.
  abbrev pub IsAgreed : W → Phase → Type 0
  IsAgreed w (returned (ok certs)) = (s : Dict String) × (stored w ≡ some s) × (certs_of s ≡ certs)
  IsAgreed w (returned (err e)) = Unit
  IsAgreed w starting = Unit
  IsAgreed w missing = Unit
  IsAgreed w raced = Unit

  module _ (laws : ApiLaws) (namespace name : String) where
    abbrev after : Phase → W → Phase × W
    after = step api generate namespace name

    generate-keeps :
        (r : Result Certs) (v : W) (t : Dict String)
        → stored v ≡ some t
        → stored (after_generate api generate namespace name r v).1 ≡ some t
    generate-keeps (err e) v t h = h
    generate-keeps (ok certs) v t h = laws.keeps (secret_of certs) t v h

    pub step-keeps :
        (p : Phase) (w : W) (t : Dict String) → stored w ≡ some t → stored (after p w).1 ≡ some t
    unfolding step
    step-keeps starting w t h = h
    step-keeps missing w t h = generate-keeps (generate w).0 (generate w).1 t (laws.quiet w ∙ h)
    step-keeps raced w t h = h
    step-keeps (returned r) w t h = h

    get-IsAgreed :
        (w : W) (a : GetAnswer)
        → api.get w ≡ a
        → IsAgreed w (after_get api generate namespace name a)
    get-IsAgreed w (secret_found s) h = (s, laws.gives w s h, refl)
    get-IsAgreed w (secret_missing e) h = tt
    get-IsAgreed w (get_failed e) h = tt

    race-IsAgreed :
        (w : W) (a : GetAnswer)
        → api.get w ≡ a
        → IsAgreed w (after_race api generate namespace name a)
    race-IsAgreed w (secret_found s) h = (s, laws.gives w s h, refl)
    race-IsAgreed w (secret_missing e) h = tt
    race-IsAgreed w (get_failed e) h = tt

    create-IsAgreed :
        (certs : Certs) (v : W) (a : CreateAnswer)
        → (api.create (secret_of certs) v).0 ≡ a
        → IsAgreed
            (api.create (secret_of certs) v).1
            (after_create api generate namespace name certs a)
    unfolding certs_of read lookup
    create-IsAgreed certs v created_now h =
        (secret_of certs, laws.stores (secret_of certs) v h, refl)
    create-IsAgreed certs v already_exists h = tt
    create-IsAgreed certs v (create_failed e) h = tt

    generate-IsAgreed :
        (r : Result Certs) (v : W)
        → IsAgreed
            (after_generate api generate namespace name r v).1
            (after_generate api generate namespace name r v).0
    generate-IsAgreed (err e) v = tt
    generate-IsAgreed (ok certs) v = create-IsAgreed certs v _ refl

    pub step-IsAgreed : (p : Phase) (w : W) → IsAgreed w p → IsAgreed (after p w).1 (after p w).0
    unfolding step
    step-IsAgreed starting w h = get-IsAgreed w _ refl
    step-IsAgreed missing w h = generate-IsAgreed (generate w).0 (generate w).1
    step-IsAgreed raced w h = race-IsAgreed w _ refl
    step-IsAgreed (returned r) w h = h

    IsAgreed-stays :
        (q : Phase) (w v : W)
        → ((t : Dict String) → stored w ≡ some t → stored v ≡ some t)
        → IsAgreed w q
        → IsAgreed v q
    IsAgreed-stays (returned (ok certs)) w v keeps h = (h.0, keeps h.0 h.1, h.2)
    IsAgreed-stays (returned (err e)) w v keeps h = tt
    IsAgreed-stays starting w v keeps h = tt
    IsAgreed-stays missing w v keeps h = tt
    IsAgreed-stays raced w v keeps h = tt

    All-IsAgreed-stays :
        (qs : List Phase) (w v : W)
        → ((t : Dict String) → stored w ≡ some t → stored v ≡ some t)
        → All (IsAgreed w) qs
        → All (IsAgreed v) qs
    All-IsAgreed-stays [] w v keeps h = tt
    All-IsAgreed-stays (q ∷ qs) w v keeps h =
        (IsAgreed-stays q w v keeps h.0, All-IsAgreed-stays qs w v keeps h.1)

    abbrev moved : ℕ → List Phase → W → List Phase × W
    moved = step_at api generate namespace name

    step_at-keeps :
        (n : ℕ) (ps : List Phase) (w : W) (t : Dict String)
        → stored w ≡ some t
        → stored (moved n ps w).1 ≡ some t
    unfolding step_at
    step_at-keeps n [] w t h = h
    step_at-keeps zero (p ∷ ps) w t h = step-keeps p w t h
    step_at-keeps (suc n) (p ∷ ps) w t h = step_at-keeps n ps w t h

    step_at-All :
        (n : ℕ) (ps : List Phase) (w : W)
        → All (IsAgreed w) ps
        → All (IsAgreed (moved n ps w).1) (moved n ps w).0
    unfolding step_at
    step_at-All n [] w h = tt
    step_at-All zero (p ∷ ps) w h =
        (step-IsAgreed p w h.0, All-IsAgreed-stays ps w (after p w).1 (step-keeps p w) h.1)
    step_at-All (suc n) (p ∷ ps) w h =
        (IsAgreed-stays p w (moved n ps w).1 (step_at-keeps n ps w) h.0, step_at-All n ps w h.1)

    interleave-All :
        (schedule : List ℕ) (ps : List Phase) (w : W)
        → All (IsAgreed w) ps
        → All
            (IsAgreed (interleave api generate namespace name schedule ps w).1)
            (interleave api generate namespace name schedule ps w).0
    unfolding interleave
    interleave-All [] ps w h = h
    interleave-All (n ∷ ns) ps w h =
        interleave-All ns (moved n ps w).0 (moved n ps w).1 (step_at-All n ps w h)

    starting-All : (replicas : ℕ) (w : W) → All (IsAgreed w) (all_starting replicas)
    starting-All zero w = tt
    starting-All (suc n) w = (tt, starting-All n w)

    -- If the API server stores secrets as documented, then however the calls of any number of
    -- replicas interleave, each that has returned certificates has returned those of the one
    -- secret that is stored, so all of them have the same.
    pub interleave-IsAgreed :
        (replicas : ℕ) (schedule : List ℕ) (w : W)
        → All
            (IsAgreed (interleave api generate namespace name schedule (all_starting replicas) w).1)
            (interleave api generate namespace name schedule (all_starting replicas) w).0
    interleave-IsAgreed replicas schedule w =
        interleave-All schedule (all_starting replicas) w (starting-All replicas w)
