-- ===== src/Webhook/Asked.antt =====
-- Which disk the volumes of a pod ask for, said without the loop of the code.
use kubernetes_external_prov.Base.{
  ==-false, All, Bool-cases, Dict, Error, List, Option-cases, Result, Result-cases, String, [], ap,
  eq_of_==, err, if◌then◌else◌, inl, inr, ne_of_==, none, ok, ok-injective, ok≢err, read, refl,
  some, subst, subst⁻¹, sym, wrapf, ◌++◌, ◌==◌, ◌↔◌, ◌∙◌, ◌∷◌, ◌≡◌, ◌≢◌,
}
use kubernetes_external_prov.Models.{pvc_annotation_uuid}
use kubernetes_external_prov.Webhook.{
  Cluster, Pod, Volume, disk_uuid_for_pod, disk_uuid_from, get_pvc,
}

module _ (cluster : Cluster) (namespace : String) where
  -- The annotations of a claim: those in the cache, or else those that the API server gives.
  pub data IsRead (name : String) (annotations : Dict String) : Type 0 where
    from_cache : cluster.cached_pvc namespace name ≡ ok annotations → IsRead name annotations
    from_api_server :
        (e : Error)
        → cluster.cached_pvc namespace name ≡ err e
        → cluster.live_pvc namespace name ≡ ok annotations
        → IsRead name annotations

  -- The claim of the volume can be read, and its annotation for a UUID is this text ("" if it has none).
  pub record Names (vol : Volume) (u : String) : Type 0 where
    pub name : String
    pub claim : vol.claim_name ≡ some name
    pub annotations : Dict String
    pub is_read : IsRead name annotations
    pub named : read pvc_annotation_uuid annotations ≡ u

  -- The volume has no claim, or one that names no UUID.
  pub data IsSilent (vol : Volume) : Type 0 where
    unclaimed : vol.claim_name ≡ none → IsSilent vol
    unnamed : Names vol "" → IsSilent vol

  -- The volume has a claim that neither the cache nor the API server gives.
  pub record IsLost (vol : Volume) (name : String) (reason : Error) : Type 0 where
    pub claim : vol.claim_name ≡ some name
    pub missed : Error
    pub uncached : cluster.cached_pvc namespace name ≡ err missed
    pub unfetched : cluster.live_pvc namespace name ≡ err reason

  -- A volume with the property, and only silent ones before it.
  pub record IsFirst (P : Volume → Type 0) (vols : List Volume) : Type 0 where
    pub before : List Volume
    pub vol : Volume
    pub after : List Volume
    pub split : vols ≡ before ++ vol ∷ after
    pub silent : All IsSilent before
    pub holds : P vol

  -- The first of the claims that name a UUID, with no lost one before it, names this one.
  abbrev pub Asks : List Volume → String → Type 0
  Asks vols u = (u ≢ "") × IsFirst (λ vol. Names vol u) vols

  -- What the volumes ask for: a UUID, or nothing, or an error that names the lost claim.
  pub data IsAnswer (vols : List Volume) : Result String → Type 0 where
    asks_for : (u : String) → Asks vols u → IsAnswer vols (ok u)
    asks_nothing : All IsSilent vols → IsAnswer vols (ok "")
    fails_on :
        (name : String) (reason : Error)
        → IsFirst (λ vol. IsLost vol name reason) vols
        → IsAnswer vols (err (wrapf "get PVC %s/%s: %w" (namespace ∷ name ∷ []) reason))

  get_pvc-IsRead :
      (name : String) (annotations : Dict String)
      → IsRead name annotations
      → get_pvc cluster namespace name ≡ ok annotations
  unfolding get_pvc
  get_pvc-IsRead name annotations (from_cache e) = rw (e, get_pvc)
  get_pvc-IsRead name annotations (from_api_server e missed found) = rw (missed, get_pvc) (rw found)

  from-Names :
      (vol : Volume) (vols : List Volume) (u : String)
      → Names vol u
      → disk_uuid_from cluster namespace (vol ∷ vols)
        ≡ (if u == "" then disk_uuid_from cluster namespace vols else ok u)
  unfolding disk_uuid_from
  from-Names vol vols u n =
      rw (n.claim, disk_uuid_from) (rw (get_pvc-IsRead n.name n.annotations n.is_read) (rw n.named))

  from-IsSilent :
      (vol : Volume) (vols : List Volume)
      → IsSilent vol
      → disk_uuid_from cluster namespace (vol ∷ vols) ≡ disk_uuid_from cluster namespace vols
  unfolding disk_uuid_from
  from-IsSilent vol vols (unclaimed e) = rw (e, disk_uuid_from)
  from-IsSilent vol vols (unnamed n) = from-Names vol vols "" n

  from-silent :
      (before vols : List Volume)
      → All IsSilent before
      → disk_uuid_from cluster namespace (before ++ vols) ≡ disk_uuid_from cluster namespace vols
  from-silent [] vols h = refl
  from-silent (vol ∷ before) vols h =
      from-IsSilent vol (before ++ vols) h.0 ∙ from-silent before vols h.1

  pub Asks-complete :
      (vols : List Volume) (u : String) → Asks vols u → disk_uuid_from cluster namespace vols ≡ ok u
  Asks-complete vols u (some_u, f) = rw f.split (
      from-silent f.before (f.vol ∷ f.after) f.silent
      ∙ from-Names f.vol f.after u f.holds
      ∙ rw (==-false u "" some_u))

  after_silent :
      (P : Volume → Type 0) (vol : Volume) (vols : List Volume)
      → IsSilent vol
      → IsFirst P vols
      → IsFirst P (vol ∷ vols)
  after_silent P vol vols s f = record {
    before = vol ∷ f.before;
    vol = f.vol;
    after = f.after;
    split = ap (λ x. vol ∷ x) f.split;
    silent = (s, f.silent);
    holds = f.holds;
  }

  at_once :
      (P : Volume → Type 0) (vol : Volume) (vols : List Volume) → P vol → IsFirst P (vol ∷ vols)
  at_once P vol vols h = record {
    before = [];
    vol = vol;
    after = vols;
    split = refl;
    silent = tt;
    holds = h;
  }

  later-IsAnswer :
      (vol : Volume) (vols : List Volume) (r : Result String)
      → IsSilent vol
      → IsAnswer vols r
      → IsAnswer (vol ∷ vols) r
  later-IsAnswer vol vols _ s (asks_for u h) =
      asks_for u (h.0, after_silent (λ v. Names v u) vol vols s h.1)
  later-IsAnswer vol vols _ s (asks_nothing h) = asks_nothing (s, h)
  later-IsAnswer vol vols _ s (fails_on name e h) =
      fails_on name e (after_silent (λ v. IsLost v name e) vol vols s h)

  read-IsAnswer :
      (vol : Volume) (vols : List Volume) (u : String)
      → Names vol u
      → IsAnswer vols (disk_uuid_from cluster namespace vols)
      → IsAnswer (vol ∷ vols) (disk_uuid_from cluster namespace (vol ∷ vols))
  read-IsAnswer vol vols u n rest = elim (Bool-cases (u == "")) [
    | inl blank ↦
        let silent = unnamed (subst (Names vol) (eq_of_== u "" blank) n) in
        subst⁻¹ (IsAnswer (vol ∷ vols)) (from-IsSilent vol vols silent)
          (later-IsAnswer vol vols _ silent rest)
    | inr there ↦
        subst⁻¹ (IsAnswer (vol ∷ vols)) (from-Names vol vols u n ∙ rw there)
          (asks_for u (ne_of_== u "" there, at_once (λ v. Names v u) vol vols n))
  ]

  lost-IsAnswer :
      (vol : Volume) (vols : List Volume) (name : String) (reason : Error)
      → IsLost vol name reason
      → IsAnswer (vol ∷ vols) (disk_uuid_from cluster namespace (vol ∷ vols))
  unfolding disk_uuid_from get_pvc
  lost-IsAnswer vol vols name reason l =
      subst⁻¹ (IsAnswer (vol ∷ vols))
        (rw (l.claim, disk_uuid_from) (rw (l.uncached, get_pvc) (rw l.unfetched)))
        (fails_on name reason (at_once (λ v. IsLost v name reason) vol vols l))

  claim-IsAnswer :
      (vol : Volume) (vols : List Volume) (name : String)
      → vol.claim_name ≡ some name
      → IsAnswer vols (disk_uuid_from cluster namespace vols)
      → IsAnswer (vol ∷ vols) (disk_uuid_from cluster namespace (vol ∷ vols))
  claim-IsAnswer vol vols name claim rest =
      elim (Result-cases (cluster.cached_pvc namespace name)) [
        | inl (a, there) ↦
            read-IsAnswer vol vols (read pvc_annotation_uuid a)
              (record {
                name = name;
                claim = claim;
                annotations = a;
                is_read = from_cache there;
                named = refl;
              })
              rest
        | inr (missed, e) ↦ elim (Result-cases (cluster.live_pvc namespace name)) [
          | inl (a, found) ↦
              read-IsAnswer vol vols (read pvc_annotation_uuid a)
                (record {
                  name = name;
                  claim = claim;
                  annotations = a;
                  is_read = from_api_server missed e found;
                  named = refl;
                })
                rest
          | inr (reason, failed) ↦
              lost-IsAnswer vol vols name reason
                (record { claim = claim; missed = missed; uncached = e; unfetched = failed })
        ]
      ]

  pub from-IsAnswer : (vols : List Volume) → IsAnswer vols (disk_uuid_from cluster namespace vols)
  unfolding disk_uuid_from
  from-IsAnswer [] = asks_nothing tt
  from-IsAnswer (vol ∷ vols) = elim (Option-cases vol.claim_name) [
    | inl plain ↦
        subst⁻¹ (IsAnswer (vol ∷ vols)) (from-IsSilent vol vols (unclaimed plain))
          (later-IsAnswer vol vols _ (unclaimed plain) (from-IsAnswer vols))
    | inr (name, claim) ↦ claim-IsAnswer vol vols name claim (from-IsAnswer vols)
  ]

-- The UUID of a pod is the first that a claim of its volumes names, in the annotation that the
-- cache, or else the API server, gives of the claim; volumes with no claim, or with one that names
-- none, are passed over, and if there are no others the UUID is empty; where only such volumes
-- stand before a claim that neither the cache nor the API server gives, the result is an error
-- that names that claim.
pub disk_uuid_for_pod-IsAnswer :
    (cluster : Cluster) (pod : Pod)
    → IsAnswer cluster pod.namespace pod.volumes (disk_uuid_for_pod cluster pod)
unfolding disk_uuid_for_pod
disk_uuid_for_pod-IsAnswer cluster pod = from-IsAnswer cluster pod.namespace pod.volumes

Asks-of_answer :
    (cluster : Cluster) (namespace : String) (vols : List Volume) (u : String) (r : Result String)
    → u ≢ ""
    → r ≡ ok u
    → IsAnswer cluster namespace vols r
    → Asks cluster namespace vols u
Asks-of_answer cluster namespace vols u _ some_u h (asks_for v a) =
    subst (Asks cluster namespace vols) (ok-injective h) a
Asks-of_answer cluster namespace vols u _ some_u h (asks_nothing s) =
    absurd (some_u (sym (ok-injective h)))
Asks-of_answer cluster namespace vols u _ some_u h (fails_on name e l) = absurd (ok≢err (sym h))

-- A UUID is that of a pod exactly if its volumes ask for it.
pub disk_uuid_for_pod-Asks_iff :
    (cluster : Cluster) (pod : Pod) (u : String)
    → u ≢ ""
    → (disk_uuid_for_pod cluster pod ≡ ok u) ↔ Asks cluster pod.namespace pod.volumes u
disk_uuid_for_pod-Asks_iff cluster pod u some_u = (
  λ h.
      Asks-of_answer cluster pod.namespace pod.volumes u _ some_u h
        (disk_uuid_for_pod-IsAnswer cluster pod),
  λ a. unfold disk_uuid_for_pod in Asks-complete cluster pod.namespace pod.volumes u a,
)
