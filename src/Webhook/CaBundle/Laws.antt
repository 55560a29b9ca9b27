-- ===== src/Webhook/CaBundle/Laws.antt =====
-- Which entry is changed, and that a second change is none.
use kubernetes_external_prov.Base.{
  All, Bool-cases, List, Option-cases, String, [], ap, eq_of_==, false, inl, inr, ne_of_==, none,
  none≢some, refl, some, some-injective, subst, sym, true, ◌++◌, ◌==◌, ◌∙◌, ◌∷◌, ◌≡◌, ◌≢◌, ◌⊎◌,
}
use kubernetes_external_prov.Providers.MountInfo.{wanted}
use kubernetes_external_prov.Webhook.CaBundle.{WebhookEntry, patched_entry, set_ca_bundle}

-- The list is cut at its first entry of that name.
pub record IsFirst (wanted : String) (before : List WebhookEntry) (e : WebhookEntry)
    (after es : List WebhookEntry) : Type 0 where
  pub cut : es ≡ before ++ (e ∷ after)
  pub named : e.name ≡ wanted
  pub earlier : All (λ x. x.name ≢ wanted) before

-- Either no entry has the name, and there is no result; or the first that has it gets the bundle and
-- the policy `Fail`, and all others stay as they are and where they are.
pub set_ca_bundle-IsFirst :
    (wanted ca_bundle : String) (es : List WebhookEntry)
    → (All (λ x. x.name ≢ wanted) es × (set_ca_bundle wanted ca_bundle es ≡ none))
      ⊎ ((before : List WebhookEntry) × (e : WebhookEntry) × (after : List WebhookEntry) × IsFirst
            wanted before e after es
          × (set_ca_bundle wanted ca_bundle es
              ≡ some (before ++ (patched_entry ca_bundle e ∷ after))))
unfolding set_ca_bundle
set_ca_bundle-IsFirst wanted ca_bundle [] = inl (tt, refl)
set_ca_bundle-IsFirst wanted ca_bundle (e ∷ es) = elim (Bool-cases (e.name == wanted)) [
  | inl same ↦ inr (
    [],
    e,
    es,
    record { cut = refl; named = eq_of_== e.name wanted same; earlier = tt },
    rw (same, set_ca_bundle),
  )
  | inr differs ↦ elim (set_ca_bundle-IsFirst wanted ca_bundle es) [
    | inl (all_other, unset) ↦
        inl ((ne_of_== e.name wanted differs, all_other), rw (differs, set_ca_bundle, unset))
    | inr (before, first, after, cut, set) ↦ inr (
      e ∷ before,
      first,
      after,
      record {
        cut = ap (λ l. e ∷ l) cut.cut;
        named = cut.named;
        earlier = (ne_of_== e.name wanted differs, cut.earlier);
      },
      rw (differs, set_ca_bundle, set),
    )
  ]
]

-- To set the same bundle again in what the first time gave changes nothing.
pub set_ca_bundle-again :
    (wanted ca_bundle : String) (es es' : List WebhookEntry)
    → set_ca_bundle wanted ca_bundle es ≡ some es'
    → set_ca_bundle wanted ca_bundle es' ≡ some es'
unfolding set_ca_bundle
set_ca_bundle-again wanted ca_bundle [] es' h = absurd (none≢some h)
set_ca_bundle-again wanted ca_bundle (e ∷ es) es' h = elim (Bool-cases (e.name == wanted)) [
  | inl same ↦
      subst (λ l. set_ca_bundle wanted ca_bundle l ≡ some l)
        (some-injective (sym (first_set e es same) ∙ h)) (rw (same, set_ca_bundle))
  | inr differs ↦ elim (Option-cases (set_ca_bundle wanted ca_bundle es)) [
    | inl unset ↦ absurd (none≢some (sym (later_unset e es differs unset) ∙ h))
    | inr (es1, set) ↦
        subst (λ l. set_ca_bundle wanted ca_bundle l ≡ some l)
          (some-injective (sym (later_set e es es1 differs set) ∙ h))
          (rw (differs, set_ca_bundle, set_ca_bundle-again wanted ca_bundle es es1 set))
  ]
]
  where
    first_set :
        (e : WebhookEntry) (es : List WebhookEntry)
        → (e.name == wanted) ≡ true
        → set_ca_bundle wanted ca_bundle (e ∷ es) ≡ some (patched_entry ca_bundle e ∷ es)
    first_set e es same = rw (same, set_ca_bundle)

    later_unset :
        (e : WebhookEntry) (es : List WebhookEntry)
        → (e.name == wanted) ≡ false
        → set_ca_bundle wanted ca_bundle es ≡ none
        → set_ca_bundle wanted ca_bundle (e ∷ es) ≡ none
    later_unset e es differs unset = rw (differs, set_ca_bundle, unset)

    later_set :
        (e : WebhookEntry) (es es1 : List WebhookEntry)
        → (e.name == wanted) ≡ false
        → set_ca_bundle wanted ca_bundle es ≡ some es1
        → set_ca_bundle wanted ca_bundle (e ∷ es) ≡ some (e ∷ es1)
    later_set e es es1 differs set = rw (differs, set_ca_bundle, set)
