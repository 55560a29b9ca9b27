-- ===== src/Webhook/CaBundle/Installed.antt =====
-- What the API server holds after a call of `PatchWebhookCABundle` that succeeds.
use kubernetes_external_prov.Base.{
  List, Option, Result, String, [], inl, inr, none, none≢some, ok, ok≢err, refl, some,
  some-injective, subst⁻¹, sym, ◌∙◌, ◌∷◌, ◌≡◌,
}
use kubernetes_external_prov.Exec.{Exec, gets}
use kubernetes_external_prov.Exec.Returns.{wrapped_bind-ok}
use kubernetes_external_prov.Webhook.CaBundle.{
  ConfigApi, WebhookEntry, after_search, patch_once, patch_webhook_ca_bundle, patched_entry,
  set_ca_bundle,
}
use kubernetes_external_prov.Webhook.CaBundle.Laws.{IsFirst, set_ca_bundle-IsFirst}

-- The first entry of that name has the bundle and the policy `Fail`.
pub record IsInstalled (wanted ca_bundle : String) (entries : List WebhookEntry) : Type 0 where
  pub before : List WebhookEntry
  pub entry : WebhookEntry
  pub after : List WebhookEntry
  pub first : IsFirst wanted before entry after entries
  pub bundled : entry.ca_bundle ≡ ca_bundle
  pub strict : entry.failure_policy ≡ some "Fail"

module _ {W : Type 0} (api : ConfigApi W) (held : W → String → List WebhookEntry) where
  -- What the API server and `retry.RetryOnConflict` document: an update that succeeds is held, and a
  -- success of the retries is the success of the last try.
  pub record ConfigLaws : Type 0 where
    pub updated :
        (config_name : String) (entries : List WebhookEntry) (w : W)
        → (api.update config_name entries w).0 ≡ ok tt
        → held (api.update config_name entries w).1 config_name ≡ entries
    pub retried :
        (m : Exec W (Unit {0})) (w : W)
        → (api.retry_on_conflict m w).0 ≡ ok tt
        → (v : W) × ((m v).0 ≡ ok tt) × ((api.retry_on_conflict m w).1 ≡ (m v).1)

  module _ (laws : ConfigLaws) (config_name wanted ca_bundle : String) where
    set-IsInstalled :
        (es es' : List WebhookEntry)
        → set_ca_bundle wanted ca_bundle es ≡ some es'
        → IsInstalled wanted ca_bundle es'
    set-IsInstalled es es' h = elim (set_ca_bundle-IsFirst wanted ca_bundle es) [
      | inl (others, unset) ↦ absurd (none≢some (sym unset ∙ h))
      | inr (before, e, after, first, set) ↦ record {
        before = before;
        entry = patched_entry ca_bundle e;
        after = after;
        first = record {
          cut = some-injective (sym h ∙ set);
          named = first.named;
          earlier = first.earlier;
        };
        bundled = refl;
        strict = refl;
      }
    ]

    searched-IsInstalled :
        (o : Option (List WebhookEntry)) (w : W)
        → ((es' : List WebhookEntry) → o ≡ some es' → IsInstalled wanted ca_bundle es')
        → (after_search api config_name wanted ca_bundle o w).0 ≡ ok tt
        → IsInstalled wanted ca_bundle
            (held (after_search api config_name wanted ca_bundle o w).1 config_name)
    searched-IsInstalled none w good h = absurd (ok≢err (sym h))
    searched-IsInstalled (some es') w good h =
        subst⁻¹ (IsInstalled wanted ca_bundle) (laws.updated config_name es' w h) (good es' refl)

    once-IsInstalled :
        (w : W)
        → (patch_once api config_name wanted ca_bundle w).0 ≡ ok tt
        → IsInstalled wanted ca_bundle
            (held (patch_once api config_name wanted ca_bundle w).1 config_name)
    unfolding patch_once
    once-IsInstalled w h =
        let (es, got, same, out) =
          wrapped_bind-ok "get MutatingWebhookConfiguration %s: %w" (config_name ∷ [])
            (gets (api.get config_name)) _ w tt h in
        subst⁻¹ (λ (r : Result (Unit {0}) × W). IsInstalled wanted ca_bundle (held r.1 config_name))
          same (searched-IsInstalled (set_ca_bundle wanted ca_bundle es) w (set-IsInstalled es) out)

    -- If updates and retries do as documented: after a `PatchWebhookCABundle` that succeeds, the
    -- configuration that the API server holds has an entry of that name, and the first such entry
    -- has the bundle and the policy `Fail`.
    pub patch_webhook_ca_bundle-IsInstalled :
        (w : W)
        → (patch_webhook_ca_bundle api config_name wanted ca_bundle w).0 ≡ ok tt
        → IsInstalled wanted ca_bundle
            (held (patch_webhook_ca_bundle api config_name wanted ca_bundle w).1 config_name)
    unfolding patch_webhook_ca_bundle
    patch_webhook_ca_bundle-IsInstalled w h =
        let (v, tried, same) = laws.retried (patch_once api config_name wanted ca_bundle) w h in
        subst⁻¹ (λ u. IsInstalled wanted ca_bundle (held u config_name)) same
          (once-IsInstalled v tried)
