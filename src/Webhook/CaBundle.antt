-- ===== src/Webhook/CaBundle.antt =====
-- `PatchWebhookCABundle` of webhook/internal/webhook/certs.go.
pub mod Laws
pub mod Installed
use kubernetes_external_prov.Base.{
  List, Option, Result, String, [], errorf, if◌then◌else◌, none, some, ◌==◌, ◌∷◌,
}
use kubernetes_external_prov.Exec.{Exec, gets, raise, wrapped, ◌>>=◌, ◌>>◌}
use kubernetes_external_prov.Fsutils.FsType.Parsing.{entries}
use kubernetes_external_prov.Providers.MountInfo.{wanted}

-- An entry of the webhook configuration: its name, its bundle, its failure policy.
pub record WebhookEntry : Type 0 where
  pub name : String
  pub ca_bundle : String
  pub failure_policy : Option String

abbrev pub behind : WebhookEntry → Option (List WebhookEntry) → Option (List WebhookEntry)
behind e none = none
behind e (some es) = some (e ∷ es)

abbrev pub patched_entry : String → WebhookEntry → WebhookEntry
patched_entry ca_bundle e = record e { ca_bundle = ca_bundle; failure_policy = some "Fail" }

-- The loop of `PatchWebhookCABundle`: the first entry of that name is changed; none if there is none.
unfoldable pub set_ca_bundle : String → String → List WebhookEntry → Option (List WebhookEntry)
set_ca_bundle wanted ca_bundle [] = none
set_ca_bundle wanted ca_bundle (e ∷ es) =
    let rest = set_ca_bundle wanted ca_bundle es in
    if e.name == wanted then some (patched_entry ca_bundle e ∷ es) else behind e rest

-- The client's calls on the webhook configurations, and `retry.RetryOnConflict`.
pub record ConfigApi (W : Type 0) : Type 0 where
  pub get : String → W → Result (List WebhookEntry)
  pub update : String → List WebhookEntry → Exec W (Unit {0})
  pub retry_on_conflict : Exec W (Unit {0}) → Exec W (Unit {0})

module _ {W : Type 0} (api : ConfigApi W) (config_name wanted ca_bundle : String) where
  abbrev pub after_search : Option (List WebhookEntry) → Exec W (Unit {0})
  after_search none = raise (
      errorf "webhook entry %q not found in MutatingWebhookConfiguration %s"
        (wanted ∷ config_name ∷ []))
  after_search (some entries) = api.update config_name entries

  -- One try.
  unfoldable pub patch_once : Exec W (Unit {0})
  unfolding set_ca_bundle
  patch_once = do
    entries ←
        wrapped "get MutatingWebhookConfiguration %s: %w" (config_name ∷ [])
          (gets (api.get config_name))
    after_search (set_ca_bundle wanted ca_bundle entries)

  -- `PatchWebhookCABundle`
  unfoldable pub patch_webhook_ca_bundle : Exec W (Unit {0})
  unfolding patch_once
  patch_webhook_ca_bundle = api.retry_on_conflict patch_once
