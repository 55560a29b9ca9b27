-- ===== src/Commands/Serve/Trusted.antt =====
-- What a webhook that signs its own certificate serves.
use kubernetes_external_prov.Base.{
  Dict, List, Option, Result, String, arith, inl, ok, ok-injective, refl, subst, subst⁻¹, true, ℕ,
  ◌+◌, ◌∙◌, ◌≡◌, ◌≤◌,
}
use kubernetes_external_prov.Commands.Serve.{
  Server, WebhookClient, WebhookFlags, WebhookPlatform, choose_certificate, self_signed, server_of,
  setup, webhook_config_name, webhook_entry_name, webhook_namespace, webhook_secret_name,
  webhook_service_name,
}
use kubernetes_external_prov.Exec.{Exec, lift, ◌>>=◌, ◌>>◌}
use kubernetes_external_prov.Exec.Returns.{>>=-ok}
use kubernetes_external_prov.Webhook.CaBundle.{WebhookEntry, patch_webhook_ca_bundle}
use kubernetes_external_prov.Webhook.CaBundle.Installed.{
  ConfigLaws, IsInstalled, patch_webhook_ca_bundle-IsInstalled,
}
use kubernetes_external_prov.Webhook.Certs.{Certs, SecretApi, already_exists, ensure_tls_secret}
use kubernetes_external_prov.Webhook.Certs.Agreement.{ApiLaws}
use kubernetes_external_prov.Webhook.Certs.Origin.{IsGood, ensure_tls_secret-origin}
use kubernetes_external_prov.Webhook.SelfSigned.{
  Crypto, cert_validity, generate_self_signed_cert, hour,
}
use kubernetes_external_prov.Webhook.SelfSigned.Trust.{generate_self_signed_cert-IsTrusted}
use kubernetes_external_prov.Webhook.SelfSigned.X509.{IsTrusted, X509Laws}

module _ {W Config Pair : Type 0} (platform : WebhookPlatform W Config Pair)
    (generate : String → String → Exec W Certs) (client : WebhookClient W)
    (stored : W → Option (Dict String)) (held : W → String → List WebhookEntry) where
  abbrev pub secret_api : SecretApi W
  secret_api = client.secrets webhook_namespace webhook_secret_name

  abbrev pub make : Exec W Certs
  make = generate webhook_service_name webhook_namespace

  -- The server has the pair of the certificate and key of `certs`, and the API server trusts `certs`.
  pub record IsReady (certs : Certs) (pair : Pair) (w : W) : Type 0 where
    pub served : platform.x509_key_pair certs.server_cert certs.server_key ≡ ok pair
    pub installed : IsInstalled webhook_entry_name certs.ca_cert (held w webhook_config_name)

  module _ (laws : ApiLaws secret_api make stored) (updates : ConfigLaws client.configs held)
      (P : Certs → Type 0)
      (others : (s : Dict String) (w : W)
        → (secret_api.create s w).0 ≡ already_exists
        → IsGood stored P w
        → IsGood stored P (secret_api.create s w).1) where
    patched-IsReady :
        (certs : Certs) (w : W) (pair : Pair)
        → ((patch_webhook_ca_bundle client.configs webhook_config_name webhook_entry_name
                certs.ca_cert
              >> lift (platform.x509_key_pair certs.server_cert certs.server_key))
            w).0
          ≡ ok pair
        → IsReady certs pair
            ((patch_webhook_ca_bundle client.configs webhook_config_name webhook_entry_name
                  certs.ca_cert
                >> lift (platform.x509_key_pair certs.server_cert certs.server_key))
              w).1
    patched-IsReady certs w pair h =
        let (a, patched, same, out) =
          >>=-ok
            (patch_webhook_ca_bundle client.configs webhook_config_name webhook_entry_name
              certs.ca_cert)
            (λ _. lift (platform.x509_key_pair certs.server_cert certs.server_key)) w pair h in
        subst⁻¹ (λ (r : Result Pair × W). IsReady certs pair r.1) same
          (record {
            served = out;
            installed =
                patch_webhook_ca_bundle-IsInstalled client.configs held updates webhook_config_name
                  webhook_entry_name certs.ca_cert w patched;
          })

    self_signed-IsReady :
        (w : W) (pair : Pair)
        → ((certs : Certs) → (make w).0 ≡ ok certs → P certs)
        → IsGood stored P w
        → (self_signed platform generate client w).0 ≡ ok pair
        → (certs : Certs) × P certs × IsReady certs pair (self_signed platform generate client w).1
    unfolding self_signed
    self_signed-IsReady w pair made good h =
        let (certs, ensured, same, out) =
          >>=-ok (ensure_tls_secret secret_api make webhook_namespace webhook_secret_name) _ w pair
            h in
        (
          certs,
          ensure_tls_secret-origin secret_api make stored laws webhook_namespace webhook_secret_name
              P others w made good certs ensured,
          subst⁻¹ (λ (r : Result Pair × W). IsReady certs pair r.1) same
              (patched-IsReady certs _ pair out),
        )

    -- Connected, and with the flag to sign itself, the webhook sets up as its branch for that does.
    setup-self_signed :
        (flags : WebhookFlags) (w : W) (config : Config)
        → flags.self_sign ≡ true
        → platform.in_cluster_config w ≡ ok config
        → platform.new_for_config config ≡ ok client
        → setup platform generate flags w
          ≡ (self_signed platform generate client
                >>= server_of flags client (platform.informers client))
              w
    unfolding setup choose_certificate
    setup-self_signed flags w config signs configured connected =
        rw (configured, setup) (rw (connected, signs))

    setup-IsReady :
        (flags : WebhookFlags) (w : W) (config : Config) (server : Server W Pair)
        → flags.self_sign ≡ true
        → platform.in_cluster_config w ≡ ok config
        → platform.new_for_config config ≡ ok client
        → ((certs : Certs) → (make w).0 ≡ ok certs → P certs)
        → IsGood stored P w
        → (setup platform generate flags w).0 ≡ ok server
        → (certs : Certs) × P certs
          × IsReady certs server.certificate (setup platform generate flags w).1
    setup-IsReady flags w config server signs configured connected made good h =
        let whole = setup-self_signed flags w config signs configured connected in
        let (pair, paired, same, out) =
          >>=-ok (self_signed platform generate client)
            (server_of flags client (platform.informers client)) w server
            (subst (λ (r : Result (Server W Pair) × W). r.0 ≡ ok server) whole h) in
        let (certs, p, ready) = self_signed-IsReady w pair made good paired in
        (
          certs,
          p,
          subst⁻¹ (λ (r : Result (Server W Pair) × W). IsReady certs server.certificate r.1)
              (whole ∙ same)
              (subst
                (λ (x : Server W Pair).
                  IsReady certs x.certificate (self_signed platform generate client w).1)
                (ok-injective out) ready),
        )

-- From one time to another, clients with the authority's certificate accept the server's for the host;
-- and the server's certificate and key make a pair.
pub record IsTrustedFor (accepts : String → String → String → ℕ → Type 0)
    (pairs : String → String → Type 0) (host : String) (start end : ℕ) (certs : Certs)
    : Type 0 where
  pub accepted : (t : ℕ) → start ≤ t → t ≤ end → accepts certs.ca_cert certs.server_cert host t
  pub paired : pairs certs.server_cert certs.server_key

-- Certificates that are made within an hour are trusted from the start of their making on.
trusted_from :
    {W Key Public Der : Type 0} (crypto : Crypto W Key Public Der)
    (accepts : String → String → String → ℕ → Type 0) (pairs : String → String → Type 0)
    (certs : Certs) (host : String) (start made end : ℕ)
    → IsTrusted crypto accepts pairs certs host start made
    → made ≤ start + hour
    → end ≤ start + cert_validity
    → IsTrustedFor accepts pairs host start end certs
trusted_from crypto accepts pairs certs host start made end trusted quick valid = record {
  accepted = λ t after before. trusted.accepted t (omega arith) (omega arith);
  paired = trusted.paired;
}

-- Let a webhook with the flag to sign itself start at some time, and let `end` be a time within ten
-- years of it. If crypto/x509, the API server and the retries do as documented, making certificates
-- then takes an hour at most, and the secret, where it is there at the start or is put there by
-- another replica, holds certificates that clients accept from that start until `end`: if the
-- webhook's start succeeds, it serves the pair of a certificate and key that clients with the
-- authority's certificate accept for `local-disk-webhook.kube-system.svc` at every time from its
-- start until `end`, and the webhook configuration that the API server holds then names that
-- authority.
pub setup-IsTrusted :
    {W Key Public Der Config Pair : Type 0} (crypto : Crypto W Key Public Der)
    (accepts : String → String → String → ℕ → Type 0) (pairs : String → String → Type 0)
    (x509 : X509Laws crypto accepts pairs) (platform : WebhookPlatform W Config Pair)
    (client : WebhookClient W) (stored : W → Option (Dict String))
    (held : W → String → List WebhookEntry)
    (laws : ApiLaws
      (client.secrets webhook_namespace webhook_secret_name)
      (generate_self_signed_cert crypto webhook_service_name webhook_namespace)
      stored)
    (updates : ConfigLaws client.configs held) (flags : WebhookFlags) (w : W) (end : ℕ)
    (quick : crypto.now
        (generate_self_signed_cert crypto webhook_service_name webhook_namespace w).1
      ≤ crypto.now w + hour)
    (valid : end ≤ crypto.now w + cert_validity)
    (others : (s : Dict String) (v : W)
      → ((client.secrets webhook_namespace webhook_secret_name).create s v).0 ≡ already_exists
      → IsGood stored
          (IsTrustedFor accepts pairs "local-disk-webhook.kube-system.svc" (crypto.now w) end)
          v
      → IsGood stored
          (IsTrustedFor accepts pairs "local-disk-webhook.kube-system.svc" (crypto.now w) end)
          ((client.secrets webhook_namespace webhook_secret_name).create s v).1)
    (config : Config) (server : Server W Pair)
    → flags.self_sign ≡ true
    → platform.in_cluster_config w ≡ ok config
    → platform.new_for_config config ≡ ok client
    → IsGood stored
        (IsTrustedFor accepts pairs "local-disk-webhook.kube-system.svc" (crypto.now w) end)
        w
    → (setup platform (generate_self_signed_cert crypto) flags w).0 ≡ ok server
    → (certs : Certs) × IsTrustedFor accepts pairs "local-disk-webhook.kube-system.svc"
        (crypto.now w)
        end
        certs
      × IsReady platform
          (generate_self_signed_cert crypto)
          client
          stored
          held
          certs
          server.certificate
          (setup platform (generate_self_signed_cert crypto) flags w).1
setup-IsTrusted crypto accepts pairs x509 platform client stored held laws updates flags w end quick
      valid others config server signs configured connected =
    setup-IsReady platform (generate_self_signed_cert crypto) client stored held laws updates
      (IsTrustedFor accepts pairs "local-disk-webhook.kube-system.svc" (crypto.now w) end) others
      flags w config server signs configured connected
      (λ certs h.
        trusted_from crypto accepts pairs certs "local-disk-webhook.kube-system.svc" (crypto.now w)
          _ end
          (generate_self_signed_cert-IsTrusted crypto accepts pairs x509 webhook_service_name
            webhook_namespace "local-disk-webhook.kube-system.svc" (inl refl) w certs h)
          quick valid)
