-- ===== src/Commands/Serve.antt =====
-- webhook/cmd/main.go. The platform gives the client, the pairs of a certificate and a key, and the
-- server; signals, with the shutdown that they lead to, and the calls of the handler stand in the
-- server's run.
pub mod Trusted
use kubernetes_external_prov.Base.{
  Bool, Dict, Error, List, Option, Result, String, err, false, if◌then◌else◌, ok, ℕ, ◌==◌,
}
use kubernetes_external_prov.Exec.{Exec, gets, lift, pure, ◌>>=◌, ◌>>◌}
use kubernetes_external_prov.Webhook.{Cluster, Pod, Reply, handle, new_webhook}
use kubernetes_external_prov.Webhook.CaBundle.{ConfigApi, patch_webhook_ca_bundle}
use kubernetes_external_prov.Webhook.Certs.{Certs, SecretApi, ensure_tls_secret}

pub record WebhookFlags : Type 0 where
  pub addr : String
  pub cert_file : String
  pub key_file : String
  pub self_sign : Bool
  pub log_level : String

-- The values without flags.
abbrev pub default_webhook_flags : WebhookFlags
default_webhook_flags = record {
  addr = ":8443";
  cert_file = "/certs/tls.crt";
  key_file = "/certs/tls.key";
  self_sign = false;
  log_level = "info";
}

abbrev pub webhook_config_name : String
webhook_config_name = "local-disk-webhook"

abbrev pub webhook_entry_name : String
webhook_entry_name = "disk-affinity.agent.cubbit.io"

abbrev pub webhook_secret_name : String
webhook_secret_name = "local-disk-webhook-tls"

abbrev pub webhook_service_name : String
webhook_service_name = "local-disk-webhook"

abbrev pub webhook_namespace : String
webhook_namespace = "kube-system"

-- The client of the API server: the secret of a namespace and a name, the webhook configurations, and
-- the annotations of the claim of a namespace and a name.
pub record WebhookClient (W : Type 0) : Type 0 where
  pub secrets : String → String → SecretApi W
  pub configs : ConfigApi W
  pub get_pvc : String → String → W → Result (Dict String)

-- The answer to a request: that of the webhook, the text "ok", or that of the multiplexer, which has no
-- such route.
pub data HttpAnswer : Type 0 where
  mutated : Reply → HttpAnswer
  healthy : HttpAnswer
  unrouted : HttpAnswer

-- The multiplexer, for a request with that path and, as its body, that review.
unfoldable pub route : Cluster → String → Result (Option (String × Result Pod)) → HttpAnswer
unfolding handle
route cluster path review =
    if path == "/mutate"
    then mutated (handle cluster review)
    else if path == "/healthz"
    then healthy
    else unrouted

-- The caches that the shared informers keep for a client: claims, and nodes by a label.
pub record Informers (W : Type 0) : Type 0 where
  pub cached_pvc : String → String → W → Result (Dict String)
  pub list_nodes : String → String → W → Result (List String)

-- The webhook of `main`, for what client and informers answer in that world.
abbrev pub webhook_of : {W : Type 0} → WebhookClient W → Informers W → W → Cluster
webhook_of client informers w =
    new_webhook (λ namespace name. client.get_pvc namespace name w)
      (λ namespace name. informers.cached_pvc namespace name w)
      (λ label value. informers.list_nodes label value w)

-- What answers the requests of a path, in that world.
abbrev pub Handler : Type 0 → Type 0
Handler W = W → String → Result (Option (String × Result Pod)) → HttpAnswer

-- `http.Server`, with times in seconds.
pub record Server (W Pair : Type 0) : Type 0 where
  pub addr : String
  pub handler : Handler W
  pub certificate : Pair
  pub read_timeout : ℕ
  pub write_timeout : ℕ

-- What `ListenAndServeTLS` returns: `ErrServerClosed`, or another error.
pub data Served : Type 0 where
  server_closed : Served
  server_failed : Error → Served

pub record WebhookPlatform (W Config Pair : Type 0) : Type 0 where
  pub in_cluster_config : W → Result Config
  pub new_for_config : Config → Result (WebhookClient W)
  pub x509_key_pair : String → String → Result Pair
  pub load_x509_key_pair : String → String → W → Result Pair
  pub informers : WebhookClient W → Informers W
  -- `factory.Start` and `factory.WaitForCacheSync`
  pub start_informers : W → W
  pub wait_for_cache_sync : W → W
  pub listen_and_serve : Server W Pair → W → Served × W

-- The server of `main`.
abbrev pub server_of :
    {W Pair : Type 0} → WebhookFlags → WebhookClient W → Informers W → Pair → Exec W (Server W Pair)
server_of flags client informers pair = pure (record {
  addr = flags.addr;
  handler = λ w. route (webhook_of client informers w);
  certificate = pair;
  read_timeout = 10;
  write_timeout = 10;
})

module _ {W Config Pair : Type 0} (platform : WebhookPlatform W Config Pair)
    (generate : String → String → Exec W Certs) where
  -- The branch for `--self-sign`.
  unfoldable pub self_signed : WebhookClient W → Exec W Pair
  self_signed client = do
    certs ←
        ensure_tls_secret (client.secrets webhook_namespace webhook_secret_name)
          (generate webhook_service_name webhook_namespace) webhook_namespace webhook_secret_name
    patch_webhook_ca_bundle client.configs webhook_config_name webhook_entry_name certs.ca_cert
    lift (platform.x509_key_pair certs.server_cert certs.server_key)

  -- From the flag `--self-sign` on.
  unfoldable pub choose_certificate : WebhookFlags → WebhookClient W → Exec W Pair
  unfolding self_signed
  choose_certificate flags client =
      if flags.self_sign
      then self_signed client
      else gets (platform.load_x509_key_pair flags.cert_file flags.key_file)

  -- What `main` does before it serves; an error of it ends the program.
  unfoldable pub setup : WebhookFlags → Exec W (Server W Pair)
  unfolding choose_certificate route
  setup flags = do
    config ← gets platform.in_cluster_config
    client ← lift (platform.new_for_config config)
    pair ← choose_certificate flags client
    server_of flags client (platform.informers client) pair

  abbrev pub after_serve : Served × W → ℕ × W
  after_serve (server_closed, w) = (0, w)
  after_serve (server_failed e, w) = (1, w)

  abbrev pub after_setup : Result (Server W Pair) → W → ℕ × W
  after_setup (err e) w = (1, w)
  after_setup (ok server) w =
      after_serve (
        platform.listen_and_serve server
          (platform.wait_for_cache_sync (platform.start_informers w)))

  -- `main`
  unfoldable pub main : WebhookFlags → W → ℕ × W
  unfolding setup
  main flags w = let ready = setup flags w in after_setup ready.0 ready.1
