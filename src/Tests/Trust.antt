-- ===== src/Tests/Trust.antt =====
-- A webhook that signs its own certificate, over a small crypto/x509: a certificate is its template with
-- the public key and the key of the signer, and each of its calls takes a second. The state is the
-- secret, the entries of the webhook configuration, and the time.
use kubernetes_external_prov.Base.{
  Dict, List, Option, String, [], arith, err, external, inr, none, none≢some, ok, ok-injective,
  refl, some, suc, sym, true, ℕ, ◌+◌, ◌^^◌, ◌∷◌, ◌≡◌,
}
use kubernetes_external_prov.Commands.Serve.{
  Server, WebhookClient, WebhookFlags, WebhookPlatform, choose_certificate, default_webhook_flags,
  route, self_signed, server_closed, setup, webhook_config_name, webhook_entry_name,
  webhook_namespace, webhook_of, webhook_service_name,
}
use kubernetes_external_prov.Commands.Serve.Trusted.{IsReady, IsTrustedFor, setup-IsTrusted}
use kubernetes_external_prov.Exec.{Exec}
use kubernetes_external_prov.Tests.Certs.{
  create_in, create_in-keeps, create_in-stores, get_of, get_of-found, unset_entry,
}
use kubernetes_external_prov.Webhook.CaBundle.{
  ConfigApi, WebhookEntry, patch_once, patch_webhook_ca_bundle, set_ca_bundle,
}
use kubernetes_external_prov.Webhook.CaBundle.Installed.{
  ConfigLaws, IsInstalled, patch_webhook_ca_bundle-IsInstalled,
}
use kubernetes_external_prov.Webhook.Certs.{Certs, SecretApi, already_exists, ensure_tls_secret}
use kubernetes_external_prov.Webhook.Certs.Agreement.{ApiLaws}
use kubernetes_external_prov.Webhook.Certs.Origin.{IsGood}
use kubernetes_external_prov.Webhook.SelfSigned.{
  Certificate, Crypto, ca_template, cert_validity, generate_self_signed_cert, make_server,
  server_template, sign_authority, sign_server,
}
use kubernetes_external_prov.Webhook.SelfSigned.Trust.{generate_self_signed_cert-IsTrusted}
use kubernetes_external_prov.Webhook.SelfSigned.X509.{
  IsAuthority, IsServer, IsTrusted, IsValidAt, X509Laws,
}

abbrev World : Type 0
World = Option (Dict String) × (List WebhookEntry × ℕ)

abbrev Signed : Type 0
Signed = Certificate × ℕ × ℕ

abbrev tick : World → World
tick w = (w.0, (w.1.0, suc w.1.1))

abbrev encoded : String → Signed → String
encoded kind c = kind ^^ ":" ^^ c.0.common_name

abbrev key_file_of : ℕ → Signed
key_file_of key = (ca_template "" 0, key, key)

abbrev crypto : Crypto World ℕ ℕ Signed
crypto = record {
  generate_key = λ bits w. (ok w.1.1, tick w);
  public_key = λ key. key;
  create_certificate = λ c p public key w. (ok (c, public, key), tick w);
  parse_certificate = λ c. ok c.0;
  encode_pem = encoded;
  marshal_key = key_file_of;
  now = λ w. w.1.1;
}

-- Some certificates with these texts are an authority's and one for the host, signed with its key.
pub record Accepts (ca server host : String) (t : ℕ) : Type 0 where
  pub issuer : Signed
  pub subject : Signed
  pub issuer_text : ca ≡ encoded "CERTIFICATE" issuer
  pub subject_text : server ≡ encoded "CERTIFICATE" subject
  pub signed : subject.2 ≡ issuer.1
  pub authority : IsAuthority issuer.0
  pub server_for : IsServer subject.0 host
  pub issuer_valid : IsValidAt issuer.0 t
  pub subject_valid : IsValidAt subject.0 t

-- Some certificate and key with these texts belong together.
pub record Pairs (cert key : String) : Type 0 where
  pub subject : Signed
  pub private_key : ℕ
  pub subject_text : cert ≡ encoded "CERTIFICATE" subject
  pub key_text : key ≡ encoded "RSA PRIVATE KEY" (key_file_of private_key)
  pub own : subject.1 ≡ private_key

crypto-X509Laws : X509Laws crypto Accepts Pairs
crypto-X509Laws = record {
  accepted =
      λ ca server parent ca_key public ca_der server_der w v service_name namespace host t named
          made parsed signed authority server_for ca_valid server_valid.
        record {
          issuer = (ca, ca_key, ca_key);
          subject = (server, public, ca_key);
          issuer_text = rw (sym (ok-injective made));
          subject_text = rw (sym (ok-injective signed));
          signed = refl;
          authority = authority;
          server_for = server_for;
          issuer_valid = ca_valid;
          subject_valid = server_valid;
        };
  paired = λ server parent ca_key server_key server_der v signed. record {
    subject = (server, server_key, ca_key);
    private_key = server_key;
    subject_text = rw (sym (ok-injective signed));
    key_text = refl;
    own = refl;
  };
  key_later = λ bits w. omega arith;
  sign_later = λ c p public key w. omega arith;
}

abbrev certs_at : ℕ → Certs
certs_at n = record {
  ca_cert = "CERTIFICATE:local-disk-webhook-ca";
  server_cert = "CERTIFICATE:local-disk-webhook.kube-system.svc";
  server_key = "RSA PRIVATE KEY:-ca";
}

abbrev disk_entry : WebhookEntry
disk_entry = record unset_entry { name = webhook_entry_name }

abbrev start : World
start = (none, (disk_entry ∷ [], 7200))

generate_self_signed_cert-IsTrusted_example :
    IsTrusted crypto Accepts Pairs
      (certs_at 7200)
      "local-disk-webhook.kube-system.svc.cluster.local"
      7200
      (crypto.now (generate_self_signed_cert crypto webhook_service_name webhook_namespace start).1)
generate_self_signed_cert-IsTrusted_example =
    generate_self_signed_cert-IsTrusted crypto Accepts Pairs crypto-X509Laws webhook_service_name
      webhook_namespace "local-disk-webhook.kube-system.svc.cluster.local" (inr refl) start
      (certs_at 7200)
      (unfold generate_self_signed_cert sign_authority make_server sign_server ca_template
          server_template in
        refl)

abbrev secrets_api : SecretApi World
secrets_api = record { get = λ w. get_of w.0; create = λ s w. create_in s w.0 w.1 }

abbrev make : Exec World Certs
make = generate_self_signed_cert crypto webhook_service_name webhook_namespace

make-quiet : (w : World) → (make w).1 ≡ (w.0, (w.1.0, suc (suc (suc (suc w.1.1)))))
unfolding generate_self_signed_cert sign_authority make_server sign_server
make-quiet w = refl

secrets_api-ApiLaws : ApiLaws secrets_api make (λ w. w.0)
secrets_api-ApiLaws = record {
  gives = λ w s. get_of-found w.0 s;
  stores = λ s w. create_in-stores s w.0 w.1;
  keeps = λ s t w. create_in-keeps s t w.0 w.1;
  quiet = λ w. rw (make-quiet w);
}

abbrev configs_api : ConfigApi World
configs_api = record {
  get = λ name w. ok w.1.0;
  update = λ name entries w. (ok tt, (w.0, (entries, w.1.1)));
  retry_on_conflict = λ m. m;
}

configs_api-ConfigLaws : ConfigLaws configs_api (λ w name. w.1.0)
configs_api-ConfigLaws = record {
  updated = λ name entries w h. refl;
  retried = λ m w h. (w, h, refl);
}

abbrev client : WebhookClient World
client = record {
  secrets = λ namespace name. secrets_api;
  configs = configs_api;
  get_pvc = λ namespace name w. ok [];
}

abbrev platform : WebhookPlatform World ℕ (String × String)
platform = record {
  in_cluster_config = λ w. ok 0;
  new_for_config = λ n. ok client;
  x509_key_pair = λ cert key. ok (cert, key);
  load_x509_key_pair = λ cert key w. err (external "no such file");
  informers =
      λ c. record { cached_pvc = λ namespace name w. ok []; list_nodes = λ label value w. ok [] };
  start_informers = λ w. w;
  wait_for_cache_sync = λ w. w;
  listen_and_serve = λ server w. (server_closed, w);
}

abbrev flags : WebhookFlags
flags = record default_webhook_flags { self_sign = true }

abbrev server : Server World (String × String)
server = record {
  addr = ":8443";
  handler = λ w. route (webhook_of client (platform.informers client) w);
  certificate = ((certs_at 0).server_cert, (certs_at 0).server_key);
  read_timeout = 10;
  write_timeout = 10;
}

kept_secret :
    (P : Certs → Type 0) (s : Dict String) (o : Option (Dict String)) (rest : List WebhookEntry × ℕ)
    → (create_in s o rest).0 ≡ already_exists
    → IsGood (λ (w : World). w.0) P (o, rest)
    → IsGood (λ (w : World). w.0) P (create_in s o rest).1
kept_secret P s none rest h good = cc
kept_secret P s (some t) rest h good = good

came_up : (setup platform (generate_self_signed_cert crypto) flags start).0 ≡ ok server
unfolding setup choose_certificate self_signed ensure_tls_secret patch_webhook_ca_bundle patch_once
    set_ca_bundle generate_self_signed_cert sign_authority make_server sign_server ca_template
    server_template
came_up = refl

setup-IsTrusted_example :
    (certs : Certs) × IsTrustedFor Accepts Pairs "local-disk-webhook.kube-system.svc" 7200
      (7200 + cert_validity)
      certs
    × IsReady platform
        (generate_self_signed_cert crypto)
        client
        (λ w. w.0)
        (λ w name. w.1.0)
        certs
        server.certificate
        (setup platform (generate_self_signed_cert crypto) flags start).1
setup-IsTrusted_example =
    setup-IsTrusted crypto Accepts Pairs crypto-X509Laws platform client (λ w. w.0)
      (λ w name. w.1.0) secrets_api-ApiLaws configs_api-ConfigLaws flags start
      (7200 + cert_validity) (rw (make-quiet start) (omega arith)) (omega arith)
      (λ s w.
        kept_secret
          (IsTrustedFor Accepts Pairs "local-disk-webhook.kube-system.svc" 7200
            (7200 + cert_validity))
          s w.0 w.1)
      0 server refl refl refl (λ s h. absurd (none≢some h)) came_up

patch_webhook_ca_bundle-IsInstalled_example :
    IsInstalled webhook_entry_name "bundle"
      (patch_webhook_ca_bundle configs_api webhook_config_name webhook_entry_name "bundle"
        start).1.1.0
patch_webhook_ca_bundle-IsInstalled_example =
    patch_webhook_ca_bundle-IsInstalled configs_api (λ w name. w.1.0) configs_api-ConfigLaws
      webhook_config_name webhook_entry_name "bundle" start
      (unfold patch_webhook_ca_bundle patch_once set_ca_bundle in refl)
