-- ===== src/Webhook/SelfSigned.antt =====
-- `GenerateSelfSignedCert` of webhook/internal/webhook/certs.go. The packages crypto/rsa, crypto/x509 and
-- encoding/pem, with the random numbers and the clock, are the operations of `Crypto`, over types of
-- keys, public keys and encoded certificates that are left open. Times are in seconds.
pub mod X509
pub mod Trust
use kubernetes_external_prov.Base.{
  Bool, List, Result, String, [], false, true, wrap, ℕ, ◌*◌, ◌+◌, ◌-◌, ◌^^◌, ◌∷◌,
}
use kubernetes_external_prov.Exec.{Exec, lift, pure, wrapped, ◌>>=◌, ◌>>◌}
use kubernetes_external_prov.Webhook.Certs.{Certs}

pub data KeyUsage : Type 0 where
  cert_sign crl_sign digital_signature key_encipherment : KeyUsage

pub data ExtKeyUsage : Type 0 where
  client_auth server_auth : ExtKeyUsage

-- The fields of `x509.Certificate` that the code sets.
pub record Certificate : Type 0 where
  pub serial_number : ℕ
  pub common_name : String
  pub dns_names : List String
  pub ip_addresses : List String
  pub not_before : ℕ
  pub not_after : ℕ
  pub is_ca : Bool
  pub key_usage : List KeyUsage
  pub ext_key_usage : List ExtKeyUsage
  pub basic_constraints_valid : Bool

pub record Crypto (W Key Public Der : Type 0) : Type 0 where
  pub generate_key : ℕ → Exec W Key
  pub public_key : Key → Public
  -- template, parent, the subject's public key, the signer's key
  pub create_certificate : Certificate → Certificate → Public → Key → Exec W Der
  pub parse_certificate : Der → Result Certificate
  pub encode_pem : String → Der → String
  pub marshal_key : Key → Der
  pub now : W → ℕ

abbrev pub hour : ℕ
hour = 3600

abbrev pub cert_validity : ℕ
cert_validity = 10 * 365 * 24 * hour

-- `caTemplate`, at that time.
unfoldable pub ca_template : String → ℕ → Certificate
ca_template service_name now = record {
  serial_number = 1;
  common_name = service_name ^^ "-ca";
  dns_names = [];
  ip_addresses = [];
  not_before = now - hour;
  not_after = now + cert_validity;
  is_ca = true;
  key_usage = cert_sign ∷ crl_sign ∷ [];
  ext_key_usage = [];
  basic_constraints_valid = true;
}

-- `serverTemplate`, at that time.
unfoldable pub server_template : String → String → ℕ → Certificate
server_template service_name namespace now =
    let svc = service_name ^^ "." ^^ namespace ^^ ".svc" in
    let svc_full = service_name ^^ "." ^^ namespace ^^ ".svc.cluster.local" in
    record {
      serial_number = 2;
      common_name = svc;
      dns_names = svc ∷ svc_full ∷ [];
      ip_addresses = "127.0.0.1" ∷ [];
      not_before = now - hour;
      not_after = now + cert_validity;
      is_ca = false;
      key_usage = digital_signature ∷ key_encipherment ∷ [];
      ext_key_usage = server_auth ∷ [];
      basic_constraints_valid = false;
    }

module _ {W Key Public Der : Type 0} (crypto : Crypto W Key Public Der) where
  -- From the server's certificate on.
  unfoldable pub sign_server : String → String → Der → Certificate → Key → Key → Exec W Certs
  unfolding server_template
  sign_server service_name namespace ca_der ca_cert ca_key server_key w =
      (do
        server_der ← wrapped "create server cert: %w" [] (
            crypto.create_certificate (server_template service_name namespace (crypto.now w))
              ca_cert (crypto.public_key server_key) ca_key)
        pure (record {
          ca_cert = crypto.encode_pem "CERTIFICATE" ca_der;
          server_cert = crypto.encode_pem "CERTIFICATE" server_der;
          server_key = crypto.encode_pem "RSA PRIVATE KEY" (crypto.marshal_key server_key);
        }))
        w

  -- From the server's key on.
  unfoldable pub make_server : String → String → Der → Certificate → Key → Exec W Certs
  unfolding sign_server
  make_server service_name namespace ca_der ca_cert ca_key = do
    server_key ← wrapped "generate server key: %w" [] (crypto.generate_key 2048)
    sign_server service_name namespace ca_der ca_cert ca_key server_key

  -- From the authority's certificate on.
  unfoldable pub sign_authority : String → String → Key → Exec W Certs
  unfolding ca_template make_server
  sign_authority service_name namespace ca_key w =
      (do
        ca_der ← wrapped "create CA cert: %w" [] (
            crypto.create_certificate (ca_template service_name (crypto.now w))
              (ca_template service_name (crypto.now w)) (crypto.public_key ca_key) ca_key)
        ca_cert ← lift (wrap "parse CA cert: %w" [] (crypto.parse_certificate ca_der))
        make_server service_name namespace ca_der ca_cert ca_key)
        w

  -- `GenerateSelfSignedCert`
  unfoldable pub generate_self_signed_cert : String → String → Exec W Certs
  unfolding sign_authority
  generate_self_signed_cert service_name namespace = do
    ca_key ← wrapped "generate CA key: %w" [] (crypto.generate_key 2048)
    sign_authority service_name namespace ca_key
