-- ===== src/Webhook/SelfSigned/X509.antt =====
-- What crypto/x509 promises of certificates, and that the two templates meet it.
use kubernetes_external_prov.Base.{
  Any, String, [], arith, inl, inr, ok, refl, sym, true, ℕ, ◌+◌, ◌^^◌, ◌≡◌, ◌≤◌, ◌⊎◌,
}
use kubernetes_external_prov.Webhook.Certs.{Certs}
use kubernetes_external_prov.Webhook.SelfSigned.{
  Certificate, Crypto, ca_template, cert_sign, cert_validity, digital_signature, hour, server_auth,
  server_template,
}

-- A certificate that may sign those of servers: its extended usages, where it has any, bind those below
-- it too.
pub record IsAuthority (c : Certificate) : Type 0 where
  pub authority : c.is_ca ≡ true
  pub constrained : c.basic_constraints_valid ≡ true
  pub signs : Any (λ u. u ≡ cert_sign) c.key_usage
  pub unrestricted : (c.ext_key_usage ≡ []) ⊎ Any (λ u. u ≡ server_auth) c.ext_key_usage

-- A certificate for a server of that name.
pub record IsServer (c : Certificate) (host : String) : Type 0 where
  pub names : Any (λ n. n ≡ host) c.dns_names
  pub serves : Any (λ u. u ≡ server_auth) c.ext_key_usage
  pub agrees : Any (λ u. u ≡ digital_signature) c.key_usage

abbrev pub IsValidAt : Certificate → ℕ → Type 0
IsValidAt c t = (c.not_before ≤ t) × (t ≤ c.not_after)

-- The names by which a service is called inside the cluster.
abbrev pub IsHost : String → String → String → Type 0
IsHost service_name namespace host =
    (host ≡ service_name ^^ "." ^^ namespace ^^ ".svc")
    ⊎ (host ≡ service_name ^^ "." ^^ namespace ^^ ".svc.cluster.local")

pub ca_template-IsAuthority :
    (service_name : String) (n : ℕ) → IsAuthority (ca_template service_name n)
unfolding ca_template
ca_template-IsAuthority service_name n = record {
  authority = refl;
  constrained = refl;
  signs = inl refl;
  unrestricted = inl refl;
}

pub server_template-IsServer :
    (service_name namespace host : String) (n : ℕ)
    → IsHost service_name namespace host
    → IsServer (server_template service_name namespace n) host
unfolding server_template
server_template-IsServer service_name namespace host n (inl e) = record {
  names = inl (sym e);
  serves = inl refl;
  agrees = inl refl;
}
server_template-IsServer service_name namespace host n (inr e) = record {
  names = inr (inl (sym e));
  serves = inl refl;
  agrees = inl refl;
}

pub ca_template-IsValidAt :
    (service_name : String) (n t : ℕ)
    → n ≤ t + hour
    → t ≤ n + cert_validity
    → IsValidAt (ca_template service_name n) t
unfolding ca_template
ca_template-IsValidAt service_name n t late soon = omega arith

pub server_template-IsValidAt :
    (service_name namespace : String) (n t : ℕ)
    → n ≤ t + hour
    → t ≤ n + cert_validity
    → IsValidAt (server_template service_name namespace n) t
unfolding server_template
server_template-IsValidAt service_name namespace n t late soon = omega arith

module _ {W Key Public Der : Type 0} (crypto : Crypto W Key Public Der)
    (accepts : String → String → String → ℕ → Type 0) (pairs : String → String → Type 0) where
  -- What crypto/x509, crypto/tls and the clock document. A client that trusts a bundle accepts, for a
  -- host at a time, a server's certificate that is signed with the key of a self-signed authority in
  -- the bundle, if both are valid then and made for their uses; this is asked for the names of
  -- services only, which no client takes for the text of an IP address. A certificate and a key make a
  -- pair if the certificate was made for the public key of the key. Time does not run backwards.
  pub record X509Laws : Type 0 where
    pub accepted :
        (ca server parent : Certificate) (ca_key : Key) (server_public : Public)
        (ca_der server_der : Der) (w v : W) (service_name namespace host : String) (t : ℕ)
        → IsHost service_name namespace host
        → (crypto.create_certificate ca ca (crypto.public_key ca_key) ca_key w).0 ≡ ok ca_der
        → crypto.parse_certificate ca_der ≡ ok parent
        → (crypto.create_certificate server parent server_public ca_key v).0 ≡ ok server_der
        → IsAuthority ca
        → IsServer server host
        → IsValidAt ca t
        → IsValidAt server t
        → accepts
            (crypto.encode_pem "CERTIFICATE" ca_der)
            (crypto.encode_pem "CERTIFICATE" server_der)
            host
            t
    pub paired :
        (server parent : Certificate) (ca_key server_key : Key) (server_der : Der) (v : W)
        → (crypto.create_certificate server parent (crypto.public_key server_key) ca_key v).0
          ≡ ok server_der
        → pairs
            (crypto.encode_pem "CERTIFICATE" server_der)
            (crypto.encode_pem "RSA PRIVATE KEY" (crypto.marshal_key server_key))
    pub key_later : (bits : ℕ) (w : W) → crypto.now w ≤ crypto.now (crypto.generate_key bits w).1
    pub sign_later :
        (c p : Certificate) (public : Public) (key : Key) (w : W)
        → crypto.now w ≤ crypto.now (crypto.create_certificate c p public key w).1

  -- A client with the authority's certificate accepts the server's for that host at all times between
  -- an hour before `made` and the validity after `start`, and the server can use its key.
  pub record IsTrusted (certs : Certs) (host : String) (start made : ℕ) : Type 0 where
    pub accepted :
        (t : ℕ)
        → made ≤ t + hour
        → t ≤ start + cert_validity
        → accepts certs.ca_cert certs.server_cert host t
    pub paired : pairs certs.server_cert certs.server_key
