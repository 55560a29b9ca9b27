-- ===== src/Webhook/SelfSigned/Trust.antt =====
-- Certificates that are made are trusted.
use native.Mathlib.Nat.{le_refl}
use kubernetes_external_prov.Base.{
  Result, String, [], arith, ok, ok-injective, subst, subst⁻¹, wrap, ℕ, ◌∙◌, ◌≡◌, ◌≤◌,
}
use kubernetes_external_prov.Exec.{lift, wrapped}
use kubernetes_external_prov.Exec.Keeps.{Keeps, Keeps-bind}
use kubernetes_external_prov.Exec.Returns.{>>=-ok, wrap-ok, wrapped_bind-ok}
use kubernetes_external_prov.Fsutils.Decode.{signed}
use kubernetes_external_prov.Webhook.Certs.{Certs}
use kubernetes_external_prov.Webhook.SelfSigned.{
  Certificate, Crypto, ca_template, generate_self_signed_cert, make_server, server_template,
  sign_authority, sign_server,
}
use kubernetes_external_prov.Webhook.SelfSigned.X509.{
  IsHost, IsTrusted, X509Laws, ca_template-IsAuthority, ca_template-IsValidAt,
  server_template-IsServer, server_template-IsValidAt,
}

module _ {W Key Public Der : Type 0} (crypto : Crypto W Key Public Der)
    (accepts : String → String → String → ℕ → Type 0) (pairs : String → String → Type 0) where
  module _ (laws : X509Laws crypto accepts pairs) (service_name namespace host : String)
      (named : IsHost service_name namespace host) where
    abbrev From : ℕ → W → Type 0
    From n w = n ≤ crypto.now w

    key-From : (n bits : ℕ) → Keeps (From n) (crypto.generate_key bits)
    key-From n bits w h = omega (arith, laws.key_later bits w)

    sign-From :
        (n : ℕ) (c p : Certificate) (public : Public) (key : Key)
        → Keeps (From n) (crypto.create_certificate c p public key)
    sign-From n c p public key w h = omega (arith, laws.sign_later c p public key w)

    sign_server-From :
        (n : ℕ) (ca_der : Der) (ca_cert : Certificate) (ca_key server_key : Key)
        → Keeps
            (From n)
            (sign_server crypto service_name namespace ca_der ca_cert ca_key server_key)
    unfolding sign_server
    sign_server-From n ca_der ca_cert ca_key server_key w h =
        Keeps-bind (From n)
          (wrapped "create server cert: %w" [] (
            crypto.create_certificate (server_template service_name namespace (crypto.now w))
              ca_cert (crypto.public_key server_key) ca_key))
          _ (sign-From n _ _ _ _) (λ _ v p. p) w h

    -- The authority's certificate was made in the state `u`, not before `start`.
    module _ (ca_der : Der) (ca_cert : Certificate) (ca_key : Key) (u : W) (start : ℕ)
        (begun : start ≤ crypto.now u)
        (ca : (crypto.create_certificate
            (ca_template service_name (crypto.now u))
            (ca_template service_name (crypto.now u))
            (crypto.public_key ca_key)
            ca_key
            u).0
          ≡ ok ca_der)
        (parsed : crypto.parse_certificate ca_der ≡ ok ca_cert) where
      server-IsTrusted :
          (server_key : Key) (server_der : Der) (w : W) (made : ℕ)
          → crypto.now u ≤ crypto.now w
          → crypto.now w ≤ made
          → (crypto.create_certificate
              (server_template service_name namespace (crypto.now w))
              ca_cert
              (crypto.public_key server_key)
              ca_key
              w).0
            ≡ ok server_der
          → IsTrusted crypto accepts pairs
              (record {
                ca_cert = crypto.encode_pem "CERTIFICATE" ca_der;
                server_cert = crypto.encode_pem "CERTIFICATE" server_der;
                server_key = crypto.encode_pem "RSA PRIVATE KEY" (crypto.marshal_key server_key);
              })
              host
              start
              made
      server-IsTrusted server_key server_der w made order late signed = record {
        accepted = λ t after before.
            laws.accepted _ _ ca_cert ca_key (crypto.public_key server_key) ca_der server_der u w
              service_name namespace host t named ca parsed signed
              (ca_template-IsAuthority service_name (crypto.now u))
              (server_template-IsServer service_name namespace host (crypto.now w) named)
              (ca_template-IsValidAt service_name (crypto.now u) t (omega arith) (omega arith))
              (server_template-IsValidAt service_name namespace (crypto.now w) t (omega arith)
                (omega arith));
        paired = laws.paired _ ca_cert ca_key server_key server_der w signed;
      }

      sign_server-IsTrusted :
          (server_key : Key) (w : W) (certs : Certs)
          → crypto.now u ≤ crypto.now w
          → (sign_server crypto service_name namespace ca_der ca_cert ca_key server_key w).0
            ≡ ok certs
          → IsTrusted crypto accepts pairs certs host start (
              crypto.now
                (sign_server crypto service_name namespace ca_der ca_cert ca_key server_key w).1)
      unfolding sign_server
      sign_server-IsTrusted server_key w certs order h =
          let (server_der, done, same, out) =
            wrapped_bind-ok "create server cert: %w" []
              (crypto.create_certificate (server_template service_name namespace (crypto.now w))
                ca_cert (crypto.public_key server_key) ca_key)
              _ w certs h in
          subst
            (λ c. IsTrusted crypto accepts pairs c host start (
              crypto.now
                (sign_server crypto service_name namespace ca_der ca_cert ca_key server_key w).1))
            (ok-injective out)
            (server-IsTrusted server_key server_der w _ order
              (sign_server-From (crypto.now w) ca_der ca_cert ca_key server_key w
                (le_refl (crypto.now w)))
              done)

      make_server-IsTrusted :
          (v : W) (certs : Certs)
          → crypto.now u ≤ crypto.now v
          → (make_server crypto service_name namespace ca_der ca_cert ca_key v).0 ≡ ok certs
          → IsTrusted crypto accepts pairs certs host start
              (crypto.now (make_server crypto service_name namespace ca_der ca_cert ca_key v).1)
      unfolding make_server
      make_server-IsTrusted v certs order h =
          let (server_key, done, same, out) =
            wrapped_bind-ok "generate server key: %w" [] (crypto.generate_key 2048) _ v certs h in
          subst⁻¹
            (λ (r : Result Certs × W).
              IsTrusted crypto accepts pairs certs host start (crypto.now r.1))
            same
            (sign_server-IsTrusted server_key (crypto.generate_key 2048 v).1 certs
              (key-From (crypto.now u) 2048 v order) out)

    sign_authority-IsTrusted :
        (ca_key : Key) (u : W) (certs : Certs) (start : ℕ)
        → start ≤ crypto.now u
        → (sign_authority crypto service_name namespace ca_key u).0 ≡ ok certs
        → IsTrusted crypto accepts pairs certs host start
            (crypto.now (sign_authority crypto service_name namespace ca_key u).1)
    unfolding sign_authority
    sign_authority-IsTrusted ca_key u certs start begun h =
        let (ca_der, done, same, out) =
          wrapped_bind-ok "create CA cert: %w" []
            (crypto.create_certificate (ca_template service_name (crypto.now u))
              (ca_template service_name (crypto.now u)) (crypto.public_key ca_key) ca_key)
            _ u certs h in
        let v =
          (crypto.create_certificate (ca_template service_name (crypto.now u))
            (ca_template service_name (crypto.now u)) (crypto.public_key ca_key) ca_key u).1 in
        let (ca_cert, parsed, same', out') =
          >>=-ok (lift (wrap "parse CA cert: %w" [] (crypto.parse_certificate ca_der))) _ v certs
            out in
        subst⁻¹
          (λ (r : Result Certs × W).
            IsTrusted crypto accepts pairs certs host start (crypto.now r.1))
          (same ∙ same')
          (make_server-IsTrusted ca_der ca_cert ca_key u start begun done (wrap-ok _ _ _ parsed) v
            certs (sign-From (crypto.now u) _ _ _ _ u (le_refl (crypto.now u))) out')

    -- If crypto/x509 does as documented, certificates that are made for a service are good for it:
    -- a client that calls the service by one of its two names, and has the authority's certificate
    -- as its bundle, accepts the server's certificate from an hour before the end of the making
    -- until ten years after its start, and the server's certificate and key make a pair.
    pub generate_self_signed_cert-IsTrusted :
        (w : W) (certs : Certs)
        → (generate_self_signed_cert crypto service_name namespace w).0 ≡ ok certs
        → IsTrusted crypto accepts pairs certs host
            (crypto.now w)
            (crypto.now (generate_self_signed_cert crypto service_name namespace w).1)
    unfolding generate_self_signed_cert
    generate_self_signed_cert-IsTrusted w certs h =
        let (ca_key, done, same, out) =
          wrapped_bind-ok "generate CA key: %w" [] (crypto.generate_key 2048) _ w certs h in
        subst⁻¹
          (λ (r : Result Certs × W).
            IsTrusted crypto accepts pairs certs host (crypto.now w) (crypto.now r.1))
          same
          (sign_authority-IsTrusted ca_key (crypto.generate_key 2048 w).1 certs (crypto.now w)
            (key-From (crypto.now w) 2048 w (le_refl (crypto.now w))) out)
