-- ===== src/Certs/Settings.antt =====
-- How certs/certs.go sets up TLS and certmagic. The client of etcd and what certmagic has by default
-- are parameters.
use elinproxy.Prelude.{ℕ, Bool, true, false, Option, none, some, List, [], ◌∷◌, if◌then◌else◌}
use mathlib.Core.List.{Perm, perm_append_comm}
use mathlib.Core.List.Perm
use elinproxy.Text.{Bytes, codes}
use elinproxy.Certs.{Cert, Certs, load_certs_from_config}

pub data CipherSuite : Type 0 where
  ecdhe_ecdsa_with_aes_256_gcm_sha384 ecdhe_rsa_with_aes_256_gcm_sha384 : CipherSuite
  ecdhe_ecdsa_with_aes_128_gcm_sha256 ecdhe_rsa_with_aes_128_gcm_sha256 : CipherSuite
  ecdhe_ecdsa_with_chacha20_poly1305 ecdhe_rsa_with_chacha20_poly1305 : CipherSuite
  rsa_with_aes_256_cbc_sha rsa_with_aes_128_cbc_sha256 : CipherSuite
  rsa_with_aes_128_cbc_sha rsa_with_3des_ede_cbc_sha : CipherSuite

abbrev pub default_ciphers_prefer_aes : List CipherSuite
default_ciphers_prefer_aes =
    ecdhe_ecdsa_with_aes_256_gcm_sha384 ∷ ecdhe_rsa_with_aes_256_gcm_sha384
    ∷ ecdhe_ecdsa_with_aes_128_gcm_sha256 ∷ ecdhe_rsa_with_aes_128_gcm_sha256
    ∷ ecdhe_ecdsa_with_chacha20_poly1305 ∷ ecdhe_rsa_with_chacha20_poly1305
    ∷ rsa_with_aes_256_cbc_sha ∷ rsa_with_aes_128_cbc_sha256 ∷ rsa_with_aes_128_cbc_sha
    ∷ rsa_with_3des_ede_cbc_sha ∷ []

abbrev pub default_ciphers_prefer_cha_cha : List CipherSuite
default_ciphers_prefer_cha_cha =
    ecdhe_ecdsa_with_chacha20_poly1305 ∷ ecdhe_rsa_with_chacha20_poly1305
    ∷ ecdhe_ecdsa_with_aes_256_gcm_sha384 ∷ ecdhe_rsa_with_aes_256_gcm_sha384
    ∷ ecdhe_ecdsa_with_aes_128_gcm_sha256 ∷ ecdhe_rsa_with_aes_128_gcm_sha256
    ∷ rsa_with_aes_256_cbc_sha ∷ rsa_with_aes_128_cbc_sha256 ∷ rsa_with_aes_128_cbc_sha
    ∷ rsa_with_3des_ede_cbc_sha ∷ []

-- preferredDefaultCipherSuites; the argument is what cpuid tells of AES-NI.
unfoldable pub preferred_default_cipher_suites : Bool → List CipherSuite
preferred_default_cipher_suites aes_ni =
    if aes_ni then default_ciphers_prefer_aes else default_ciphers_prefer_cha_cha

-- Config
pub record Config : Type 0 where
  pub ca : Bytes
  pub email : Bytes
  pub pem : List (Bytes × Bytes)
  pub etcd_endpoints : List Bytes
  pub alt_http_port : ℕ
  pub alt_tlsalpn_port : ℕ

-- The fields of certmagic's configuration that the code sets. `storage` is the client of etcd of
-- newStorage, or nil behind an interface that is not nil.
pub record Acme (Client : Type 0) : Type 0 where
  pub storage : Option Client
  pub ca : Bytes
  pub agreed : Bool
  pub email : Bytes
  pub alt_http_port : ℕ
  pub alt_tlsalpn_port : ℕ
  pub disable_tlsalpn_challenge : Bool
  pub on_demand : Option (Bytes → Bool)

module _ {Client : Type 0} (connect : List Bytes → Option Client) where
  -- newStorage, with clientv3.New
  unfoldable pub new_storage : List Bytes → Option Client
  new_storage [] = connect (codes "http://localhost:2379" ∷ [])
  new_storage (e ∷ es) = connect (e ∷ es)

  -- Reload; a host name is never refused, which is `true`.
  unfoldable pub reload :
      (Bytes × Bytes → Option Cert) → Config → Certs × Acme Client → Certs × Acme Client
  unfolding new_storage load_certs_from_config
  reload key_pair cfg (c, acme) = (
    load_certs_from_config key_pair cfg.pem c,
    record acme {
      storage = new_storage cfg.etcd_endpoints;
      ca = cfg.ca;
      agreed = true;
      email = cfg.email;
      alt_http_port = cfg.alt_http_port;
      alt_tlsalpn_port = cfg.alt_tlsalpn_port;
      disable_tlsalpn_challenge = true;
      on_demand = some (λ name. true);
    },
  )

  -- New; `none` is the panic without a configuration.
  unfoldable pub new :
      (Bytes × Bytes → Option Cert) → Acme Client → Option Config → Option (Certs × Acme Client)
  unfolding reload
  new key_pair by_default none = none
  new key_pair by_default (some cfg) =
      some (reload key_pair cfg (record { certs = []; certs_wc = [] }, by_default))

-- TLSConfig: certmagic's, with the suites set.
unfoldable pub tls_config : {T : Type 0} → (List CipherSuite → T → T) → Bool → T → T
unfolding preferred_default_cipher_suites
tls_config set_cipher_suites aes_ni tls =
    set_cipher_suites (preferred_default_cipher_suites aes_ni) tls

-- With and without AES-NI the same cipher suites are offered, in another order.
pub preferred_default_cipher_suites-Perm :
    Perm (preferred_default_cipher_suites true) (preferred_default_cipher_suites false)
unfolding preferred_default_cipher_suites
preferred_default_cipher_suites-Perm =
    Perm.append_right
      (rsa_with_aes_256_cbc_sha ∷ rsa_with_aes_128_cbc_sha256 ∷ rsa_with_aes_128_cbc_sha
        ∷ rsa_with_3des_ede_cbc_sha ∷ [])
      (perm_append_comm
        (ecdhe_ecdsa_with_aes_256_gcm_sha384 ∷ ecdhe_rsa_with_aes_256_gcm_sha384
          ∷ ecdhe_ecdsa_with_aes_128_gcm_sha256 ∷ ecdhe_rsa_with_aes_128_gcm_sha256 ∷ [])
        (ecdhe_ecdsa_with_chacha20_poly1305 ∷ ecdhe_rsa_with_chacha20_poly1305 ∷ []))
