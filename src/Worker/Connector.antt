-- ===== src/Worker/Connector.antt =====
-- src/worker.rs, `ssl_connector`: the TLS connector that a configuration asks for. The builder of
-- BoringSSL and the file system are a parameter; a builder is threaded through its setters.
pub mod Decides
use rpc_perf.Base.{
  ℕ, ◌≡◌, refl, Bool, true, false, ◌||◌, Option, none, some, List, [], ◌∷◌, if◌then◌else◌,
  Option-cases, inl, inr,
}
use rpc_perf.Base.Bytes.{Bytes}
use rpc_perf.Base.Outcome.{ErrorKind, other, Io, ok, err, Io-cases}

-- A call whose error the source replaces returns an option. `read_chain` is `std::fs::read`,
-- `parse_chain` is `X509::stack_from_pem`.
pub record Openssl : Type 1 where
  pub Builder : Type 0
  pub Connector : Type 0
  pub Cert : Type 0
  pub builder : Io Builder
  pub set_verify_none : Builder → Builder
  pub set_private_key_file : Bytes → Builder → Option Builder
  pub set_ca_file : Bytes → Builder → Option Builder
  pub set_certificate_file : Bytes → Builder → Option Builder
  pub set_certificate_chain_file : Bytes → Builder → Option Builder
  pub read_chain : Bytes → Option Bytes
  pub parse_chain : Bytes → Option (List Cert)
  pub add_extra_chain_cert : Cert → Builder → Option Builder
  pub set_session_cache : ℕ → Builder → Builder
  pub build : Builder → Connector

pub record Tls : Type 0 where
  pub certificate : Option Bytes
  pub private_key : Option Bytes
  pub ca_file : Option Bytes
  pub certificate_chain : Option Bytes
  pub verify : Bool
  pub session_cache : Option ℕ

infixl 5 ◌>>=◌
abbrev pub ◌>>=◌ {ℓ κ} : {A : Type ℓ} {B : Type κ} → Io A → (A → Io B) → Io B
ok a >>= f = f a
err e >>= f = err e

abbrev pub or_other {ℓ} : {A : Type ℓ} → Option A → Io A
or_other none = err other
or_other (some a) = ok a

abbrev pub is_some {ℓ} : {A : Type ℓ} → Option A → Bool
is_some none = false
is_some (some a) = true

abbrev xor : Bool → Bool → Bool
xor true true = false
xor true false = true
xor false b = b

-- The configuration is under-specified.
abbrev pub incomplete : Tls → Bool
incomplete config =
    xor (is_some config.private_key)
      (is_some config.certificate_chain || is_some config.certificate)

module _ (ssl : Openssl) where
  pub add_chain : List ssl.Cert → ssl.Builder → Io ssl.Builder
  add_chain [] b = ok b
  add_chain (cert ∷ chain) b = do
    b' ← or_other (ssl.add_extra_chain_cert cert b)
    add_chain chain b'

  pub load_ca : Option Bytes → ssl.Builder → Io ssl.Builder
  load_ca none b = ok b
  load_ca (some f) b = or_other (ssl.set_ca_file f b)

  -- The match on the chain and the certificate, with the value that is returned early.
  pub load_certificates : Option Bytes → Option Bytes → ssl.Builder → Io (Option ssl.Builder)
  unfolding add_chain
  load_certificates (some chain) (some cert) b = do
    b₁ ← or_other (ssl.set_certificate_file cert b)
    pem ← or_other (ssl.read_chain chain)
    certs ← or_other (ssl.parse_chain pem)
    b₂ ← add_chain certs b₁
    ok (some b₂)
  load_certificates (some chain) none b = do
    b₁ ← or_other (ssl.set_certificate_chain_file chain b)
    ok (some b₁)
  load_certificates none (some cert) b = do
    b₁ ← or_other (ssl.set_certificate_file cert b)
    ok (some b₁)
  load_certificates none none b = ok none

  cached : Option ℕ → ssl.Builder → ssl.Builder
  cached none b = b
  cached (some size) b = ssl.set_session_cache size b

  pub built : Option ℕ → Option ssl.Builder → Io (Option ssl.Connector)
  unfolding cached
  built session_cache none = ok none
  built session_cache (some b) = ok (some (ssl.build (cached session_cache b)))

  pub load_key : Tls → Option Bytes → ssl.Builder → Io (Option ssl.Connector)
  unfolding load_ca load_certificates built
  load_key config none b = ok none
  load_key config (some f) b = do
    b₁ ← or_other (ssl.set_private_key_file f b)
    b₂ ← load_ca config.ca_file b₁
    b₃ ← load_certificates config.certificate_chain config.certificate b₂
    built config.session_cache b₃

  unfoldable pub ssl_connector : Tls → Io (Option ssl.Connector)
  unfolding load_key
  ssl_connector config = do
    b ← ssl.builder
    let b' = if config.verify then b else ssl.set_verify_none b
    (if incomplete config then err other else load_key config config.private_key b')
