-- ===== src/Worker/Connector/Decides.antt =====
-- src/worker.rs: which configurations `ssl_connector` refuses, and which it makes a connector of.
use rpc_perf.Base.{
  ◌≡◌, refl, sym, ap, subst, ◌∙◌, false, if◌then◌else◌, Option, Option-cases, none, some, List, [],
  ◌∷◌, inl, inr, ◌⊎◌,
}
use rpc_perf.Base.Bytes.{Bytes}
use rpc_perf.Base.Outcome.{other, Io, ok, err}
use rpc_perf.Worker.Connector.{
  Openssl, Tls, ◌>>=◌, or_other, incomplete, add_chain, load_ca, load_certificates, built, load_key,
  ssl_connector,
}

-- An error is "other", and a value fulfils P.
pub Made {ℓ} : {A : Type ℓ} → (A → Type 0) → Io A → Type 0
Made P (ok a) = P a
Made P (err e) = e ≡ other

pub IsMade {ℓ} : {A : Type ℓ} → Option A → Type ℓ
IsMade {A = A} r = (a : A) × (r ≡ some a)

-- Neither a key nor a certificate, one without the other, and both.
pub Absent : Tls → Type 0
Absent config =
    (config.private_key ≡ none) × (config.certificate_chain ≡ none) × (config.certificate ≡ none)

Certified : Option Bytes → Option Bytes → Type 0
Certified chain certificate = IsMade chain ⊎ IsMade certificate

pub Half : Tls → Type 0
Half config =
    ((config.private_key ≡ none) × Certified config.certificate_chain config.certificate)
    ⊎ (IsMade config.private_key × (config.certificate_chain ≡ none) × (config.certificate ≡ none))

pub Whole : Tls → Type 0
Whole config = IsMade config.private_key × Certified config.certificate_chain config.certificate

bind-Made {ℓ κ} :
    {A : Type ℓ} {B : Type κ} (P : A → Type 0) (Q : B → Type 0) (r : Io A) (f : A → Io B)
    → Made P r
    → ((a : A) → P a → Made Q (f a))
    → Made Q (r >>= f)
unfolding Made
bind-Made P Q (ok a) f p k = k a p
bind-Made P Q (err e) f p k = p

Any {ℓ} : {A : Type ℓ} → A → Type 0
Any a = Unit {0}

-- What follows a call whose error is replaced.
then-Made {ℓ κ} :
    {A : Type ℓ} {B : Type κ} (Q : B → Type 0) (o : Option A) (f : A → Io B)
    → ((a : A) → Made Q (f a))
    → Made Q (or_other o >>= f)
unfolding Made
then-Made Q none f k = refl
then-Made Q (some a) f k = k a

or_other-Made {ℓ} : {A : Type ℓ} (o : Option A) → Made Any (or_other o)
unfolding Made Any
or_other-Made none = refl
or_other-Made (some a) = tt

module _ (ssl : Openssl) where
  add_chain-Made : (certs : List ssl.Cert) (b : ssl.Builder) → Made Any (add_chain ssl certs b)
  unfolding add_chain Made Any
  add_chain-Made [] b = tt
  add_chain-Made (cert ∷ certs) b =
      then-Made Any (ssl.add_extra_chain_cert cert b) (add_chain ssl certs) (add_chain-Made certs)

  load_ca-Made : (f : Option Bytes) (b : ssl.Builder) → Made Any (load_ca ssl f b)
  unfolding load_ca Made Any
  load_ca-Made none b = tt
  load_ca-Made (some f) b = or_other-Made (ssl.set_ca_file f b)

  load_certificates-Made :
      (chain certificate : Option Bytes) (b : ssl.Builder)
      → Certified chain certificate
      → Made IsMade (load_certificates ssl chain certificate b)
  unfolding load_certificates Made Any IsMade Certified
  load_certificates-Made (some chain) (some cert) b c =
      then-Made IsMade (ssl.set_certificate_file cert b) _ (λ b₁.
        then-Made IsMade (ssl.read_chain chain) _ (λ pem.
          then-Made IsMade (ssl.parse_chain pem) _ (λ certs.
            bind-Made Any IsMade (add_chain ssl certs b₁) _ (add_chain-Made certs b₁)
              (λ b₂ u. (b₂, refl)))))
  load_certificates-Made (some chain) none b c =
      then-Made IsMade (ssl.set_certificate_chain_file chain b) _ (λ b₁. (b₁, refl))
  load_certificates-Made none (some cert) b c =
      then-Made IsMade (ssl.set_certificate_file cert b) _ (λ b₁. (b₁, refl))
  load_certificates-Made none none b (inl (chain, e)) = cc
  load_certificates-Made none none b (inr (cert, e)) = cc

  load_key-Made :
      (config : Tls) (f : Bytes) (b : ssl.Builder)
      → Certified config.certificate_chain config.certificate
      → Made IsMade (load_key ssl config (some f) b)
  unfolding load_key built Made IsMade
  load_key-Made config f b c = then-Made IsMade (ssl.set_private_key_file f b) _ (λ b₁.
      bind-Made Any IsMade (load_ca ssl config.ca_file b₁) _ (load_ca-Made config.ca_file b₁)
        (λ b₂ u.
          bind-Made IsMade IsMade
            (load_certificates ssl config.certificate_chain config.certificate b₂) _
            (load_certificates-Made config.certificate_chain config.certificate b₂ c)
            (λ b₃ made. rw (made.1, built) (_, refl))))

  complete-Made :
      (config : Tls) (b : ssl.Builder) (f : Bytes)
      → ssl.builder ≡ ok b
      → config.private_key ≡ some f
      → Certified config.certificate_chain config.certificate
      → incomplete config ≡ false
      → Made IsMade (ssl_connector ssl config)
  unfolding ssl_connector
  complete-Made config b f e k c i =
      let b' = if config.verify then b else ssl.set_verify_none b in
      let loads : ssl_connector ssl config ≡ load_key ssl config config.private_key b' =
        rw (e, i) refl in
      subst (Made IsMade) (sym (loads ∙ ap (λ x. load_key ssl config x b') k))
        (load_key-Made config f b' c)

  -- When the builder of BoringSSL can be made: without a private key, a chain and a certificate
  -- ssl_connector returns Ok(None); with a private key but neither a chain nor a certificate, or
  -- without it but with one of them, it returns an error of the kind "other"; and with a private
  -- key and a chain or a certificate it returns a connector, or an error of the kind "other",
  -- never Ok(None).
  pub ssl_connector-Made :
      (config : Tls) (b : ssl.Builder)
      → ssl.builder ≡ ok b
      → (Absent config × (ssl_connector ssl config ≡ ok none))
        ⊎ (Half config × (ssl_connector ssl config ≡ err other))
        ⊎ (Whole config × Made IsMade (ssl_connector ssl config))
  unfolding ssl_connector load_key Absent Half Whole Certified IsMade
  ssl_connector-Made config b e = elim (Option-cases config.private_key) [
    | inl k ↦ elim (Option-cases config.certificate_chain) [
      | inl c ↦ elim (Option-cases config.certificate) [
        | inl d ↦ inl ((k, c, d), rw (e, k, c, d) refl)
        | inr (d, q) ↦ inr (inl (inl (k, inr (d, q)), rw (e, k, c, q) refl))
      ]
      | inr (c, q) ↦ inr (inl (inl (k, inl (c, q)), rw (e, k, q) refl))
    ]
    | inr (f, k) ↦ elim (Option-cases config.certificate_chain) [
      | inl c ↦ elim (Option-cases config.certificate) [
        | inl d ↦ inr (inl (inr ((f, k), c, d), rw (e, k, c, d) refl))
        | inr (d, q) ↦ inr (
            inr
              (((f, k), inr (d, q)), complete-Made config b f e k (inr (d, q)) (rw (k, c, q) refl)))
      ]
      | inr (c, q) ↦
          inr
            (inr (((f, k), inl (c, q)), complete-Made config b f e k (inl (c, q)) (rw (k, q) refl)))
    ]
  ]
