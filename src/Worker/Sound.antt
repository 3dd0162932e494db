-- ===== src/Worker/Sound.antt =====
-- src/worker.rs: what the sessions of a worker and its ready queue have to be. The lemmas are on what
-- a write through a key and an insertion have in common.
use rpc_perf.Base.{
  ℕ, ◌≡◌, refl, sym, ◌∙◌, subst, inl, inr, true, Bool-cases, some, List, [], ◌∷◌, ◌++◌, ◌==◌,
  ==_iff, if◌then◌else◌,
}
use rpc_perf.Net.{Net}
use rpc_perf.Session.{Session}
use rpc_perf.Session.Calls.{IsProper}
use rpc_perf.Host.{Host}

module _ {net : Net} (host : Host net) where
  -- A token that names a session.
  unfoldable pub Names : host.Slab → ℕ → Type 0
  Names sessions token = (s : Session net) × (host.get sessions token ≡ some s)

  unfoldable pub AllName : host.Slab → List ℕ → Type 0
  unfolding Names
  AllName sessions [] = Unit {0}
  AllName sessions (token ∷ tokens) = Names sessions token × AllName sessions tokens

  -- The sessions are proper, and the tokens in the ready queue name some of them.
  pub record IsSound (sessions : host.Slab) (queue : List ℕ) : Type 0 where
    pub proper : (token : ℕ) (s : Session net) → host.get sessions token ≡ some s → IsProper token s
    pub named : AllName sessions queue

  -- No session is lost.
  unfoldable pub Persists : host.Slab → host.Slab → Type 0
  unfolding Names
  Persists before after = (token : ℕ) → Names before token → Names after token

some_injective : {A : Type 0} {a b : A} → some a ≡ some b → a ≡ b
some_injective e = cc

pub ==_refl : (k : ℕ) → (k == k) ≡ true
==_refl k = (==_iff k k).1 refl

module _ {net : Net} (host : Host net) where
  pub Persists-refl : (t : host.Slab) → Persists host t t
  unfolding Persists
  Persists-refl t token n = n

  pub Persists-trans :
      (t t' t'' : host.Slab) → Persists host t t' → Persists host t' t'' → Persists host t t''
  unfolding Persists
  Persists-trans t t' t'' p q token n = q token (p token n)

  AllName-Persists :
      (t t' : host.Slab) (queue : List ℕ)
      → Persists host t t'
      → AllName host t queue
      → AllName host t' queue
  unfolding AllName Persists
  AllName-Persists t t' [] p a = tt
  AllName-Persists t t' (k ∷ ks) p (n, a) = (p k n, AllName-Persists t t' ks p a)

  AllName-append :
      (t : host.Slab) (queue : List ℕ) (token : ℕ)
      → AllName host t queue
      → Names host t token
      → AllName host t (queue ++ (token ∷ []))
  unfolding AllName Names
  AllName-append t [] token a n = (n, tt)
  AllName-append t (k ∷ ks) token (m, a) n = (m, AllName-append t ks token a n)

  pub push-IsSound :
      (t : host.Slab) (queue : List ℕ) (token : ℕ)
      → IsSound host t queue
      → Names host t token
      → IsSound host t (queue ++ (token ∷ []))
  push-IsSound t queue token i n = record {
    proper = i.proper;
    named = AllName-append t queue token i.named n;
  }

  -- `t'` is `t` with `s` under `i`, after an insertion or a write through an occupied key.
  module _ (t t' : host.Slab) (i : ℕ) (s : Session net)
      (wrote : (k : ℕ) → host.get t' k ≡ (if k == i then some s else host.get t k)) where
    pub write-Persists : Persists host t t'
    unfolding Persists Names
    write-Persists k (u, f) = elim (Bool-cases (k == i)) [
      | inl same ↦ (s, wrote k ∙ rw same refl)
      | inr differ ↦ (u, wrote k ∙ rw differ f)
    ]

    pub write-Names : Names host t' i
    unfolding Names
    write-Names = (s, wrote i ∙ rw (==_refl i) refl)

    IsProper-after :
        ((k : ℕ) (u : Session net) → host.get t k ≡ some u → IsProper k u)
        → IsProper i s
        → (k : ℕ) (u : Session net) → host.get t' k ≡ some u
        → IsProper k u
    IsProper-after old p k u f = elim (Bool-cases (k == i)) [
      | inl same ↦
          let here : host.get t' k ≡ some s = wrote k ∙ rw same refl in
          let k_is : k ≡ i = (==_iff k i).0 same in
          subst (λ v. IsProper k v) (some_injective (sym here ∙ f))
            (subst (λ j. IsProper j s) (sym k_is) p)
      | inr differ ↦
          let there : host.get t' k ≡ host.get t k = wrote k ∙ rw differ refl in
          old k u (sym there ∙ f)
    ]

    pub write-IsSound :
        (queue : List ℕ) → IsSound host t queue → IsProper i s → IsSound host t' queue
    write-IsSound queue sound p = record {
      proper = IsProper-after sound.proper p;
      named = AllName-Persists t t' queue write-Persists sound.named;
    }
