-- ===== src/Keyspace/Configure/Drawn.antt =====
-- src/config.rs: the draws from a configuration that `Config::new` has made are in range.
use rpc_perf.Base.{
  ℕ, zero, suc, ◌<◌, ◌≡◌, refl, subst, inl, inr, arith, List, [], ◌∷◌, length, length-map,
}
use mathlib.Core.List.{map}
use rpc_perf.Base.Outcome.{ret, Outcome-cases, WhenRet}
use rpc_perf.Rand.{Rand}
use rpc_perf.Keyspace.{Command, Keyspace, Config, index, choose_command, choose_keyspace}
use rpc_perf.Keyspace.Configure.{
  Distributions, Within, Source, field_dist, key_dist, configure, configure_all, with_endpoints,
  new,
}

-- The draws of a keyspace and then of a command.
pub record Drawn {rand : Rand} (config : Config rand) (rng : rand.Rng) : Type 0 where
  pub keyspace : Keyspace rand
  pub rng₁ : rand.Rng
  pub chosen : choose_keyspace config rng ≡ ret (keyspace, rng₁)
  pub command : Command
  pub rng₂ : rand.Rng
  pub commanded : choose_command keyspace rng₁ ≡ ret (command, rng₂)

Each {ℓ} : {A : Type ℓ} → (A → Type 0) → List A → Type 0
Each P [] = Unit {0}
Each P (x ∷ xs) = P x × Each P xs

index-Each :
    {A : Type 0} (P : A → Type 0) (xs : List A) (i : ℕ)
    → Each P xs
    → i < length xs
    → (x : A) × (index xs i ≡ ret x) × P x
unfolding index Each
index-Each P [] i e h = absurd (omega arith)
index-Each P (x ∷ xs) zero e h = (x, refl, e.0)
index-Each P (x ∷ xs) (suc i) e h = index-Each P xs i e.1 (omega arith)

index_lt : {A : Type 0} (xs : List A) (i : ℕ) → i < length xs → (x : A) × (index xs i ≡ ret x)
unfolding index
index_lt [] i h = absurd (omega arith)
index_lt (x ∷ xs) zero h = (x, refl)
index_lt (x ∷ xs) (suc i) h = index_lt xs i (omega arith)

module _ {rand : Rand} (ds : Distributions rand) (within : Within ds) where
  -- The commands of a keyspace are those that its distribution was built for.
  Fitted : Keyspace rand → Type 0
  Fitted k = ds.weighted (map (λ (c : Command). c.weight) k.commands) ≡ ret k.command_dist

  configure-Fitted : (k : Source) → WhenRet Fitted (configure ds k)
  unfolding configure Fitted
  configure-Fitted k = elim (Outcome-cases (field_dist ds k.inner_keys)) [
    | inr e ↦ rw (e, configure) tt
    | inl (i, e) ↦ elim (Outcome-cases (ds.weighted (map (λ (c : Command). c.weight) k.commands))) [
      | inr f ↦ rw (e, f, configure) tt
      | inl (c, f) ↦ elim (Outcome-cases (field_dist ds k.values)) [
        | inr g ↦ rw (e, f, g, configure) tt
        | inl (v, g) ↦ elim (Outcome-cases (key_dist ds k.key_distribution k.cardinality)) [
          | inr h ↦ rw (e, f, g, h, configure) tt
          | inl (d, h) ↦ rw (e, f, g, h, configure) f
        ]
      ]
    ]
  ]

  configure_all-Each : (ks : List Source) → WhenRet (Each Fitted) (configure_all ds ks)
  unfolding configure_all Each
  configure_all-Each [] = tt
  configure_all-Each (k ∷ ks) = elim (Outcome-cases (configure ds k)) [
    | inr e ↦ rw (e, configure_all) tt
    | inl (keyspace, e) ↦ elim (Outcome-cases (configure_all ds ks)) [
      | inr f ↦ rw (e, f, configure_all) tt
      | inl (keyspaces, f) ↦
          rw (e, f, configure_all)
            (
              subst (WhenRet Fitted) e (configure-Fitted k),
              subst (WhenRet (Each Fitted)) f (configure_all-Each ks),
            )
    ]
  ]

  choose_command-drawn :
      (k : Keyspace rand) (rng : rand.Rng)
      → Fitted k
      → (command : Command) × (choose_command k rng
          ≡ ret (command, (rand.sample_weighted k.command_dist rng).1))
  unfolding Fitted choose_command
  choose_command-drawn k rng f =
      let weights = map (λ (c : Command). c.weight) k.commands in
      let (command, e) = index_lt k.commands (rand.sample_weighted k.command_dist rng).0 (
        omega (
          arith,
          within weights k.command_dist rng f,
          length-map (λ (c : Command). c.weight) k.commands,
        )) in
      (command, rw (e, choose_command) refl)

  draw :
      (keyspaces : List (Keyspace rand)) (dist : rand.Weighted) (rng : rand.Rng)
      → Each Fitted keyspaces
      → ds.weighted (map (λ (k : Keyspace rand). k.weight) keyspaces) ≡ ret dist
      → Drawn (record { keyspaces = keyspaces; keyspace_dist = dist }) rng
  unfolding choose_keyspace
  draw keyspaces dist rng each built =
      let (k, e, fitted) = index-Each Fitted keyspaces (rand.sample_weighted dist rng).0 each (
        omega (
          arith,
          within (map (λ (k : Keyspace rand). k.weight) keyspaces) dist rng built,
          length-map (λ (k : Keyspace rand). k.weight) keyspaces,
        )) in
      let (command, drawn) = choose_command-drawn k (rand.sample_weighted dist rng).1 fitted in
      record {
        keyspace = k;
        rng₁ = (rand.sample_weighted dist rng).1;
        chosen = rw (e, choose_keyspace) refl;
        command = command;
        rng₂ = (rand.sample_weighted k.command_dist (rand.sample_weighted dist rng).1).1;
        commanded = drawn;
      }

  Draws : Config rand → Type 0
  Draws config = (rng : rand.Rng) → Drawn config rng

  with_endpoints-WhenRet :
      {Addr : Type 0} (endpoints : List Addr) (config : Config rand)
      → Draws config
      → WhenRet Draws (with_endpoints ds endpoints config)
  unfolding with_endpoints
  with_endpoints-WhenRet [] config d = tt
  with_endpoints-WhenRet (endpoint ∷ endpoints) config d = d

  new-WhenRet :
      {Addr : Type 0} (sources : List Source) (endpoints : List Addr)
      → WhenRet Draws (new ds sources endpoints)
  unfolding new Draws
  new-WhenRet sources endpoints = elim (Outcome-cases (configure_all ds sources)) [
    | inr e ↦ rw (e, new) tt
    | inl (keyspaces, e) ↦
        elim (Outcome-cases (ds.weighted (map (λ (k : Keyspace rand). k.weight) keyspaces))) [
          | inr f ↦ rw (e, f, new) tt
          | inl (dist, f) ↦
              rw (e, f, new)
                (with_endpoints-WhenRet endpoints _ (λ rng.
                  draw keyspaces dist rng
                    (subst (WhenRet (Each Fitted)) e (configure_all-Each sources)) f))
        ]
  ]

  -- When a weighted index draws one of the places of its weights, then on a configuration that
  -- Config::new returns, and for any state of the generator, choose_keyspace returns a keyspace,
  -- and choose_command, given that keyspace and what is left of the generator, returns a command:
  -- neither indexes out of range.
  pub new-Drawn :
      {Addr : Type 0} (sources : List Source) (endpoints : List Addr) (config : Config rand)
      (rng : rand.Rng)
      → new ds sources endpoints ≡ ret config
      → Drawn config rng
  unfolding Draws
  new-Drawn sources endpoints config rng e =
      let drawn : Draws config = subst (WhenRet Draws) e (new-WhenRet sources endpoints) in
      drawn rng
