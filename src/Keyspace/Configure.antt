-- ===== src/Keyspace/Configure.antt =====
-- src/config.rs, `Config::new`: the keyspaces of a configuration file with their distributions. What
-- the crates `rand_distr` and `zipf` do to build a distribution is a parameter. A call of `fatal!`
-- ends the program, as a panic does.
pub mod Drawn
use rpc_perf.Base.{
  ℕ, zero, suc, ◌<◌, ◌≡◌, refl, sym, ◌∙◌, ap, subst, inl, inr, arith, Option, some, none, List, [],
  ◌∷◌, length, length-map,
}
use mathlib.Core.List.{map}
use rpc_perf.Base.Bytes.{Bytes, codes}
use rpc_perf.Base.Outcome.{Outcome, ret, panic, Outcome-cases, ◌>>=◌}
use rpc_perf.Rand.{Rand}
use rpc_perf.Keyspace.{
  FieldType, Command, Field, KeyDistribution, uniform, zipf, Keyspace, Config, index,
  choose_command, choose_keyspace,
}

-- `WeightedAliasIndex::new(weights).unwrap()`, `Uniform::new(0, n)`, and `ZipfDistribution::new(n, e)`
-- with the parser of its exponent.
pub record Distributions (rand : Rand) : Type 0 where
  pub weighted : List ℕ → Outcome rand.Weighted
  pub uniform_below : ℕ → Outcome rand.Uniform
  pub zipf_below : ℕ → Bytes → Outcome rand.Zipf

-- A weighted index draws one of the places of its weights.
abbrev pub Within : {rand : Rand} → Distributions rand → Type 0
Within {rand} ds =
    (weights : List ℕ) (d : rand.Weighted) (rng : rand.Rng)
    → ds.weighted weights ≡ ret d
    → (rand.sample_weighted d rng).0 < length weights

-- `KeyDistribution` of src/config_file.rs with its model, and the parameter "exponent", which only
-- the Zipf model reads.
pub data KeyDistributionModel : Type 0 where
  uniform_model : KeyDistributionModel
  zipf_model : Option Bytes → KeyDistributionModel

-- `Keyspace` of src/config_file.rs.
pub record Source : Type 0 where
  pub length : ℕ
  pub weight : ℕ
  pub cardinality : ℕ
  pub commands : List Command
  pub inner_keys : List Field
  pub values : List Field
  pub ttl : ℕ
  pub key_type : FieldType
  pub batch_size : ℕ
  pub key_distribution : Option KeyDistributionModel

module _ {rand : Rand} (ds : Distributions rand) where
  -- The distribution of the inner keys, and that of the values.
  unfoldable pub field_dist : List Field → Outcome (Option rand.Weighted)
  field_dist [] = ret none
  field_dist (field ∷ fields) = do
    d ← ds.weighted (map (λ (f : Field). f.weight) (field ∷ fields))
    ret (some d)

  unfoldable pub key_dist : Option KeyDistributionModel → ℕ → Outcome (KeyDistribution rand)
  key_dist none n = do d ← ds.uniform_below n; ret (uniform d)
  key_dist (some uniform_model) n = do d ← ds.uniform_below n; ret (uniform d)
  key_dist (some (zipf_model none)) n = do d ← ds.zipf_below n (codes "1.0"); ret (zipf d)
  key_dist (some (zipf_model (some exponent))) n = do d ← ds.zipf_below n exponent; ret (zipf d)

  -- The body of the loop.
  unfoldable pub configure : Source → Outcome (Keyspace rand)
  unfolding field_dist key_dist
  configure k = do
    inner_key_dist ← field_dist k.inner_keys
    command_dist ← ds.weighted (map (λ (c : Command). c.weight) k.commands)
    value_dist ← field_dist k.values
    key_distribution ← key_dist k.key_distribution k.cardinality
    ret (record {
      length = k.length;
      weight = k.weight;
      cardinality = k.cardinality;
      commands = k.commands;
      command_dist = command_dist;
      inner_keys = k.inner_keys;
      inner_key_dist = inner_key_dist;
      values = k.values;
      value_dist = value_dist;
      ttl = k.ttl;
      key_type = k.key_type;
      batch_size = k.batch_size;
      key_distribution = key_distribution;
    })

  unfoldable pub configure_all : List Source → Outcome (List (Keyspace rand))
  unfolding configure
  configure_all [] = ret []
  configure_all (k ∷ ks) = do
    keyspace ← configure k
    keyspaces ← configure_all ks
    ret (keyspace ∷ keyspaces)

  -- `fatal!` when there is no endpoint.
  unfoldable pub with_endpoints : {Addr : Type 0} → List Addr → Config rand → Outcome (Config rand)
  with_endpoints [] config = panic
  with_endpoints (endpoint ∷ endpoints) config = ret config

  unfoldable pub new : {Addr : Type 0} → List Source → List Addr → Outcome (Config rand)
  unfolding configure_all with_endpoints
  new sources endpoints = do
    keyspaces ← configure_all sources
    keyspace_dist ← ds.weighted (map (λ (k : Keyspace rand). k.weight) keyspaces)
    with_endpoints endpoints (record { keyspaces = keyspaces; keyspace_dist = keyspace_dist })
