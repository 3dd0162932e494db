-- ===== src/Tests/Configurations.antt =====
-- src/config.rs at a concrete configuration.
use rpc_perf.Base.{ℕ, ◌≡◌, refl, arith, none, List, [], ◌∷◌}
use rpc_perf.Base.Outcome.{Outcome, ret, panic}
use rpc_perf.Keyspace.{Config, Verb, FieldType}
use rpc_perf.Keyspace.Configure.{Distributions, Within, Source, new}
use rpc_perf.Keyspace.Configure.Drawn.{Drawn, new-Drawn}
use rpc_perf.Tests.World.{counter, keyspace}

-- Each distribution of `counter` draws the first place.
first : List ℕ → Outcome (Unit {0})
first [] = panic
first (weight ∷ weights) = ret tt

abbrev distributions : Distributions counter
distributions = record { weighted = first; uniform_below = λ n. ret tt; zipf_below = λ n e. ret tt }

distributions-Within : Within distributions
unfolding first
distributions-Within [] d rng e = cc
distributions-Within (weight ∷ weights) d rng e = omega arith

abbrev source : Source
source = record {
  length = 3;
  weight = 1;
  cardinality = 10;
  commands = record { verb = Verb.get; weight = 1 } ∷ [];
  inner_keys = [];
  values = [];
  ttl = 0;
  key_type = FieldType.alphanumeric;
  batch_size = 1;
  key_distribution = none;
}

abbrev configured : Config counter
configured = record {
  keyspaces =
      record (keyspace Verb.get) {
        inner_keys = [];
        inner_key_dist = none;
        values = [];
        value_dist = none;
        ttl = 0;
        batch_size = 1;
      }
      ∷ [];
  keyspace_dist = tt;
}

new-configured : new distributions {Addr = ℕ} (source ∷ []) (80 ∷ []) ≡ ret configured
unfolding first new
new-configured = refl

configuration_example : Drawn configured 5
configuration_example =
    new-Drawn distributions distributions-Within (source ∷ []) (80 ∷ []) configured 5 new-configured
