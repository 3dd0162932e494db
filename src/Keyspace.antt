-- ===== src/Keyspace.antt =====
-- src/config.rs, the part that the codecs use: keyspaces, and the keys and values drawn from them.
-- The types of src/config_file.rs that it holds stand here too.
pub mod Draws
pub mod Configure
use rpc_perf.Base.{
  ℕ, suc, ◌%◌, ◌^◌, Bool, true, false, Option, none, some, List, [], ◌∷◌, ◌==◌, if◌then◌else◌,
  get_elem?,
}
use rpc_perf.Base.Bytes.{Bytes}
use rpc_perf.Base.Decimal.{zero_padded}
use rpc_perf.Base.Outcome.{Outcome, ret, panic, ◌>>=◌}
use rpc_perf.Rand.{Rand, sample_bytes}

pub data FieldType : Type 0 where
  alphanumeric u32 : FieldType

pub data Verb : Type 0 where
  ping echo get set delete hget hset hsetnx hdel rpush rpushx count lrange ltrim : Verb

pub record Command : Type 0 where
  pub verb : Verb
  pub weight : ℕ

-- `InnerKey`, and `Value`, which has the same fields.
pub record Field : Type 0 where
  pub length : ℕ
  pub weight : ℕ
  pub cardinality : ℕ
  pub field_type : FieldType

pub data KeyDistribution (rand : Rand) : Type 0 where
  uniform : rand.Uniform → KeyDistribution rand
  zipf : rand.Zipf → KeyDistribution rand

pub record Keyspace (rand : Rand) : Type 0 where
  pub length : ℕ
  pub weight : ℕ
  pub cardinality : ℕ
  pub commands : List Command
  pub command_dist : rand.Weighted
  pub inner_keys : List Field
  pub inner_key_dist : Option rand.Weighted
  pub values : List Field
  pub value_dist : Option rand.Weighted
  pub ttl : ℕ
  pub key_type : FieldType
  pub batch_size : ℕ
  pub key_distribution : KeyDistribution rand

-- The configuration as far as a codec reads it.
pub record Config (rand : Rand) : Type 0 where
  pub keyspaces : List (Keyspace rand)
  pub keyspace_dist : rand.Weighted

module _ {rand : Rand} where
  sample_key : KeyDistribution rand → rand.Rng → ℕ × rand.Rng
  sample_key (uniform d) rng = rand.sample_uniform d rng
  sample_key (zipf d) rng = rand.sample_zipf d rng

  unfoldable pub generate_key : Keyspace rand → rand.Rng → Bytes × rand.Rng
  unfolding sample_key
  generate_key k rng = elim k.key_type [
    | alphanumeric ↦ sample_bytes rand k.length rng
    | u32 ↦
        let (sample, rng') = sample_key k.key_distribution rng in
        (zero_padded (sample % 2 ^ 32) k.length, rng')
  ]

-- The bytes of one field. `gen_range` panics on an empty range.
generate_field : (rand : Rand) → Field → rand.Rng → Outcome (Bytes × rand.Rng)
generate_field rand conf rng = elim conf.field_type [
  | alphanumeric ↦ ret (sample_bytes rand conf.length rng)
  | u32 ↦
      let (n, rng') = rand.gen_range conf.cardinality rng in
      if conf.cardinality == 0 then panic else ret (zero_padded n conf.length, rng')
]

-- `&list[i]`, which panics out of range.
unfoldable pub index {ℓ} : {A : Type ℓ} → List A → ℕ → Outcome A
index xs i = elim (get_elem? xs i) [ some x ↦ ret x | none ↦ panic ]

-- A field drawn from `fields` by `dist`, if there is one.
draw_field :
    (rand : Rand) → List Field → Option rand.Weighted → rand.Rng → Outcome (Option Bytes × rand.Rng)
unfolding generate_field index
draw_field rand fields none rng = ret (none, rng)
draw_field rand fields (some dist) rng = do
  let (i, rng') = rand.sample_weighted dist rng
  conf ← index fields i
  (bytes, rng'') ← generate_field rand conf rng'
  ret (some bytes, rng'')

module _ {rand : Rand} where
  pub generate_inner_key : Keyspace rand → rand.Rng → Outcome (Option Bytes × rand.Rng)
  unfolding draw_field
  generate_inner_key k rng = draw_field rand k.inner_keys k.inner_key_dist rng

  pub generate_value : Keyspace rand → rand.Rng → Outcome (Option Bytes × rand.Rng)
  unfolding draw_field
  generate_value k rng = draw_field rand k.values k.value_dist rng

  unfoldable pub choose_command : Keyspace rand → rand.Rng → Outcome (Command × rand.Rng)
  unfolding index
  choose_command k rng = do
    let (i, rng') = rand.sample_weighted k.command_dist rng
    command ← index k.commands i
    ret (command, rng')

  unfoldable pub choose_keyspace : Config rand → rand.Rng → Outcome (Keyspace rand × rand.Rng)
  unfolding index
  choose_keyspace c rng = do
    let (i, rng') = rand.sample_weighted c.keyspace_dist rng
    keyspace ← index c.keyspaces i
    ret (keyspace, rng')

-- `unwrap_or_else(|| b"".to_vec())`
abbrev pub or_empty : Option Bytes → Bytes
or_empty (some bytes) = bytes
or_empty none = []
