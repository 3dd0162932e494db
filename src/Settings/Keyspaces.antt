-- ===== src/Settings/Keyspaces.antt =====
-- src/config_file.rs: the keyspaces as a file gives them, and the defaults of `serde` for the keys that
-- are missing.
use rpc_perf.Base.{ℕ, Option, List, []}
use mathlib.Core.List.{map}
use rpc_perf.Keyspace.{FieldType, Verb, Command, Field}
use rpc_perf.Keyspace.Configure.{KeyDistributionModel, Source}
use rpc_perf.Settings.Toml.{zero, one, u32_max, or_else}

abbrev alphanumeric : FieldType
alphanumeric = FieldType.alphanumeric

pub record CommandToml : Type 0 where
  pub verb : Verb
  pub weight : Option ℕ

-- `InnerKey`, and `Value`, which has the same fields.
pub record FieldToml : Type 0 where
  pub length : ℕ
  pub weight : Option ℕ
  pub cardinality : Option ℕ
  pub field_type : Option FieldType

pub record KeyspaceToml : Type 0 where
  pub length : Option ℕ
  pub weight : Option ℕ
  pub cardinality : Option ℕ
  pub commands : List CommandToml
  pub inner_keys : Option (List FieldToml)
  pub values : Option (List FieldToml)
  pub ttl : Option ℕ
  pub key_type : Option FieldType
  pub batch_size : Option ℕ
  pub key_distribution : Option KeyDistributionModel

command : CommandToml → Command
command t = record { verb = t.verb; weight = or_else one t.weight }

field : FieldToml → Field
field t = record {
  length = t.length;
  weight = or_else one t.weight;
  cardinality = or_else u32_max t.cardinality;
  field_type = or_else alphanumeric t.field_type;
}

unfoldable pub keyspace : KeyspaceToml → Source
unfolding command field
keyspace t = record {
  length = or_else one t.length;
  weight = or_else one t.weight;
  cardinality = or_else u32_max t.cardinality;
  commands = map command t.commands;
  inner_keys = map field (or_else [] t.inner_keys);
  values = map field (or_else [] t.values);
  ttl = or_else zero t.ttl;
  key_type = or_else alphanumeric t.key_type;
  batch_size = or_else one t.batch_size;
  key_distribution = t.key_distribution;
}
