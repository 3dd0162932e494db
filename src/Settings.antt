-- ===== src/Settings.antt =====
-- src/config_file.rs: the sections of a configuration, with the accessors that do more than return a
-- field. Settings.Toml has what is taken when a key is missing, Settings.Target the endpoints.
pub mod Toml
pub mod Target
pub mod Keyspaces
use rpc_perf.Base.{ℕ, ◌*◌, ◌^◌, Bool, true, false, Option, none, some, ◌++◌, if◌then◌else◌}
use rpc_perf.Base.Bytes.{Bytes, codes}

pub data Protocol : Type 0 where
  ping echo memcache redis redis_inline redis_resp thrift_cache : Protocol

pub data OutputFormat : Type 0 where
  log json : OutputFormat

pub data RatelimitModel : Type 0 where
  smooth uniform normal : RatelimitModel

-- `ratelimit::Refill`.
pub data Refill : Type 0 where
  smooth uniform normal : Refill

-- `ringlog::Level`, by `LevelDef`.
pub data Level : Type 0 where
  error warn info debug trace : Level

pub data Palette : Type 0 where
  classic ironbow : Palette

pub data Scale : Type 0 where
  linear logarithmic : Scale

pub record General : Type 0 where
  pub protocol : Protocol
  pub interval_secs : ℕ
  pub window_limit : ℕ
  pub threads : ℕ
  pub service : Bool
  pub admin : Option Bytes
  pub output_format : OutputFormat

-- `Duration::from_secs`, in nanoseconds.
unfoldable pub interval : General → ℕ
interval general = general.interval_secs * 10 ^ 9

unfoldable pub windows : General → Option ℕ
windows general = if general.service then none else some general.window_limit

pub record Debug : Type 0 where
  pub log_level : Level
  pub log_file : Option Bytes
  pub backup : Option Bytes
  pub log_max_size : ℕ
  pub log_queue_depth : ℕ
  pub log_single_message_size : ℕ

old_name : Option Bytes → Option Bytes
old_name none = none
old_name (some path) = some (path ++ codes ".old")

backup_or : Option Bytes → Option Bytes → Option Bytes
unfolding old_name
backup_or (some path) file = some path
backup_or none file = old_name file

unfoldable pub log_backup : Debug → Option Bytes
unfolding backup_or
log_backup d = backup_or d.backup d.log_file

pub record Connection : Type 0 where
  pub poolsize : ℕ
  pub ratelimit : Option ℕ
  pub model : Option RatelimitModel
  pub reconnect : Option ℕ
  pub tcp_nodelay : Bool
  pub timeout : Option ℕ
  pub pipeline : ℕ

pub record Request : Type 0 where
  pub timeout : Option ℕ
  pub ratelimit : Option ℕ
  pub model : Option RatelimitModel

-- The same code for a connection and a request.
unfoldable pub ratelimit_model : Option RatelimitModel → Refill
ratelimit_model none = Refill.smooth
ratelimit_model (some RatelimitModel.smooth) = Refill.smooth
ratelimit_model (some RatelimitModel.uniform) = Refill.uniform
ratelimit_model (some RatelimitModel.normal) = Refill.normal

pub record Waterfall : Type 0 where
  pub file : Option Bytes
  pub palette : Palette
  pub resolution : ℕ
  pub scale : Scale
