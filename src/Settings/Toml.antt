-- ===== src/Settings/Toml.antt =====
-- src/config_file.rs: the sections as a file gives them, and the defaults of `serde` for the keys that
-- are missing. Reading TOML is a library's part.
use rpc_perf.Base.{ℕ, ◌*◌, ◌-◌, ◌^◌, Bool, false, Option, none, some}
use rpc_perf.Base.Bytes.{Bytes}
use rpc_perf.Settings.{
  Protocol, OutputFormat, RatelimitModel, Level, Palette, Scale, General, Debug, Connection,
  Waterfall,
}

abbrev default_interval : ℕ
default_interval = 60

abbrev default_windows : ℕ
default_windows = 5

abbrev pub zero : ℕ
zero = 0

abbrev pub one : ℕ
one = 1

abbrev pub u32_max : ℕ
u32_max = 2 ^ 32 - 1

abbrev pub or_else {ℓ} : {A : Type ℓ} → A → Option A → A
or_else default none = default
or_else default (some a) = a

pub record GeneralToml : Type 0 where
  pub protocol : Protocol
  pub interval : Option ℕ
  pub windows : Option ℕ
  pub threads : Option ℕ
  pub service : Option Bool
  pub admin : Option Bytes
  pub output_format : Option OutputFormat

unfoldable pub general : GeneralToml → General
general t = record {
  protocol = t.protocol;
  interval_secs = or_else default_interval t.interval;
  window_limit = or_else default_windows t.windows;
  threads = or_else one t.threads;
  service = or_else false t.service;
  admin = t.admin;
  output_format = or_else OutputFormat.log t.output_format;
}

abbrev log_max_size : ℕ
log_max_size = 1024 * 1024 * 1024

abbrev log_queue_depth : ℕ
log_queue_depth = 4096

abbrev log_single_message_size : ℕ
log_single_message_size = 1024

pub record DebugToml : Type 0 where
  pub log_level : Option Level
  pub log_file : Option Bytes
  pub log_backup : Option Bytes
  pub log_max_size : Option ℕ
  pub log_queue_depth : Option ℕ
  pub log_single_message_size : Option ℕ

debug_section : DebugToml → Debug
debug_section t = record {
  log_level = or_else Level.info t.log_level;
  log_file = t.log_file;
  backup = t.log_backup;
  log_max_size = or_else log_max_size t.log_max_size;
  log_queue_depth = or_else log_queue_depth t.log_queue_depth;
  log_single_message_size = or_else log_single_message_size t.log_single_message_size;
}

debug_default : Debug
debug_default = record {
  log_level = Level.info;
  log_file = none;
  backup = none;
  log_max_size = log_max_size;
  log_queue_depth = log_queue_depth;
  log_single_message_size = log_single_message_size;
}

-- A section that is missing is the section's `Default`.
unfoldable pub debug : Option DebugToml → Debug
unfolding debug_section debug_default
debug none = debug_default
debug (some t) = debug_section t

abbrev default_nodelay : Bool
default_nodelay = false

pub record ConnectionToml : Type 0 where
  pub poolsize : Option ℕ
  pub ratelimit : Option ℕ
  pub ratelimit_model : Option RatelimitModel
  pub reconnect : Option ℕ
  pub tcp_nodelay : Option Bool
  pub timeout : Option ℕ
  pub pipeline : Option ℕ

connection_section : ConnectionToml → Connection
connection_section t = record {
  poolsize = or_else one t.poolsize;
  ratelimit = t.ratelimit;
  model = t.ratelimit_model;
  reconnect = t.reconnect;
  tcp_nodelay = or_else default_nodelay t.tcp_nodelay;
  timeout = t.timeout;
  pipeline = or_else one t.pipeline;
}

connection_default : Connection
connection_default = record {
  poolsize = 1;
  ratelimit = none;
  model = none;
  reconnect = none;
  tcp_nodelay = false;
  timeout = none;
  pipeline = 1;
}

unfoldable pub connection : Option ConnectionToml → Connection
unfolding connection_section connection_default
connection none = connection_default
connection (some t) = connection_section t

abbrev palette : Palette
palette = Palette.ironbow

abbrev scale : Scale
scale = Scale.linear

abbrev resolution : ℕ
resolution = 1000

pub record WaterfallToml : Type 0 where
  pub file : Option Bytes
  pub palette : Option Palette
  pub resolution : Option ℕ
  pub scale : Option Scale

waterfall_section : WaterfallToml → Waterfall
waterfall_section t = record {
  file = t.file;
  palette = or_else palette t.palette;
  resolution = or_else resolution t.resolution;
  scale = or_else scale t.scale;
}

waterfall_default : Waterfall
waterfall_default = record {
  file = none;
  palette = palette;
  resolution = resolution;
  scale = scale;
}

unfoldable pub waterfall : Option WaterfallToml → Waterfall
unfolding waterfall_section waterfall_default
waterfall none = waterfall_default
waterfall (some t) = waterfall_section t
