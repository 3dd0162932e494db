-- ===== src/Codec/Thrift.antt =====
-- src/codec/thrift.rs: `ThriftBuffer`, in which a request is put together and then framed. Its
-- `decode` is private and called nowhere; ThriftCache has the same code.
pub mod Frame
use rpc_perf.Base.{ℕ, ◌-◌, Bool, true, false, List, [], ◌∷◌, ◌++◌, length, drop}
use rpc_perf.Base.Bytes.{Bytes, codes}
use rpc_perf.Base.BigEndian.{be16, be32, be64}

-- The codes of the types.
abbrev pub stop_type : ℕ
stop_type = 0

abbrev pub bool_type : ℕ
bool_type = 2

abbrev pub i32_type : ℕ
i32_type = 8

abbrev pub i64_type : ℕ
i64_type = 10

abbrev pub string_type : ℕ
string_type = 11

abbrev pub struct_type : ℕ
struct_type = 12

abbrev pub list_type : ℕ
list_type = 15

pub record ThriftBuffer : Type 0 where
  pub buffer : Bytes

-- The calls on a buffer, in the order of the source.
infixl 1 ◌▷◌
abbrev pub ◌▷◌ : ThriftBuffer → (ThriftBuffer → ThriftBuffer) → ThriftBuffer
b ▷ f = f b

-- Four bytes are kept for the length of the frame.
abbrev pub new : ThriftBuffer
new = record { buffer = 0 ∷ 0 ∷ 0 ∷ 0 ∷ [] }

-- write a literal byte sequence to the buffer
abbrev pub write_bytes : Bytes → ThriftBuffer → ThriftBuffer
write_bytes bytes b = record { buffer = b.buffer ++ bytes }

abbrev pub write_i16 : ℕ → ThriftBuffer → ThriftBuffer
write_i16 value = write_bytes (be16 value)

abbrev pub write_i32 : ℕ → ThriftBuffer → ThriftBuffer
write_i32 value = write_bytes (be32 value)

abbrev pub write_i64 : ℕ → ThriftBuffer → ThriftBuffer
write_i64 value = write_bytes (be64 value)

abbrev pub write_bool : Bool → ThriftBuffer → ThriftBuffer
write_bool true = write_bytes (1 ∷ [])
write_bool false = write_bytes (0 ∷ [])

abbrev pub write_str : Bytes → ThriftBuffer → ThriftBuffer
write_str text b = b ▷ write_i32 (length text) ▷ write_bytes text

abbrev pub protocol_header : ThriftBuffer → ThriftBuffer
protocol_header = write_bytes (128 ∷ 1 ∷ 0 ∷ 1 ∷ [])

abbrev pub method_name : Bytes → ThriftBuffer → ThriftBuffer
method_name = write_str

abbrev pub sequence_id : ℕ → ThriftBuffer → ThriftBuffer
sequence_id = write_i32

abbrev pub stop : ThriftBuffer → ThriftBuffer
stop = write_bytes (stop_type ∷ [])

-- write the framed length over the first four bytes
unfoldable pub frame : ThriftBuffer → ThriftBuffer
frame b = record { buffer = be32 (length b.buffer - 4) ++ drop 4 b.buffer }
