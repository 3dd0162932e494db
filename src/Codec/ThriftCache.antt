-- ===== src/Codec/ThriftCache.antt =====
-- src/codec/thrift_cache.rs: the requests of the thrift cache and its responses.
pub mod Encode
pub mod Requests
pub mod Calls
pub mod Responses
pub mod RoundTrip
use rpc_perf.Base.{
  ℕ, zero, suc, ◌+◌, ◌%◌, ◌^◌, Bool, true, Option, List, [], ◌∷◌, ltb, ◌==◌, if◌then◌else◌, length,
}
use rpc_perf.Base.Bytes.{Bytes, codes}
use rpc_perf.Base.BigEndian.{from_be32}
use rpc_perf.Base.Outcome.{Outcome, ret, panic, ◌>>=◌}
use rpc_perf.Metrics.{Metrics}
use rpc_perf.Net.{Net}
use rpc_perf.Rand.{Rand}
use rpc_perf.Keyspace.{
  Keyspace, Config, Verb, generate_key, generate_inner_key, generate_value, choose_keyspace,
  choose_command, or_empty,
}
use rpc_perf.Session.{Session, buffer}
use rpc_perf.Reply.{Decoded, accept, refuse, incomplete, unknown}
use rpc_perf.Codec.Thrift.{
  ThriftBuffer, ◌▷◌, new, write_bytes, write_i16, write_i32, write_i64, write_bool, protocol_header,
  method_name, sequence_id, stop, frame, bool_type, i32_type, i64_type, string_type, struct_type,
  list_type,
}

-- The fields a request has, each with its id.
pub data Entry : Type 0 where
  text : ℕ → Bytes → Entry
  texts : ℕ → List Bytes → Entry
  int32 : ℕ → ℕ → Entry
  int64 : ℕ → ℕ → Entry
  flag : ℕ → Bool → Entry

pub write_items : List Bytes → ThriftBuffer → ThriftBuffer
write_items [] b = b
write_items (item ∷ items) b = write_items items (b ▷ write_i32 (length item) ▷ write_bytes item)

unfoldable pub write_entry : Entry → ThriftBuffer → ThriftBuffer
unfolding write_items
write_entry (text id bytes) b =
    b ▷ write_bytes (string_type ∷ []) ▷ write_i16 id ▷ write_i32 (length bytes) ▷ write_bytes bytes
write_entry (texts id items) b =
    b
    ▷ write_bytes (list_type ∷ [])
    ▷ write_i16 id
    ▷ write_bytes (string_type ∷ [])
    ▷ write_i32 (length items)
    ▷ write_items items
write_entry (int32 id value) b = b ▷ write_bytes (i32_type ∷ []) ▷ write_i16 id ▷ write_i32 value
write_entry (int64 id value) b = b ▷ write_bytes (i64_type ∷ []) ▷ write_i16 id ▷ write_i64 value
write_entry (flag id value) b = b ▷ write_bytes (bool_type ∷ []) ▷ write_i16 id ▷ write_bool value

unfoldable pub write_entries : List Entry → ThriftBuffer → ThriftBuffer
unfolding write_entry
write_entries [] b = b
write_entries (entry ∷ entries) b = write_entries entries (b ▷ write_entry entry)

-- What the requests have in common: a header, a list of one struct, whose first field is "0" and
-- whose second is the key, and two stops. The optional fields that are `None` are left out.
unfoldable pub message : Bytes → Bytes → List Entry → ThriftBuffer
unfolding write_entry write_entries
message method key entries =
    new
    ▷ protocol_header
    ▷ method_name method
    ▷ sequence_id 0
    ▷ write_bytes (list_type ∷ [])
    ▷ write_i16 1
    ▷ write_bytes (struct_type ∷ [])
    ▷ write_i32 1
    ▷ write_entry (text 1 (codes "0"))
    ▷ write_entry (text 2 key)
    ▷ write_entries entries
    ▷ stop
    ▷ stop
    ▷ frame

-- The loops `for _ in 0..keyspace.batch_size()`.
pub draws : {R : Type 0} → (R → Outcome (Option Bytes × R)) → ℕ → R → Outcome (List Bytes × R)
draws draw zero rng = ret ([], rng)
draws draw (suc n) rng = do
  (bytes, rng') ← draw rng
  (rest, rng'') ← draws draw n rng'
  ret (or_empty bytes ∷ rest, rng'')

module _ {rand : Rand} where
  pub append : Keyspace rand → rand.Rng → Outcome (ThriftBuffer × rand.Rng)
  unfolding draws
  append keyspace rng = do
    let (key, rng') = generate_key keyspace rng
    (values, rng'') ← draws (generate_value keyspace) keyspace.batch_size rng'
    ret (message (codes "append") key (texts 3 values ∷ []), rng'')

  pub appendx : Keyspace rand → rand.Rng → Outcome (ThriftBuffer × rand.Rng)
  unfolding draws
  appendx keyspace rng = do
    let (key, rng') = generate_key keyspace rng
    (values, rng'') ← draws (generate_value keyspace) keyspace.batch_size rng'
    ret (message (codes "appendx") key (texts 3 values ∷ []), rng'')

  unfoldable pub count : Keyspace rand → rand.Rng → Outcome (ThriftBuffer × rand.Rng)
  count keyspace rng = do
    let (key, rng') = generate_key keyspace rng
    ret (message (codes "count") key [], rng')

  pub get : Keyspace rand → rand.Rng → Outcome (ThriftBuffer × rand.Rng)
  unfolding draws
  get keyspace rng = do
    let (key, rng') = generate_key keyspace rng
    (fields, rng'') ← draws (generate_inner_key keyspace) keyspace.batch_size rng'
    ret (message (codes "get") key (texts 3 fields ∷ []), rng'')

  pub put : Keyspace rand → rand.Rng → Outcome (ThriftBuffer × rand.Rng)
  unfolding draws
  put keyspace rng = do
    let (key, rng') = generate_key keyspace rng
    (fields, rng'') ← draws (generate_inner_key keyspace) keyspace.batch_size rng'
    (values, rng''') ← draws (generate_value keyspace) keyspace.batch_size rng''
    ret (
      message (codes "put") key (
          texts 3 fields
          ∷ texts 4 values
          ∷ (if ltb 0 keyspace.ttl then int64 6 keyspace.ttl ∷ [] else [])),
      rng''',
    )

  pub remove : Keyspace rand → rand.Rng → Outcome (ThriftBuffer × rand.Rng)
  unfolding draws
  remove keyspace rng = do
    let (key, rng') = generate_key keyspace rng
    (fields, rng'') ← draws (generate_inner_key keyspace) keyspace.batch_size rng'
    ret (message (codes "remove") key (texts 3 fields ∷ []), rng'')

  -- The fields and values that are drawn here are not sent.
  pub range : Keyspace rand → rand.Rng → Outcome (ThriftBuffer × rand.Rng)
  unfolding draws
  range keyspace rng = do
    let (key, rng') = generate_key keyspace rng
    (fields, rng'') ← draws (generate_inner_key keyspace) keyspace.batch_size rng'
    (values, rng''') ← draws (generate_value keyspace) keyspace.batch_size rng''
    ret (message (codes "range") key [], rng''')

  -- Its optional fields are all `None`; nothing calls it.
  pub scan : Keyspace rand → rand.Rng → Outcome (ThriftBuffer × rand.Rng)
  scan keyspace rng = do
    let (key, rng') = generate_key keyspace rng
    ret (message (codes "scan") key [], rng')

  -- The method it names is "range".
  pub trim : Keyspace rand → rand.Rng → Outcome (ThriftBuffer × rand.Rng)
  trim keyspace rng = do
    let (key, rng') = generate_key keyspace rng
    ret (message (codes "range") key (int32 3 1 ∷ flag 4 true ∷ []), rng')

  -- The request of a verb; `unimplemented!()` for each other verb.
  unfoldable pub request : Verb → Keyspace rand → rand.Rng → Outcome (ThriftBuffer × rand.Rng)
  unfolding append appendx count get put remove range trim
  request Verb.rpush keyspace rng = append keyspace rng
  request Verb.rpushx keyspace rng = appendx keyspace rng
  request Verb.count keyspace rng = count keyspace rng
  request Verb.hget keyspace rng = get keyspace rng
  request Verb.hset keyspace rng = put keyspace rng
  request Verb.hdel keyspace rng = remove keyspace rng
  request Verb.lrange keyspace rng = range keyspace rng
  request Verb.ltrim keyspace rng = trim keyspace rng
  request _ keyspace rng = panic

-- `checked_add` of four to the length in the first four bytes, against the bytes there are.
pub framed : {net : Net} → Session net → Metrics → ℕ → ℕ → Decoded net
framed s m size bytes =
    if ltb (size + 4) (2 ^ 32)
    then if size + 4 == bytes then accept s m (size + 4) else refuse s m incomplete
    else refuse s m unknown

pub decode : {net : Net} → Session net → Metrics → Decoded net
unfolding framed
decode s m =
    let bytes = length (buffer s) % 2 ^ 32 in
    if ltb 4 bytes
    then elim (buffer s) [ a ∷ b ∷ c ∷ d ∷ _ ↦ framed s m (from_be32 a b c d) bytes | _ ↦ panic ]
    else refuse s m incomplete
