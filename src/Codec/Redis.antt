-- ===== src/Codec/Redis.antt =====
-- src/codec/redis.rs: the requests of the redis protocol, inline or as RESP arrays, and its responses.
pub mod Commands
pub mod Line
pub mod Responses
pub mod Bulk
pub mod Faults
use rpc_perf.Base.{
  ℕ, zero, suc, ◌+◌, ◌-◌, ◌≤◌, Bool, ◌&&◌, ◌||◌, List, [], ◌∷◌, ◌++◌, Option, none, some, ◌==◌, ltb,
  leb, not, if◌then◌else◌, length, take, drop, add_usize, sub_usize,
}
use rpc_perf.Base.Bytes.{Bytes, codes, crlf, bytes_eq, position}
use rpc_perf.Base.Decimal.{to_decimal, parse_usize, parses_i64}
use rpc_perf.Base.Outcome.{Outcome, ret, panic, check}
use rpc_perf.Metrics.{Metrics}
use rpc_perf.Net.{Net}
use rpc_perf.Rand.{Rand}
use rpc_perf.Keyspace.{
  Keyspace, Config, Verb, generate_key, generate_inner_key, generate_value, choose_keyspace,
  choose_command, or_empty,
}
use rpc_perf.Keyspace.Draws.{draw_keys}
use rpc_perf.Session.{Session, buffer}
use rpc_perf.Writer.{W, put, pure, lift, ◌>>=◌, ◌>>◌}
use rpc_perf.Reply.{Decoded, accept, refuse, incomplete, error, unknown}

pub data Mode : Type 0 where
  inline resp : Mode

-- The loops over the arguments.
pub inline_args : (net : Net) → List Bytes → W net (Unit {0})
inline_args net [] = pure tt
inline_args net (arg ∷ args) = do put (codes " "); put arg; inline_args net args

pub resp_args : (net : Net) → List Bytes → W net (Unit {0})
resp_args net [] = pure tt
resp_args net (arg ∷ args) = do
  put (codes "\r\n$" ++ (to_decimal (length arg) ++ codes "\r\n"))
  put arg
  resp_args net args

pub command : (net : Net) → Mode → Bytes → List Bytes → W net (Unit {0})
unfolding inline_args resp_args
command net inline name args = do put name; inline_args net args; put (codes "\r\n")
command net resp name args = do
  put (
      codes "*"
      ++ (to_decimal (1 + length args)
          ++ (codes "\r\n$" ++ (to_decimal (length name) ++ (codes "\r\n" ++ name)))))
  resp_args net args
  put (codes "\r\n")

named : {R : Type 0} → Bytes → Outcome (List Bytes × R) → Outcome (Bytes × List Bytes × R)
named name (ret (args, rng)) = ret (name, args, rng)
named name panic = panic

-- `REQUEST_GET` counts `get`, `mget` and `hget`.
unfoldable pub count_get : Verb → Metrics → Metrics
count_get Verb.get m = record m { request_get = m.request_get + 1 }
count_get Verb.hget m = record m { request_get = m.request_get + 1 }
count_get _ m = m

module _ {rand : Rand} where
  -- What each request sends: its name, its arguments, and the generator after they are drawn.
  pub set_args : Keyspace rand → rand.Rng → Outcome (List Bytes × rand.Rng)
  set_args keyspace rng =
      let (key, rng') = generate_key keyspace rng in
      elim (generate_value keyspace rng') [
        | ret (value, rng'') ↦ ret (
          if keyspace.ttl == 0
              then key ∷ or_empty value ∷ []
              else key ∷ or_empty value ∷ codes "EX" ∷ to_decimal keyspace.ttl ∷ [],
          rng'',
        )
        | panic ↦ panic
      ]

  pub hget_args : Keyspace rand → rand.Rng → Outcome (List Bytes × rand.Rng)
  hget_args keyspace rng =
      let (key, rng') = generate_key keyspace rng in
      elim (generate_inner_key keyspace rng') [
        | ret (field, rng'') ↦ ret (key ∷ or_empty field ∷ [], rng'')
        | panic ↦ panic
      ]

  -- `hset` and `hsetnx`.
  pub hset_args : Keyspace rand → rand.Rng → Outcome (List Bytes × rand.Rng)
  hset_args keyspace rng =
      let (key, rng') = generate_key keyspace rng in
      elim (generate_inner_key keyspace rng') [
        | ret (field, rng'') ↦ elim (generate_value keyspace rng'') [
          | ret (value, rng''') ↦ ret (key ∷ or_empty field ∷ or_empty value ∷ [], rng''')
          | panic ↦ panic
        ]
        | panic ↦ panic
      ]

  -- The request of a verb; `unimplemented!()` for each verb that is not redis'.
  unfoldable pub request : Verb → Keyspace rand → rand.Rng → Outcome (Bytes × List Bytes × rand.Rng)
  unfolding set_args hget_args hset_args named
  request Verb.get keyspace rng =
      if keyspace.batch_size == 1
      then ret (codes "get", (generate_key keyspace rng).0 ∷ [], (generate_key keyspace rng).1)
      else ret (
        codes "mget",
        (draw_keys keyspace keyspace.batch_size rng).0,
        (draw_keys keyspace keyspace.batch_size rng).1,
      )
  request Verb.set keyspace rng = named (codes "set") (set_args keyspace rng)
  request Verb.delete keyspace rng =
      ret (codes "del", (generate_key keyspace rng).0 ∷ [], (generate_key keyspace rng).1)
  request Verb.hget keyspace rng = named (codes "hget") (hget_args keyspace rng)
  request Verb.hset keyspace rng = named (codes "hset") (hset_args keyspace rng)
  request Verb.hsetnx keyspace rng = named (codes "hsetnx") (hset_args keyspace rng)
  request Verb.hdel keyspace rng = named (codes "hdel") (hget_args keyspace rng)
  request _ keyspace rng = panic

  pub encode : (net : Net) → Mode → Config rand → rand.Rng → Metrics → W net (rand.Rng × Metrics)
  unfolding count_get
  encode net mode config rng m = do
    (keyspace, rng') ← lift (choose_keyspace config rng)
    (chosen, rng'') ← lift (choose_command keyspace rng')
    (name, args, rng''') ← lift (request chosen.verb keyspace rng'')
    command net mode name args
    pure (rng''', count_get chosen.verb m)

-- `&buf[1..end]`, which panics unless 1 ≤ end ≤ buf.len(). Where the source reads it as UTF-8 and
-- then matches or parses it, text that is not UTF-8 fares as text that does not match or parse.
abbrev with_slice : {net : Net} → Bytes → ℕ → (Bytes → Decoded net) → Decoded net
with_slice buf end k = check (leb 1 end && leb end (length buf)) (k (take (end - 1) (drop 1 buf)))

pub simple_line : {net : Net} → Session net → Metrics → ℕ → Bytes → Decoded net
simple_line s m line_end msg =
    if bytes_eq msg (codes "OK") || bytes_eq msg (codes "PONG")
    then accept s m (line_end + 2)
    else refuse s m unknown

pub numeric_line : {net : Net} → Session net → Metrics → ℕ → Bytes → Decoded net
numeric_line s m line_end msg =
    if parses_i64 msg then accept s m (line_end + 2) else refuse s m unknown

-- The payload of `len` bytes and its line end follow; the sum is a `usize` sum, which wraps.
pub bulk_payload : {net : Net} → Session net → Metrics → ℕ → Option ℕ → Decoded net
bulk_payload s m line_end none = refuse s m unknown
bulk_payload s m line_end (some len) =
    let response_end = add_usize (add_usize len line_end) 4 in
    if leb response_end (length (buffer s))
    then accept s (record m { response_hit = m.response_hit + 1 }) response_end
    else refuse s m incomplete

pub bulk_line : {net : Net} → Session net → Metrics → ℕ → Bytes → Decoded net
unfolding bulk_payload
bulk_line s m line_end msg =
    if bytes_eq msg (codes "-1")
    then accept s m (line_end + 2)
    else bulk_payload s m line_end (parse_usize msg)

-- A response whose first line is looked for.
pub lined : {net : Net} → (ℕ → Bytes → Decoded net) → Session net → Metrics → Decoded net
lined on_line s m = elim (position crlf (buffer s)) [
  | some line_end ↦ with_slice (buffer s) line_end (on_line line_end)
  | none ↦ refuse s m incomplete
]

-- `&buf[1..buf.len() - 2]`.
pub array : {net : Net} → Session net → Metrics → Decoded net
array s m =
    with_slice (buffer s) (sub_usize (length (buffer s)) 2) λ msg.
      if bytes_eq msg (codes "-1") then accept s m (length (buffer s)) else refuse s m unknown

-- By the first byte; a byte that is no ASCII is no UTF-8 either.
pub kind : {net : Net} → ℕ → Session net → Metrics → Decoded net
unfolding simple_line numeric_line bulk_line lined array
kind first s m =
    if first == b'+'
    then lined (simple_line s m) s m
    else if first == b'-'
    then refuse s m error
    else if first == b':'
    then lined (numeric_line s m) s m
    else if first == b'$'
    then lined (bulk_line s m) s m
    else if first == b'*'
    then array s m
    else refuse s m unknown

pub decode : {net : Net} → Session net → Metrics → Decoded net
decode s m = elim (buffer s) [ [] ↦ refuse s m incomplete | first ∷ _ ↦ kind first s m ]
