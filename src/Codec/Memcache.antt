-- ===== src/Codec/Memcache.antt =====
-- src/codec/memcache.rs: the requests of the memcache text protocol, and its responses.
pub mod Requests
pub mod Encode
pub mod Responses
pub mod Gaps
pub mod Hits
use rpc_perf.Base.{
  ℕ, zero, suc, ◌+◌, ◌≤◌, Bool, ◌&&◌, ◌||◌, List, [], ◌∷◌, ◌++◌, Option, none, some, ltb, leb,
  if◌then◌else◌, length, take, drop,
}
use rpc_perf.Base.Bytes.{Bytes, codes, crlf, begins, bytes_eq, position}
use rpc_perf.Base.Decimal.{to_decimal}
use rpc_perf.Base.Outcome.{Outcome, ret, panic, check}
use rpc_perf.Metrics.{Metrics}
use rpc_perf.Net.{Net}
use rpc_perf.Rand.{Rand}
use rpc_perf.Keyspace.{
  Keyspace, Config, Verb, generate_key, generate_value, choose_keyspace, choose_command, or_empty,
}
use rpc_perf.Session.{Session, buffer}
use rpc_perf.Writer.{W, put, pure, lift, ◌>>=◌, ◌>>◌}
use rpc_perf.Reply.{Decoded, accept, refuse, incomplete}

module _ {rand : Rand} (net : Net) where
  -- The loop of `get`, with `k` of the `batch_size` keys left and `i` written.
  get_keys : Keyspace rand → ℕ → ℕ → rand.Rng → W net rand.Rng
  get_keys keyspace zero i rng = pure rng
  get_keys keyspace (suc k) i rng = do
    let (key, rng') = generate_key keyspace rng
    put key
    if ltb (i + 1) keyspace.batch_size then put (codes " ") else pure tt
    get_keys keyspace k (i + 1) rng'

  pub get : Keyspace rand → rand.Rng → W net rand.Rng
  unfolding get_keys
  get keyspace rng = do
    put (codes "get ")
    rng' ← get_keys keyspace keyspace.batch_size 0 rng
    put (codes "\r\n")
    pure rng'

  pub set : Keyspace rand → rand.Rng → W net rand.Rng
  set keyspace rng = do
    let (key, rng') = generate_key keyspace rng
    (drawn, rng'') ← lift (generate_value keyspace rng')
    let value = or_empty drawn
    put (codes "set ")
    put key
    put (
        codes " 0 "
        ++ (to_decimal keyspace.ttl ++ (codes " " ++ (to_decimal (length value) ++ codes "\r\n"))))
    put value
    put (codes "\r\n")
    pure rng''

  pub delete : Keyspace rand → rand.Rng → W net rand.Rng
  delete keyspace rng = do
    let (key, rng') = generate_key keyspace rng
    put (codes "delete ")
    put key
    put (codes "\r\n")
    pure rng'

  -- `unimplemented!()` for each other verb.
  pub run_verb : Verb → Keyspace rand → rand.Rng → Metrics → W net (rand.Rng × Metrics)
  unfolding get set delete
  run_verb Verb.get keyspace rng m = do
    rng' ← get keyspace rng
    pure (rng', record m { request_get = m.request_get + 1 })
  run_verb Verb.set keyspace rng m = do rng' ← set keyspace rng; pure (rng', m)
  run_verb Verb.delete keyspace rng m = do rng' ← delete keyspace rng; pure (rng', m)
  run_verb _ keyspace rng m = lift panic

  pub encode : Config rand → rand.Rng → Metrics → W net (rand.Rng × Metrics)
  unfolding run_verb
  encode config rng m = do
    (keyspace, rng') ← lift (choose_keyspace config rng)
    (command, rng'') ← lift (choose_command keyspace rng')
    run_verb command.verb keyspace rng'' m

-- The responses that are one fixed line, in the order in which `decode` tries them.
pub fixed : List Bytes
fixed =
    codes "STORED\r\n"
    ∷ codes "NOT_STORED\r\n"
    ∷ codes "EXISTS\r\n"
    ∷ codes "NOT_FOUND\r\n"
    ∷ codes "DELETED\r\n"
    ∷ codes "TOUCHED\r\n"
    ∷ []

-- The length of the first of the responses that the buffer begins with.
pub match_fixed : List Bytes → Bytes → Option ℕ
match_fixed [] buf = none
match_fixed (r ∷ rs) buf =
    let later = match_fixed rs buf in
    if leb (length r) (length buf) && begins r buf then some (length r) else later

-- The `while let` over `response.windows(2)`, on fuel. `windows` is what the iterator has left, and
-- `position` counts from there. `&response[start..start + 5]` panics out of range.
pub count_hits : ℕ → Bytes → Bytes → ℕ → ℕ → Outcome ℕ
count_hits zero response windows start hits = ret hits
count_hits (suc f) response windows start hits = elim (position crlf windows) [
  | none ↦ ret hits
  | some line_end ↦
      let hit =
        leb 5 (length response) && bytes_eq (take 5 (drop start response)) (codes "VALUE") in
      let next =
        count_hits f response (drop (suc line_end) windows) (line_end + 2)
          (if hit then suc hits else hits) in
      check (ltb (length response) 5 || leb (start + 5) (length response)) next
]

-- The response that ends with "END\r\n" at `response_end`.
pub decode_values : {net : Net} → Session net → Metrics → ℕ → Decoded net
decode_values s m response_end =
    let response = take (response_end + 5) (buffer s) in
    elim (count_hits (length response) response response 0 0) [
      | ret hits ↦ accept s (record m { response_hit = m.response_hit + hits }) (response_end + 5)
      | panic ↦ panic
    ]

unfoldable pub decode : {net : Net} → Session net → Metrics → Decoded net
unfolding decode_values
decode s m = elim (match_fixed fixed (buffer s)) [
  | some n ↦ accept s m n
  | none ↦ elim (position (codes "END\r\n") (buffer s)) [
    | some response_end ↦ decode_values s m response_end
    | none ↦ refuse s m incomplete
  ]
]
