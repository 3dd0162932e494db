-- ===== src/Codec/Memcache/Requests.antt =====
-- src/codec/memcache.rs, `encode`: the bytes that each request puts on the wire.
use rpc_perf.Base.{
  ℕ, zero, suc, ◌+◌, ◌≡◌, Option, [], ◌++◌, append-nil, arith, ltb, true, false, length,
}
use rpc_perf.Base.Bytes.{Bytes, codes}
use rpc_perf.Base.Decimal.{to_decimal}
use rpc_perf.Base.Outcome.{ret}
use rpc_perf.Net.{Net}
use rpc_perf.Rand.{Rand}
use rpc_perf.Keyspace.{Keyspace, generate_key, generate_value, or_empty}
use rpc_perf.Keyspace.Draws.{draw_keys, spaced}
use rpc_perf.Writer.{
  pure, Emits, Emits-pure, Emits-bind, Emits-then, Emits-put_then, Emits-lift, Emits-of_eq,
  Emits-put-pure,
}
use rpc_perf.Codec.Memcache.{get_keys, get, set, delete}

module _ {rand : Rand} (net : Net) (keyspace : Keyspace rand) where
  get_keys-Emits :
      (k i : ℕ) (rng : rand.Rng)
      → k + i ≡ keyspace.batch_size
      → Emits
          (get_keys net keyspace k i rng)
          (draw_keys keyspace k rng).1
          (spaced (draw_keys keyspace k rng).0)
  unfolding get_keys draw_keys
  get_keys-Emits zero i rng h = Emits-pure net rng
  get_keys-Emits (suc zero) i rng h =
      let last : ltb (i + 1) keyspace.batch_size ≡ false = ground arith in
      let key = (generate_key keyspace rng).0 in
      let rng' = (generate_key keyspace rng).1 in
      rw last (
        Emits-of_eq _ rng' (append-nil key) (
          Emits-put_then key _ rng' [] (
            Emits-then (pure tt) (pure rng') rng' [] [] (Emits-pure net tt) (Emits-pure net rng'))))
  get_keys-Emits (suc (suc k)) i rng h =
      let more : ltb (i + 1) keyspace.batch_size ≡ true = ground arith in
      let key = (generate_key keyspace rng).0 in
      let rng' = (generate_key keyspace rng).1 in
      rw more (
        Emits-put_then key _ _ _
          (Emits-put_then (codes " ") _ _ _ (get_keys-Emits (suc k) (i + 1) rng' (omega arith))))

  -- `get` sends "get", the keys that it draws (as many as the batch size) with a space between
  -- each two, and a line end.
  pub get-Emits :
      (rng : rand.Rng)
      → let (keys, rng') = draw_keys keyspace keyspace.batch_size rng in
        Emits (get net keyspace rng) rng' (codes "get " ++ (spaced keys ++ codes "\r\n"))
  unfolding get
  get-Emits rng =
      let n = keyspace.batch_size in
      let (keys, rng') = draw_keys keyspace n rng in
      Emits-put_then (codes "get ") _ rng' _ (
        Emits-bind (get_keys net keyspace n 0 rng) _ rng' rng' (spaced keys) (codes "\r\n")
          (get_keys-Emits n 0 rng (omega arith)) (Emits-put-pure net (codes "\r\n") rng'))

  -- `set` sends the key, the flags 0, the time to live, the length of the value, and the value
  -- between two line ends; without a value configured it is empty.
  pub set-Emits :
      (rng rng' : rand.Rng) (drawn : Option Bytes)
      → generate_value keyspace (generate_key keyspace rng).1 ≡ ret (drawn, rng')
      → let key = (generate_key keyspace rng).0 in
        let value = or_empty drawn in
        Emits (set net keyspace rng) rng' (
          codes "set "
          ++ (key
              ++ ((codes " 0 "
                    ++ (to_decimal keyspace.ttl
                        ++ (codes " " ++ (to_decimal (length value) ++ codes "\r\n"))))
                  ++ (value ++ codes "\r\n"))))
  unfolding set
  set-Emits rng rng' drawn e =
      Emits-lift (generate_value keyspace (generate_key keyspace rng).1) _ (drawn, rng') rng' _ e
        (Emits-put_then (codes "set ") _ rng' _ (
          Emits-put_then (generate_key keyspace rng).0 _ rng' _ (
            Emits-put_then _ _ rng' _
              (Emits-put_then (or_empty drawn) _ rng' _ (Emits-put-pure net (codes "\r\n") rng')))))

  pub delete-Emits :
      (rng : rand.Rng)
      → let (key, rng') = generate_key keyspace rng in
        Emits (delete net keyspace rng) rng' (codes "delete " ++ (key ++ codes "\r\n"))
  unfolding delete
  delete-Emits rng =
      let rng' = (generate_key keyspace rng).1 in
      Emits-put_then (codes "delete ") _ rng' _ (
        Emits-put_then (generate_key keyspace rng).0 _ rng' _
          (Emits-put-pure net (codes "\r\n") rng'))
