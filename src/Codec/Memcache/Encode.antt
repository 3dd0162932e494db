-- ===== src/Codec/Memcache/Encode.antt =====
-- src/codec/memcache.rs, `encode`: a request is drawn, written and counted.
use rpc_perf.Base.{ℕ, ◌+◌, ◌^◌, ◌≤◌, ◌≡◌, Option, ◌++◌, append-nil, length}
use rpc_perf.Base.Bytes.{Bytes, codes, crlf}
use rpc_perf.Base.Decimal.{to_decimal}
use rpc_perf.Base.Outcome.{ret}
use rpc_perf.Metrics.{Metrics}
use rpc_perf.Net.{Net}
use rpc_perf.Rand.{Rand}
use rpc_perf.Keyspace.{
  Keyspace, Config, Command, Verb, generate_key, generate_value, choose_keyspace, choose_command,
  or_empty,
}
use rpc_perf.Keyspace.Draws.{draw_keys, spaced}
use rpc_perf.Session.{Session}
use rpc_perf.Session.Ready.{IsReady}
use rpc_perf.Buffer.{borrow}
use rpc_perf.Writer.{Emits, Emitted, emitted, Emits-pure, Emits-bind, Emits-lift, Emits-of_eq}
use rpc_perf.Codec.Memcache.{run_verb, encode}
use rpc_perf.Codec.Memcache.Requests.{get-Emits, set-Emits, delete-Emits}

-- The bytes of a `set`: the flags 0, the time to live and the length of the value stand in the
-- first line, and the value between two line ends.
pub set_wire : Bytes → ℕ → Bytes → Bytes
set_wire key ttl value =
    codes "set "
    ++ (key
        ++ ((codes " 0 "
              ++ (to_decimal ttl ++ (codes " " ++ (to_decimal (length value) ++ codes "\r\n"))))
            ++ (value ++ codes "\r\n")))

-- What each verb writes, with the generator and the counters after it.
pub data Sends (net : Net) {rand : Rand} (keyspace : Keyspace rand) (rng : rand.Rng) (m : Metrics)
    : Verb → Bytes → rand.Rng × Metrics → Type 0 where
  gets :
      Sends net keyspace rng m Verb.get
        (codes "get " ++ (spaced (draw_keys keyspace keyspace.batch_size rng).0 ++ crlf))
        (
          (draw_keys keyspace keyspace.batch_size rng).1,
          record m { request_get = m.request_get + 1 },
        )
  sets :
      (rng' : rand.Rng) (drawn : Option Bytes)
      → generate_value keyspace (generate_key keyspace rng).1 ≡ ret (drawn, rng')
      → Sends net keyspace rng m Verb.set
          (set_wire (generate_key keyspace rng).0 keyspace.ttl (or_empty drawn))
          (rng', m)
  deletes :
      Sends net keyspace rng m Verb.delete
        (codes "delete " ++ ((generate_key keyspace rng).0 ++ crlf))
        ((generate_key keyspace rng).1, m)

run_verb-Emits :
    (net : Net) {rand : Rand} (keyspace : Keyspace rand) (rng : rand.Rng) (m : Metrics)
    (verb : Verb) (bytes : Bytes) (after : rand.Rng × Metrics)
    → Sends net keyspace rng m verb bytes after
    → Emits (run_verb net verb keyspace rng m) after bytes
unfolding run_verb set_wire
run_verb-Emits net keyspace rng m _ _ _ gets =
    Emits-of_eq _ _ (append-nil _)
      (Emits-bind _ _ _ _ _ _ (get-Emits net keyspace rng) (Emits-pure net _))
run_verb-Emits net keyspace rng m _ _ _ (sets rng' drawn e) =
    Emits-of_eq _ _ (append-nil _)
      (Emits-bind _ _ _ _ _ _ (set-Emits net keyspace rng rng' drawn e) (Emits-pure net _))
run_verb-Emits net keyspace rng m _ _ _ deletes =
    Emits-of_eq _ _ (append-nil _)
      (Emits-bind _ _ _ _ _ _ (delete-Emits net keyspace rng) (Emits-pure net _))

-- When a keyspace and a command of the verb get, set or delete are drawn, encode on a ready
-- session with room for the request appends exactly that request: get with as many keys as the
-- batch size and a space between each two, set with the time to live and the length of its value
-- before the value, delete with its key. Only a get is counted.
pub memcache_request :
    (net : Net) {rand : Rand} (config : Config rand) (rng₀ rng₁ rng₂ : rand.Rng) (m : Metrics)
    (keyspace : Keyspace rand) (chosen : Command) (bytes : Bytes) (after : rand.Rng × Metrics)
    → choose_keyspace config rng₀ ≡ ret (keyspace, rng₁)
    → choose_command keyspace rng₁ ≡ ret (chosen, rng₂)
    → Sends net keyspace rng₂ m chosen.verb bytes after
    → (s : Session net) → IsReady s
    → length (borrow s.write_buffer) + length bytes ≤ 2 ^ 62
    → Emitted (encode net config rng₀ m) after bytes s
unfolding encode
memcache_request net config rng₀ rng₁ rng₂ m keyspace chosen bytes after k c sends s r h =
    emitted _ _ _ s
      (Emits-lift _ _ _ _ _ k
        (Emits-lift _ _ _ _ _ c (run_verb-Emits net keyspace rng₂ m chosen.verb bytes after sends)))
      r h
