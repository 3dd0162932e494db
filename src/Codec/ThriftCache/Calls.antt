-- ===== src/Codec/ThriftCache/Calls.antt =====
-- src/codec/thrift_cache.rs: the call that each verb makes.
use rpc_perf.Base.{ℕ, ◌≡◌, true, List, [], ◌∷◌}
use rpc_perf.Base.Bytes.{Bytes, codes}
use rpc_perf.Base.Outcome.{Outcome, ret, panic}
use rpc_perf.Net.{Net}
use rpc_perf.Rand.{Rand}
use rpc_perf.Keyspace.{Keyspace, Verb}
use rpc_perf.Session.{Session}
use rpc_perf.Codec.Thrift.Frame.{framing}
use rpc_perf.Codec.ThriftCache.{Entry, text, texts, int32, int64, flag, message, count}
use rpc_perf.Codec.ThriftCache.Requests.{call_wire, message_lem}

-- The method that each verb calls, and its fields after the key. `ltrim` calls "range".
pub data Calls : Verb → Bytes → List Entry → Type 0 where
  rpush_call : (values : List Bytes) → Calls Verb.rpush (codes "append") (texts 3 values ∷ [])
  rpushx_call : (values : List Bytes) → Calls Verb.rpushx (codes "appendx") (texts 3 values ∷ [])
  count_call : Calls Verb.count (codes "count") []
  hget_call : (fields : List Bytes) → Calls Verb.hget (codes "get") (texts 3 fields ∷ [])
  hset_call :
      (fields values : List Bytes)
      → Calls Verb.hset (codes "put") (texts 3 fields ∷ texts 4 values ∷ [])
  hset_ttl_call :
      (fields values : List Bytes) (ttl : ℕ)
      → Calls Verb.hset (codes "put") (texts 3 fields ∷ texts 4 values ∷ int64 6 ttl ∷ [])
  hdel_call : (fields : List Bytes) → Calls Verb.hdel (codes "remove") (texts 3 fields ∷ [])
  lrange_call : Calls Verb.lrange (codes "range") []
  ltrim_call : Calls Verb.ltrim (codes "range") (int32 3 1 ∷ flag 4 true ∷ [])

-- One frame around a call that the verb makes.
pub record IsCall (verb : Verb) (bytes : Bytes) : Type 0 where
  pub method : Bytes
  pub key : Bytes
  pub entries : List Entry
  pub calls : Calls verb method entries
  pub framed : bytes ≡ framing (call_wire method (text 1 (codes "0") ∷ text 2 key ∷ entries))

-- The property of what is returned, if anything is.
WhenRet : {A : Type 0} → (A → Type 0) → Outcome A → Type 0
WhenRet P (ret a) = P a
WhenRet P panic = Unit {0}

call :
    {verb : Verb} {method : Bytes} {entries : List Entry} (key : Bytes)
    → Calls verb method entries
    → IsCall verb (message method key entries).buffer
call {method} {entries} key c = record {
  method = method;
  key = key;
  entries = entries;
  calls = c;
  framed = message_lem method key entries;
}
