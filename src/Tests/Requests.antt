-- ===== src/Tests/Requests.antt =====
-- The requests of src/codec at concrete draws.
use rpc_perf.Base.{ℕ, refl, [], ◌++◌, arith, length}
use rpc_perf.Base.Bytes.{Bytes, codes, crlf}
use rpc_perf.Base.BigEndian.{be32}
use rpc_perf.Metrics.{zeroed}
use rpc_perf.Base.Decimal.{to_decimal}
use rpc_perf.Rand.{sample_bytes}
use rpc_perf.Keyspace.{Verb, choose_keyspace, choose_command, index, generate_key}
use rpc_perf.Keyspace.Draws.{draw_keys, spaced}
use rpc_perf.Session.{Session}
use rpc_perf.Writer.{Emitted}
use rpc_perf.Codec.Memcache.Encode.{gets, memcache_request}
use rpc_perf.Codec.Memcache as Memcache
use rpc_perf.Codec.Redis.{resp}
use rpc_perf.Codec.Redis as Redis
use rpc_perf.Codec.Redis.Commands.{wire, mgets, redis_request}
use rpc_perf.Codec.Echo as Echo
use rpc_perf.Codec.Echo.Requests.{echo_request}
use rpc_perf.Codec.ThriftCache.Encode as ThriftCache
use rpc_perf.Tests.World.{network, holding, holding-IsReady, holding-room, keyspace, config}

abbrev idle : Session network
idle = holding [] []

memcache_example :
    Emitted
      (Memcache.encode network (config Verb.get) 0 zeroed)
      ((draw_keys (keyspace Verb.get) 2 0).1, record zeroed { request_get = 1 })
      (codes "get " ++ (spaced (draw_keys (keyspace Verb.get) 2 0).0 ++ crlf))
      idle
unfolding choose_keyspace choose_command index draw_keys generate_key sample_bytes
memcache_example =
    memcache_request network (config Verb.get) 0 0 0 zeroed (keyspace Verb.get)
      (record { verb = Verb.get; weight = 1 }) _ _ refl refl gets idle
      (holding-IsReady [] [] (omega arith)) (holding-room [] [] 13 (omega arith))

redis_example :
    Emitted
      (Redis.encode network resp (config Verb.get) 0 zeroed)
      ((draw_keys (keyspace Verb.get) 2 0).1, record zeroed { request_get = 1 })
      (wire resp (codes "mget") (draw_keys (keyspace Verb.get) 2 0).0)
      idle
unfolding choose_keyspace choose_command index draw_keys generate_key sample_bytes wire to_decimal
redis_example =
    redis_request network resp (config Verb.get) 0 0 0 zeroed (keyspace Verb.get)
      (record { verb = Verb.get; weight = 1 }) (codes "mget") (draw_keys (keyspace Verb.get) 2 0).0
      _ refl refl (mgets (omega arith)) idle (holding-IsReady [] [] (omega arith))
      (holding-room [] [] 32 (omega arith))

checksum : Bytes → ℕ
checksum bytes = length bytes

echo_example :
    Emitted
      (Echo.encode checksum network (config Verb.echo) 0)
      3
      (codes "abc" ++ (be32 3 ++ crlf))
      idle
unfolding choose_keyspace index sample_bytes checksum
echo_example =
    echo_request checksum network (config Verb.echo) 0 0 (keyspace Verb.echo) refl idle
      (holding-IsReady [] [] (omega arith)) (holding-room [] [] 9 (omega arith))
