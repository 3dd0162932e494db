-- ===== src/Tests/Responses.antt =====
-- The responses of src/codec at concrete buffers.
use rpc_perf.Base.{ℕ, ◌≡◌, ◌≢◌, ◌⊎◌, refl, true, false, [], ◌∷◌, ◌++◌, arith, length}
use rpc_perf.Base.Bytes.{Bytes, codes, crlf}
use rpc_perf.Base.Decimal.{to_decimal, parses_i64}
use rpc_perf.Base.BigEndian.{be32}
use rpc_perf.Base.Outcome.{ret, panic}
use rpc_perf.Metrics.{zeroed}
use rpc_perf.Session.{Session}
use rpc_perf.Reply.{Takes, refuse, incomplete, unknown, error}
use rpc_perf.Codec.Ping as Ping
use rpc_perf.Codec.Ping.{decode_complete}
use rpc_perf.Codec.Memcache as Memcache
use rpc_perf.Codec.Memcache.Responses.{Handles, decode-Handles}
use rpc_perf.Codec.Memcache.Gaps.{hits_in}
use rpc_perf.Codec.Memcache.Hits.{end_line, count_hits_lem}
use rpc_perf.Codec.Redis as Redis
use rpc_perf.Codec.Redis.Responses.{numeric}
use rpc_perf.Codec.Redis.Bulk.{bulk_whole, bulk_cut}
use rpc_perf.Codec.Redis.Faults.{array_panic, array_response}
use rpc_perf.Codec.Echo as Echo
use rpc_perf.Codec.Echo.Responses.{echo_line}
use rpc_perf.Codec.ThriftCache as ThriftCache
use rpc_perf.Codec.Thrift.{frame}
use rpc_perf.Codec.ThriftCache.{message, write_entry, write_entries}
use rpc_perf.Codec.ThriftCache.Requests.{call_wire, counted, entry_wire, entries_wire}
use rpc_perf.Codec.ThriftCache.RoundTrip.{message_round_trip}
use rpc_perf.Codec.ThriftCache.Responses.{frame_response}
use rpc_perf.Tests.World.{network, holding, holding-IsReady, buffer-holding}

-- A session whose buffer is given.
abbrev got : Bytes → Session network
got xs = holding xs []

ping_example :
    (((codes "PONG" ≡ codes "pong") ⊎ (codes "PONG" ≡ codes "PONG"))
      × Takes
          (got (codes "PONG\r\nx"))
          zeroed
          (codes "x")
          (Ping.decode (got (codes "PONG\r\nx")) zeroed))
    ⊎ ((codes "PONG" ≢ codes "pong")
        × (codes "PONG" ≢ codes "PONG")
        × (Ping.decode (got (codes "PONG\r\nx")) zeroed
            ≡ refuse (got (codes "PONG\r\nx")) zeroed unknown))
ping_example =
    decode_complete (got (codes "PONG\r\nx")) zeroed (codes "PONG")
      (omega arith, (omega arith, (omega arith, (omega arith, tt)))) (codes "x")
      (holding-IsReady (codes "PONG\r\nx") [] (omega arith))
      (buffer-holding (codes "PONG\r\nx") [] (omega arith))

abbrev hit : Bytes
hit = codes "VALUE a 0 1\r\nx\r\nEND\r\n"

memcache_response_example : Handles (got hit) zeroed (Memcache.decode (got hit) zeroed)
memcache_response_example = decode-Handles (got hit) zeroed (holding-IsReady hit [] (omega arith))

abbrev values : Bytes
values = codes "VALUE a 0 1\r\nx\r\n"

count_hits_example :
    Memcache.count_hits 40 (values ++ end_line) (values ++ end_line) 0 0
    ≡ ret (hits_in (values ++ end_line))
count_hits_example = count_hits_lem 40 values (omega arith)

numeric_example :
    ((parses_i64 (codes "-7") ≡ true)
      × Takes (got (codes ":-7\r\n")) zeroed [] (Redis.decode (got (codes ":-7\r\n")) zeroed))
    ⊎ ((parses_i64 (codes "-7") ≡ false)
        × (Redis.decode (got (codes ":-7\r\n")) zeroed
            ≡ refuse (got (codes ":-7\r\n")) zeroed unknown))
numeric_example =
    numeric (got (codes ":-7\r\n")) zeroed (codes "-7") [] (omega arith, (omega arith, tt))
      (holding-IsReady (codes ":-7\r\n") [] (omega arith))
      (buffer-holding (codes ":-7\r\n") [] (omega arith))

bulk_example :
    Takes
      (got (codes "$4\r\na\r\nb\r\n+"))
      (record zeroed { response_hit = 1 })
      (codes "+")
      (Redis.decode (got (codes "$4\r\na\r\nb\r\n+")) zeroed)
unfolding to_decimal
bulk_example =
    bulk_whole (got (codes "$4\r\na\r\nb\r\n+")) zeroed (codes "a\r\nb") (codes "+")
      (holding-IsReady (codes "$4\r\na\r\nb\r\n+") [] (omega arith))
      (buffer-holding (codes "$4\r\na\r\nb\r\n+") [] (omega arith))

bulk_cut_example :
    Redis.decode (got (codes "$4\r\na\r\nb\r")) zeroed
    ≡ refuse (got (codes "$4\r\na\r\nb\r")) zeroed incomplete
unfolding to_decimal
bulk_cut_example =
    bulk_cut (got (codes "$4\r\na\r\nb\r")) zeroed 4 (codes "a\r\nb\r")
      (holding-IsReady (codes "$4\r\na\r\nb\r") [] (omega arith)) (omega arith) (omega arith)
      (buffer-holding (codes "$4\r\na\r\nb\r") [] (omega arith))

array_panic_example : Redis.decode (got (codes "*1")) zeroed ≡ panic
array_panic_example =
    array_panic (got (codes "*1")) zeroed (codes "1")
      (holding-IsReady (codes "*1") [] (omega arith)) (buffer-holding (codes "*1") [] (omega arith))
      (omega arith)

array_example :
    ((codes "-1" ≡ codes "-1")
      × Takes (got (codes "*-1\r\n")) zeroed [] (Redis.decode (got (codes "*-1\r\n")) zeroed))
    ⊎ ((codes "-1" ≢ codes "-1")
        × (Redis.decode (got (codes "*-1\r\n")) zeroed
            ≡ refuse (got (codes "*-1\r\n")) zeroed unknown))
array_example =
    array_response (got (codes "*-1\r\n")) zeroed (codes "-1") crlf
      (holding-IsReady (codes "*-1\r\n") [] (omega arith)) refl
      (buffer-holding (codes "*-1\r\n") [] (omega arith))

summed : Bytes → ℕ
summed bytes = length bytes

abbrev echoed : Bytes
echoed = codes "abc" ++ (be32 3 ++ crlf)

echo_line_example :
    ((be32 3 ≡ be32 (summed (codes "abc")))
      × Takes (got echoed) zeroed [] (Echo.decode summed (got echoed) zeroed))
    ⊎ ((be32 3 ≢ be32 (summed (codes "abc")))
        × (Echo.decode summed (got echoed) zeroed
            ≡ refuse (got echoed) (record zeroed { response_ex = 1 }) error))
echo_line_example =
    echo_line summed (got echoed) zeroed (codes "abc") (be32 3) [] (omega arith) refl
      (
        omega arith,
        (
          omega arith,
          (omega arith, (omega arith, (omega arith, (omega arith, (omega arith, tt))))),
        ),
      )
      (holding-IsReady echoed [] (omega arith)) (buffer-holding echoed [] (omega arith))

-- Two frames of one byte.
abbrev frames : Bytes
frames = be32 1 ++ (7 ∷ (be32 1 ++ (8 ∷ [])))

frame_example :
    ((length {A = ℕ} (7 ∷ (be32 1 ++ (8 ∷ []))) ≡ 1)
      × Takes (got frames) zeroed [] (ThriftCache.decode (got frames) zeroed))
    ⊎ ((length {A = ℕ} (7 ∷ (be32 1 ++ (8 ∷ []))) ≢ 1)
        × (ThriftCache.decode (got frames) zeroed ≡ refuse (got frames) zeroed incomplete))
frame_example =
    frame_response (got frames) zeroed 1 (7 ∷ (be32 1 ++ (8 ∷ []))) (omega arith) (omega arith)
      (omega arith) (holding-IsReady frames [] (omega arith))
      (buffer-holding frames [] (omega arith))

abbrev call : Bytes
call = (message (codes "count") (codes "abc") []).buffer

round_trip_example : Takes (got call) zeroed [] (ThriftCache.decode (got call) zeroed)
unfolding message write_entry write_entries frame call_wire counted entry_wire entries_wire
round_trip_example =
    message_round_trip (got call) zeroed (codes "count") (codes "abc") [] (omega arith)
      (holding-IsReady call [] (omega arith)) (buffer-holding call [] (omega arith))
