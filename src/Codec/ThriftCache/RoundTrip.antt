-- ===== src/Codec/ThriftCache/RoundTrip.antt =====
-- src/codec/thrift_cache.rs: `decode` on a frame that `ThriftBuffer` has made.
use rpc_perf.Base.{◌+◌, ◌^◌, ◌<◌, ◌≡◌, refl, ◌∙◌, inl, inr, List, [], ◌∷◌, length}
use rpc_perf.Base.Bytes.{Bytes, codes}
use rpc_perf.Metrics.{Metrics}
use rpc_perf.Net.{Net}
use rpc_perf.Session.{Session, buffer}
use rpc_perf.Session.Ready.{IsReady}
use rpc_perf.Reply.{Takes}
use rpc_perf.Codec.ThriftCache.{Entry, text, message, decode}
use rpc_perf.Codec.ThriftCache.Requests.{call_wire, call_wire-long, message_lem}
use rpc_perf.Codec.ThriftCache.Responses.{frame_response}

-- On a ready session whose buffer is a message that a ThriftBuffer has framed, with its body
-- below 2^32 - 4 bytes, decode accepts it and leaves nothing.
pub message_round_trip :
    {net : Net} (s : Session net) (m : Metrics) (method key : Bytes) (entries : List Entry)
    → length (call_wire method (text 1 (codes "0") ∷ text 2 key ∷ entries)) + 4 < 2 ^ 32
    → IsReady s
    → buffer s ≡ (message method key entries).buffer
    → Takes s m [] (decode s m)
message_round_trip s m method key entries h r e =
    let fields = text 1 (codes "0") ∷ text 2 key ∷ entries in
    let body = call_wire method fields in
    elim (frame_response s m (length body) body (call_wire-long method fields) h h r
      (e ∙ message_lem method key entries)) [
        | inl (same, taken) ↦ taken
        | inr (other, waits) ↦ absurd (other refl)
      ]
