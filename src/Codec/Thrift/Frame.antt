-- ===== src/Codec/Thrift/Frame.antt =====
-- src/codec/thrift.rs: what the calls on a `ThriftBuffer` leave in it.
use rpc_perf.Base.{◌-◌, ◌≡◌, ap, [], ◌∷◌, ◌++◌, arith, length}
use rpc_perf.Base.Bytes.{Bytes}
use rpc_perf.Base.BigEndian.{be32}
use rpc_perf.Codec.Thrift.{ThriftBuffer, frame}

-- A frame: the length of the body, and the body.
abbrev pub framing : Bytes → Bytes
framing body = be32 (length body) ++ body

-- `frame` makes one frame of what was written after `new`.
pub frame-framing :
    (b : ThriftBuffer) (body : Bytes)
    → b.buffer ≡ (0 ∷ 0 ∷ 0 ∷ 0 ∷ []) ++ body
    → (frame b).buffer ≡ framing body
unfolding frame
frame-framing b body e = rw (e, frame) (ap (λ n. be32 n ++ body) less)
  where
    less : length ((0 ∷ 0 ∷ 0 ∷ 0 ∷ []) ++ body) - 4 ≡ length body
    less = omega arith
