-- ===== src/Codec/ThriftCache/Responses.antt =====
-- src/codec/thrift_cache.rs, `decode`: which frames it takes from the buffer.
use rpc_perf.Base.{
  ◌⊎◌, Bool-cases, inl, inr, ◌==◌, ==_iff, ℕ, ◌+◌, ◌%◌, ◌^◌, ◌<◌, ◌≡◌, ◌≢◌, sym, ap, ◌∙◌, true, [],
  ◌∷◌, ◌++◌, append-nil, arith, length, ltb, lt→ltb,
}
use rpc_perf.Base.Bytes.{Bytes}
use rpc_perf.Base.BigEndian.{be32, from_be32-be32}
use rpc_perf.Metrics.{Metrics}
use rpc_perf.Net.{Net}
use rpc_perf.Session.{Session, buffer}
use rpc_perf.Session.Ready.{IsReady}
use rpc_perf.Reply.{refuse, incomplete, Takes, accept-Takes, Takes-of_eq}
use rpc_perf.Codec.ThriftCache.{decode, framed}

module _ {net : Net} (s : Session net) (m : Metrics) where
  -- With a length in the buffer and a byte after it, the length decides.
  decode-framed :
      (n : ℕ) (part : Bytes)
      → n + 4 < 2 ^ 32
      → length part + 4 < 2 ^ 32
      → 0 < length part
      → buffer s ≡ be32 n ++ part
      → decode s m ≡ framed s m n (length part + 4)
  unfolding decode
  decode-framed n part h k p e =
      rw (e, more, from_be32-be32 n (omega arith), decode) (ap (λ t. framed s m n t) size)
    where
      more : ltb 4 (length (be32 n ++ part) % 2 ^ 32) ≡ true
      more = lt→ltb _ _ (omega (arith, k, p))

      size : length (buffer s) % 2 ^ 32 ≡ length part + 4
      size = omega (arith, ap length e, k)

  -- No more than the length itself is incomplete.
  decode-bare : (n : ℕ) → buffer s ≡ be32 n → decode s m ≡ refuse s m incomplete
  unfolding decode
  decode-bare n e = rw (e, decode)

  sized_response :
      (n : ℕ) (part : Bytes)
      → n + 4 < 2 ^ 32
      → length part + 4 < 2 ^ 32
      → IsReady s
      → buffer s ≡ be32 n ++ part
      → (0 < n → length part ≡ n → Takes s m [] (decode s m))
        × (length part ≢ n → decode s m ≡ refuse s m incomplete)
  unfolding framed
  sized_response n [] h k r e = (λ p same. absurd (omega arith), λ other. decode-bare n e)
  sized_response n (x ∷ part) h k r e = (
    λ p same. Takes-of_eq s m [] _ _ (at_length ∙ ground (arith, same, h)) (
        accept-Takes s m (be32 n ++ (x ∷ part)) [] (n + 4) r (e ∙ sym (append-nil _))
          (omega (arith, same))),
    λ other. at_length ∙ ground (arith, other, h),
  )
    where
      at_length : decode s m ≡ framed s m n (length (x ∷ part) + 4)
      at_length = decode-framed n (x ∷ part) h k (omega arith) e

  -- On a ready session whose buffer is the four bytes of a length n > 0 and then some bytes, n
  -- and their number below 2^32 - 4: either these are n bytes, and decode accepts the frame and
  -- leaves nothing, or they are fewer or more, and decode returns "incomplete" and nothing
  -- changes, so a frame with another one behind it is not taken.
  pub frame_response :
      (n : ℕ) (part : Bytes)
      → 0 < n
      → n + 4 < 2 ^ 32
      → length part + 4 < 2 ^ 32
      → IsReady s
      → buffer s ≡ be32 n ++ part
      → ((length part ≡ n) × Takes s m [] (decode s m))
        ⊎ ((length part ≢ n) × (decode s m ≡ refuse s m incomplete))
  frame_response n part p h k r e = elim (Bool-cases (length part == n)) [
    | inl hit ↦
        let same = (==_iff (length part) n).0 hit in
        inl (same, (sized_response n part h k r e).0 p same)
    | inr miss ↦
        let other : length part ≢ n = ground (arith, ==_iff (length part) n) in
        inr (other, (sized_response n part h k r e).1 other)
  ]
