-- ===== src/Replay/Responses.antt =====
-- src/replay.rs, `decode`, against the parser of src/codec/memcache.rs.
use rpc_perf.Base.{
  ◌≤◌, length, ap, sym, subst, Bool-cases, ℕ, ◌+◌, ◌≡◌, refl, inl, inr, Option-cases, ltb, arith,
}
use rpc_perf.Base.Bytes.{codes, position, position-bound}
use rpc_perf.Base.Outcome.{ret}
use rpc_perf.Metrics.{Metrics}
use rpc_perf.Net.{Net}
use rpc_perf.Session.{Session, buffer}
use rpc_perf.Session.Flush.{consume-Ate, buffer_lem}
use rpc_perf.Buffer.Grow.{length-borrow}
use rpc_perf.Session.Ready.{IsReady}
use rpc_perf.Reply.{Reply, accepted, refused, incomplete, Decoded, accept}
use rpc_perf.Codec.Memcache.{fixed, match_fixed}
use rpc_perf.Codec.Memcache as Memcache
use rpc_perf.Codec.Memcache.Responses.{decode_values-accept, match_fixed-bound}
use rpc_perf.Replay.{decode, end_response}

-- Two calls that have the same answer and leave the same session; their counts of hits may differ.
pub record Agrees {net : Net} (m : Metrics) (d d' : Decoded net) : Type 0 where
  pub reply : Reply
  pub after : Session net
  pub hits : ℕ
  pub hits' : ℕ
  pub returns : d ≡ ret (reply, after, record m { response_hit = m.response_hit + hits })
  pub returns' : d' ≡ ret (reply, after, record m { response_hit = m.response_hit + hits' })

module _ {net : Net} (s : Session net) (m : Metrics) where
  unchanged : m ≡ record m { response_hit = m.response_hit + 0 }
  unchanged = ap (λ h. record m { response_hit = h }) (omega arith)

  accept-Agrees :
      (n hits hits' : ℕ)
      → IsReady s
      → n ≤ length (buffer s)
      → Agrees m
          (accept s (record m { response_hit = m.response_hit + hits }) n)
          (accept s (record m { response_hit = m.response_hit + hits' }) n)
  unfolding accept
  accept-Agrees n hits hits' r h =
      let (s', e, a) = consume-Ate s n r (
        omega (
          arith,
          h,
          ap length (buffer_lem s),
          length-borrow r.reads,
          r.reads.written,
          r.reads.room,
        )) in
      record {
        reply = accepted;
        after = s';
        hits = hits;
        hits' = hits';
        returns = rw (e, accept) refl;
        returns' = rw (e, accept) refl;
      }

  end_response-accept :
      (i : ℕ)
      → (hits : ℕ) × (end_response s m i
          ≡ accept s (record m { response_hit = m.response_hit + hits }) (i + 5))
  unfolding end_response
  end_response-accept i = elim (Bool-cases (ltb 0 i)) [
    | inl e ↦ (1, rw (e, end_response) refl)
    | inr e ↦ (0, rw (e, end_response) (ap (λ x. accept s x (i + 5)) unchanged))
  ]

  -- On a ready session the parser of the replay program and that of the memcache codec both
  -- return, with the same answer and with the same session after it, and the counters differ in
  -- the number of hits alone.
  pub decode-Agrees : IsReady s → Agrees m (decode s m) (Memcache.decode s m)
  unfolding decode Memcache.decode
  decode-Agrees r = elim (Option-cases (match_fixed fixed (buffer s))) [
    | inr (n, e) ↦
        rw (e, decode, Memcache.decode)
          (subst (λ x. Agrees m (accept s x n) (accept s x n)) (sym unchanged)
            (accept-Agrees n 0 0 r (match_fixed-bound s n e)))
    | inl e ↦ elim (Option-cases (position (codes "END\r\n") (buffer s))) [
      | inl p ↦
          rw (e, p, decode, Memcache.decode)
            (record {
              reply = refused incomplete;
              after = s;
              hits = 0;
              hits' = 0;
              returns = ap (λ x. ret (refused incomplete, s, x)) unchanged;
              returns' = ap (λ x. ret (refused incomplete, s, x)) unchanged;
            })
      | inr (i, p) ↦
          let (hits, a) = end_response-accept i in
          let (hits', b) = decode_values-accept s m i p in
          rw (e, p, decode, Memcache.decode)
            (rw (a, b)
              (accept-Agrees (i + 5) hits hits' r
                (position-bound (codes "END\r\n") (buffer s) i p)))
    ]
  ]
