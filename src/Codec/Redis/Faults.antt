-- ===== src/Codec/Redis/Faults.antt =====
-- src/codec/redis.rs, `decode`: the responses that begin with "-", "*" or none of the type bytes.
use rpc_perf.Base.{
  ℕ, suc, ◌-◌, ◌^◌, ◌≤◌, ◌<◌, ◌≡◌, ◌≢◌, refl, sym, ap, ◌∙◌, true, false, ◌&&◌, Bool-cases, ◌⊎◌, inl,
  inr, [], ◌∷◌, ◌++◌, append-nil, arith, leb, le→leb, length, length-append, take, drop,
  take-append_eq, sub_usize, if◌then◌else◌,
}
use rpc_perf.Base.Bytes.{bytes_cases, Bytes, codes, bytes_eq, bytes_eq→≡, bytes_eq_self}
use rpc_perf.Base.Outcome.{panic}
use rpc_perf.Buffer.Grow.{length-borrow}
use rpc_perf.Metrics.{Metrics}
use rpc_perf.Net.{Net}
use rpc_perf.Session.{Session, buffer}
use rpc_perf.Session.Ready.{IsReady}
use rpc_perf.Session.Flush.{buffer_lem}
use rpc_perf.Reply.{accept, refuse, unknown, Takes, accept-Takes, Takes-of_eq}
use rpc_perf.Codec.Redis.{decode, kind, array}
use rpc_perf.Codec.Redis.Line.{decode-kind}

module _ {net : Net} (s : Session net) (m : Metrics) where
  compared_array :
      (msg tail : Bytes)
      → IsReady s
      → buffer s ≡ b'*' ∷ (msg ++ tail)
      → (length (msg ++ tail) < 2 → decode s m ≡ panic)
        × (length tail ≡ 2 → msg ≡ codes "-1" → Takes s m [] (decode s m))
        × (length tail ≡ 2 → msg ≢ codes "-1" → decode s m ≡ refuse s m unknown)
  unfolding kind array
  compared_array msg tail r e = (
    λ short.
        decode-kind s m b'*' _ e
        ∙ rw (cut (length (buffer s)) (omega (arith, size)) (omega (arith, size)), array),
    λ two same.
        Takes-of_eq s m [] _ _ (compared two ∙ rw (same, bytes_eq_self (codes "-1")))
          (accept-Takes s m (buffer s) [] (length (buffer s)) r (sym (append-nil _)) refl),
    λ two other. elim (Bool-cases (bytes_eq msg (codes "-1"))) [
      | inl hit ↦ absurd (other (bytes_eq→≡ _ _ hit))
      | inr miss ↦ compared two ∙ rw miss
    ],
  )
    where
      size : length (buffer s) ≡ suc (length (msg ++ tail))
      size = ap length e

      room : length (buffer s) ≤ 2 ^ 63
      room =
          omega
            (arith, ap length (buffer_lem s), length-borrow r.reads, r.reads.written, r.reads.room)

      cut : (n : ℕ) → 0 < n → n < 3 → (leb 1 (sub_usize n 2) && leb (sub_usize n 2) n) ≡ false
      cut n p h = ground arith

      inside :
          length tail ≡ 2
          → (leb 1 (sub_usize (length (buffer s)) 2)
              && leb (sub_usize (length (buffer s)) 2) (length (buffer s)))
            ≡ true
      inside two = rw (
        le→leb 1 (sub_usize (length (buffer s)) 2)
            (omega (arith, length-append msg tail, room, size)),
        le→leb (sub_usize (length (buffer s)) 2) (length (buffer s))
            (omega (arith, length-append msg tail, room, size)),
      )

      text : length tail ≡ 2 → take (sub_usize (length (buffer s)) 2 - 1) (drop 1 (buffer s)) ≡ msg
      text two =
          rw e (take-append_eq _ msg tail (omega (arith, length-append msg tail, room, size)))

      compared :
          length tail ≡ 2
          → decode s m ≡ (
              if bytes_eq msg (codes "-1")
              then accept s m (length (buffer s))
              else refuse s m unknown)
      compared two = decode-kind s m b'*' _ e ∙ rw (inside two, text two, array)

  -- On a ready session whose buffer begins with "*" and has one or two bytes, decode panics.
  pub array_panic :
      (t : Bytes) → IsReady s → buffer s ≡ b'*' ∷ t → length t < 2 → decode s m ≡ panic
  array_panic t r e short = (compared_array [] t r e).0 short

  -- On a ready session whose buffer begins with "*" and has two bytes at least after it: either
  -- what stands between "*" and the last two bytes is "-1", and decode accepts the whole buffer,
  -- or it is not, and the response is unknown and nothing changes.
  pub array_response :
      (msg tail : Bytes)
      → IsReady s
      → length tail ≡ 2
      → buffer s ≡ b'*' ∷ (msg ++ tail)
      → ((msg ≡ codes "-1") × Takes s m [] (decode s m))
        ⊎ ((msg ≢ codes "-1") × (decode s m ≡ refuse s m unknown))
  array_response msg tail r two e = elim (bytes_cases msg (codes "-1")) [
    | inl same ↦ inl (same, (compared_array msg tail r e).1 two same)
    | inr other ↦ inr (other, (compared_array msg tail r e).2 two other)
  ]
