-- ===== src/Codec/Redis/Bulk.antt =====
-- src/codec/redis.rs, `decode`: bulk strings, whole or not yet whole.
use rpc_perf.Base.{
  ℕ, suc, ◌+◌, ◌^◌, ◌≤◌, ◌<◌, ◌≡◌, sym, ap, ◌∙◌, true, false, some, ◌∷◌, ◌++◌, append_assoc, arith,
  leb, le→leb, leb→le, length, length-append, add_usize,
}
use rpc_perf.Base.Bytes.{Bytes, crlf}
use rpc_perf.Base.Decimal.{to_decimal, to_decimal-Digits, parse_usize-to_decimal}
use rpc_perf.Metrics.{Metrics}
use rpc_perf.Net.{Net}
use rpc_perf.Session.{Session, buffer}
use rpc_perf.Session.Ready.{IsReady}
use rpc_perf.Session.Flush.{buffer_lem}
use rpc_perf.Buffer.Grow.{length-borrow}
use rpc_perf.Reply.{refuse, incomplete, Takes, accept-Takes, Takes-of_eq}
use rpc_perf.Codec.Redis.{decode, kind, bulk_line, bulk_payload}
use rpc_perf.Codec.Redis.Line.{lined-whole, decode-kind, Digits-LacksCr, digits_not_minus}

-- A bulk string on the wire.
abbrev pub bulk : Bytes → Bytes
bulk payload = b'$' ∷ (to_decimal (length payload) ++ (crlf ++ (payload ++ crlf)))

module _ {net : Net} (s : Session net) (m : Metrics) where
  header :
      (n : ℕ) (rest : Bytes)
      → n < 2 ^ 64
      → buffer s ≡ b'$' ∷ (to_decimal n ++ (crlf ++ rest))
      → decode s m ≡ bulk_payload s m (suc (length (to_decimal n))) (some n)
  unfolding kind bulk_line
  header n rest small e =
      decode-kind s m b'$' _ e
      ∙ lined-whole s m (bulk_line s m) b'$' (to_decimal n) rest (omega arith)
          (Digits-LacksCr _ (to_decimal-Digits n)) e
      ∙ rw (digits_not_minus n, parse_usize-to_decimal n small)

  -- On a ready session whose buffer begins with a bulk string, whatever bytes its payload has,
  -- line ends included, decode accepts it: it counts one hit, consumes exactly the bulk string,
  -- leaves the bytes after it, and keeps the session ready.
  pub bulk_whole :
      (payload rest : Bytes)
      → IsReady s
      → buffer s ≡ bulk payload ++ rest
      → Takes s (record m { response_hit = m.response_hit + 1 }) rest (decode s m)
  unfolding bulk_payload
  bulk_whole payload rest r e =
      Takes-of_eq s hit rest _ _
        (header (length payload) (payload ++ (crlf ++ rest)) small shape ∙ rw (sum, fits))
        (accept-Takes s hit (bulk payload) rest end r e (sym whole))
    where
      hit : Metrics
      hit = record m { response_hit = m.response_hit + 1 }

      end : ℕ
      end = length payload + suc (length (to_decimal (length payload))) + 4

      whole : length (bulk payload) ≡ end
      whole = omega (
        arith,
        length-append (to_decimal (length payload)) (crlf ++ (payload ++ crlf)),
        length-append payload crlf,
      )

      bounded : end ≤ length (buffer s)
      bounded = omega (arith, whole, ap length e, length-append (bulk payload) rest)

      room : length (buffer s) ≤ 2 ^ 63
      room =
          omega
            (arith, ap length (buffer_lem s), length-borrow r.reads, r.reads.written, r.reads.room)

      small : length payload < 2 ^ 64
      small = omega (arith, bounded, room)

      shape :
          buffer s ≡ b'$' ∷ (to_decimal (length payload) ++ (crlf ++ (payload ++ (crlf ++ rest))))
      shape =
          e
          ∙ ap (λ t. b'$' ∷ t)
              (append_assoc (to_decimal (length payload)) _ rest
                ∙ ap (λ t. to_decimal (length payload) ++ (crlf ++ t))
                    (append_assoc payload crlf rest))

      sum :
          add_usize (add_usize (length payload) (suc (length (to_decimal (length payload))))) 4
          ≡ end
      sum = omega (arith, bounded, room)

      fits : leb end (length (buffer s)) ≡ true
      fits = le→leb _ _ bounded

  -- On a ready session whose buffer is the header of a bulk string of n bytes and then fewer than
  -- n + 2 bytes, with the whole below 2^64, decode returns "incomplete" and nothing changes.
  pub bulk_cut :
      (n : ℕ) (part : Bytes)
      → IsReady s
      → n + 1 + length (to_decimal n) + 4 < 2 ^ 64
      → length part < n + 2
      → buffer s ≡ b'$' ∷ (to_decimal n ++ (crlf ++ part))
      → decode s m ≡ refuse s m incomplete
  unfolding bulk_payload
  bulk_cut n part r small short e = header n part (omega (arith, small)) e ∙ rw (sum, fits)
    where
      end : ℕ
      end = n + suc (length (to_decimal n)) + 4

      sum : add_usize (add_usize n (suc (length (to_decimal n)))) 4 ≡ end
      sum = omega (arith, small)

      fits : leb end (length (buffer s)) ≡ false
      fits = ground (
        arith,
        leb→le end (length (buffer s)),
        ap length e,
        length-append (to_decimal n) (crlf ++ part),
      )
