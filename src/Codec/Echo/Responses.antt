-- ===== src/Codec/Echo/Responses.antt =====
-- src/codec/echo.rs, `decode`: complete lines and lines that are not complete.
use rpc_perf.Base.{
  ◌⊎◌, ℕ, ◌+◌, ◌-◌, ◌<◌, ◌≡◌, ◌≢◌, sym, ◌∙◌, some, none, ◌++◌, append_assoc, arith, true, false,
  ltb, ltb→lt, lt→ltb, Bool-cases, inl, inr, if◌then◌else◌, length, length-append, take, drop,
  take-append_eq, drop-append_eq,
}
use rpc_perf.Base.Bytes.{
  bytes_cases, Bytes, crlf, bytes_eq, bytes_eq→≡, bytes_eq_self, position, LacksCr, position-crlf,
  position-crlf-none,
}
use rpc_perf.Base.BigEndian.{be32}
use rpc_perf.Metrics.{Metrics}
use rpc_perf.Net.{Net}
use rpc_perf.Session.{Session, buffer}
use rpc_perf.Session.Ready.{IsReady}
use rpc_perf.Reply.{accept, refuse, incomplete, error, unknown, Takes, accept-Takes, Takes-of_eq}
use rpc_perf.Codec.Echo.{decode, decode_line}

module _ (crc : Bytes → ℕ) {net : Net} (s : Session net) (m : Metrics) where
  decode-line :
      (line rest : Bytes)
      → LacksCr line
      → buffer s ≡ line ++ (crlf ++ rest)
      → decode crc s m ≡ decode_line crc s m (length line)
  unfolding decode
  decode-line line rest clean e =
      let found : position crlf (buffer s) ≡ some (length line) =
        rw e (position-crlf line rest clean) in
      rw (found, decode)

  checked_line :
      (message sum rest : Bytes)
      → 0 < length message
      → length sum ≡ 4
      → LacksCr (message ++ sum)
      → IsReady s
      → buffer s ≡ (message ++ sum) ++ (crlf ++ rest)
      → (sum ≡ be32 (crc message) → Takes s m rest (decode crc s m))
        × (sum ≢ be32 (crc message)
            → decode crc s m ≡ refuse s (record m { response_ex = m.response_ex + 1 }) error)
  unfolding decode_line
  checked_line message sum rest some_byte four clean r e = (
    λ same. Takes-of_eq s m rest _ _ (at_line ∙ rw (same, bytes_eq_self (be32 (crc message)))) (
        accept-Takes s m ((message ++ sum) ++ crlf) rest (length (message ++ sum) + 2) r
          (e ∙ sym (append_assoc (message ++ sum) crlf rest))
          (omega (arith, length-append (message ++ sum) crlf))),
    λ other. elim (Bool-cases (bytes_eq (be32 (crc message)) sum)) [
      | inl hit ↦ absurd (other (sym (bytes_eq→≡ _ _ hit)))
      | inr miss ↦ at_line ∙ rw miss
    ],
  )
    where
      front : take (length (message ++ sum) - 4) (buffer s) ≡ message
      front =
          rw (e, append_assoc message sum (crlf ++ rest))
            (take-append_eq _ message (sum ++ (crlf ++ rest))
              (omega (arith, length-append message sum)))

      back : take 4 (drop (length (message ++ sum) - 4) (buffer s)) ≡ sum
      back =
          rw
            (
              e,
              append_assoc message sum (crlf ++ rest),
              drop-append_eq (length (message ++ sum) - 4) message (sum ++ (crlf ++ rest))
                  (omega (arith, length-append message sum)),
            )
            (take-append_eq 4 sum (crlf ++ rest) (omega arith))

      long : ltb (length (message ++ sum)) 5 ≡ false
      long = ground (arith, ltb→lt (length (message ++ sum)) 5, length-append message sum)

      at_line : decode crc s m ≡ (
          if bytes_eq (be32 (crc message)) sum
          then accept s m (length (message ++ sum) + 2)
          else refuse s (record m { response_ex = m.response_ex + 1 }) error)
      at_line = decode-line (message ++ sum) rest clean e ∙ rw (long, front, back, decode_line)

  -- On a ready session whose buffer begins with a message of at least one byte, four bytes of
  -- checksum, with no carriage return in either, and a line end: either the checksum is that of
  -- the message, and the line is accepted and consumed with its line end, or it is not, and
  -- decode returns an error, counts one response exception, and consumes nothing.
  pub echo_line :
      (message sum rest : Bytes)
      → 0 < length message
      → length sum ≡ 4
      → LacksCr (message ++ sum)
      → IsReady s
      → buffer s ≡ (message ++ sum) ++ (crlf ++ rest)
      → ((sum ≡ be32 (crc message)) × Takes s m rest (decode crc s m))
        ⊎ ((sum ≢ be32 (crc message))
            × (decode crc s m ≡ refuse s (record m { response_ex = m.response_ex + 1 }) error))
  echo_line message sum rest some_byte four clean r e =
      elim (bytes_cases sum (be32 (crc message))) [
        | inl same ↦ inl (same, (checked_line message sum rest some_byte four clean r e).0 same)
        | inr other ↦ inr (other, (checked_line message sum rest some_byte four clean r e).1 other)
      ]

  -- A line of fewer than five bytes is unknown.
  pub echo_short :
      (line rest : Bytes)
      → LacksCr line
      → length line < 5
      → buffer s ≡ line ++ (crlf ++ rest)
      → decode crc s m ≡ refuse s m unknown
  unfolding decode_line
  echo_short line rest clean short e =
      let less : ltb (length line) 5 ≡ true = lt→ltb _ _ short in
      decode-line line rest clean e ∙ rw (less, decode_line)

  -- Without a line end a response is incomplete.
  pub echo_partial :
      (line : Bytes) → LacksCr line → buffer s ≡ line → decode crc s m ≡ refuse s m incomplete
  unfolding decode
  echo_partial line clean e =
      let gone : position crlf (buffer s) ≡ none = rw e (position-crlf-none line clean) in
      rw (gone, decode)
