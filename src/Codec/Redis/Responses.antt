-- ===== src/Codec/Redis/Responses.antt =====
-- src/codec/redis.rs, `decode`: responses that it takes from the buffer, whole or not yet whole.
use rpc_perf.Base.{
  Bool-cases, inl, inr, suc, ◌+◌, ◌≡◌, ◌≢◌, sym, ap, ◌∙◌, ◌⊎◌, true, false, ◌||◌, ◌∷◌, ◌++◌,
  append_assoc, arith, length, length-append, if◌then◌else◌,
}
use rpc_perf.Base.Bytes.{
  either_cases, Bytes, codes, crlf, bytes_eq, bytes_eq→≡, bytes_eq_self, LacksCr,
}
use rpc_perf.Base.Decimal.{parses_i64}
use rpc_perf.Metrics.{Metrics}
use rpc_perf.Net.{Net}
use rpc_perf.Session.{Session, buffer}
use rpc_perf.Session.Ready.{IsReady}
use rpc_perf.Reply.{Decoded, accept, refuse, unknown, Takes, accept-Takes, Takes-of_eq}
use rpc_perf.Codec.Redis.{decode, kind, simple_line, numeric_line}
use rpc_perf.Codec.Redis.Line.{lined-whole, decode-kind}

module _ {net : Net} (s : Session net) (m : Metrics) where
  compared_string :
      (msg rest : Bytes)
      → LacksCr msg
      → IsReady s
      → buffer s ≡ b'+' ∷ (msg ++ (crlf ++ rest))
      → ((msg ≡ codes "OK") ⊎ (msg ≡ codes "PONG") → Takes s m rest (decode s m))
        × (msg ≢ codes "OK" → msg ≢ codes "PONG" → decode s m ≡ refuse s m unknown)
  unfolding kind simple_line
  compared_string msg rest clean r e = (
    λ h. Takes-of_eq s m rest _ _ (at_line ∙ accepts h) (
        accept-Takes s m (b'+' ∷ (msg ++ crlf)) rest (suc (length msg) + 2) r
          (e ∙ ap (λ t. b'+' ∷ t) (sym (append_assoc msg crlf rest)))
          (omega (arith, length-append msg crlf))),
    λ a b. at_line ∙ refuses a b,
  )
    where
      tested : Decoded net
      tested =
          if bytes_eq msg (codes "OK") || bytes_eq msg (codes "PONG")
          then accept s m (suc (length msg) + 2)
          else refuse s m unknown

      at_line : decode s m ≡ tested
      at_line =
          decode-kind s m b'+' _ e
          ∙ lined-whole s m (simple_line s m) b'+' msg rest (omega arith) clean e

      accepts :
          (msg ≡ codes "OK") ⊎ (msg ≡ codes "PONG") → tested ≡ accept s m (suc (length msg) + 2)
      accepts h = ground (arith, h, bytes_eq_self (codes "OK"), bytes_eq_self (codes "PONG"))

      refuses : msg ≢ codes "OK" → msg ≢ codes "PONG" → tested ≡ refuse s m unknown
      refuses a b = ground (arith, bytes_eq→≡ msg (codes "OK"), bytes_eq→≡ msg (codes "PONG"))

  parsed_number :
      (msg rest : Bytes)
      → LacksCr msg
      → IsReady s
      → buffer s ≡ b':' ∷ (msg ++ (crlf ++ rest))
      → (parses_i64 msg ≡ true → Takes s m rest (decode s m))
        × (parses_i64 msg ≡ false → decode s m ≡ refuse s m unknown)
  unfolding kind numeric_line
  parsed_number msg rest clean r e = (
    λ h. Takes-of_eq s m rest _ _ (at_line ∙ rw h) (
        accept-Takes s m (b':' ∷ (msg ++ crlf)) rest (suc (length msg) + 2) r
          (e ∙ ap (λ t. b':' ∷ t) (sym (append_assoc msg crlf rest)))
          (omega (arith, length-append msg crlf))),
    λ h. at_line ∙ rw h,
  )
    where
      at_line :
          decode s m
          ≡ (if parses_i64 msg then accept s m (suc (length msg) + 2) else refuse s m unknown)
      at_line =
          decode-kind s m b':' _ e
          ∙ lined-whole s m (numeric_line s m) b':' msg rest (omega arith) clean e

  -- On a ready session whose buffer begins with "+", a text without a carriage return and a line
  -- end: either the text is "OK" or "PONG", and decode consumes exactly the line, or it is
  -- neither, and the response is unknown and nothing changes.
  pub simple_string :
      (msg rest : Bytes)
      → LacksCr msg
      → IsReady s
      → buffer s ≡ b'+' ∷ (msg ++ (crlf ++ rest))
      → (((msg ≡ codes "OK") ⊎ (msg ≡ codes "PONG")) × Takes s m rest (decode s m))
        ⊎ ((msg ≢ codes "OK") × (msg ≢ codes "PONG") × (decode s m ≡ refuse s m unknown))
  simple_string msg rest clean r e = elim (either_cases msg (codes "OK") (codes "PONG")) [
    | inl known ↦ inl (known, (compared_string msg rest clean r e).0 known)
    | inr (a, b) ↦ inr (a, b, (compared_string msg rest clean r e).1 a b)
  ]

  -- On a ready session whose buffer begins with ":", a text without a carriage return and a line
  -- end: either the text is an i64, and decode consumes exactly the line, or it is none, and the
  -- response is unknown and nothing changes.
  pub numeric :
      (msg rest : Bytes)
      → LacksCr msg
      → IsReady s
      → buffer s ≡ b':' ∷ (msg ++ (crlf ++ rest))
      → ((parses_i64 msg ≡ true) × Takes s m rest (decode s m))
        ⊎ ((parses_i64 msg ≡ false) × (decode s m ≡ refuse s m unknown))
  numeric msg rest clean r e = elim (Bool-cases (parses_i64 msg)) [
    | inl hit ↦ inl (hit, (parsed_number msg rest clean r e).0 hit)
    | inr miss ↦ inr (miss, (parsed_number msg rest clean r e).1 miss)
  ]
