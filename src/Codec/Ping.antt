-- ===== src/Codec/Ping.antt =====
-- src/codec/ping.rs.
pub mod Worker
use rpc_perf.Base.{
  ℕ, ◌+◌, ◌≡◌, ◌≢◌, ◌⊎◌, inl, inr, append_assoc, length-append, take-append_eq, refl, sym, ◌∙◌,
  ◌||◌, none, some, [], ◌∷◌, ◌++◌, arith, if◌then◌else◌, length, take,
}
use rpc_perf.Base.Bytes.{
  either_cases, Bytes, codes, crlf, bytes_eq, position, LacksCr, position-crlf, position-crlf-none,
  position-crlf_cut, bytes_eq→≡, bytes_eq_self,
}
use rpc_perf.Metrics.{Metrics}
use rpc_perf.Net.{Net}
use rpc_perf.Session.{Session, buffer}
use rpc_perf.Writer.{W, put, Emits, Emits-put}
use rpc_perf.Reply.{incomplete, unknown, Decoded, accept, refuse, Takes, accept-Takes, Takes-of_eq}
use rpc_perf.Session.Ready.{IsReady}

pub encode : (net : Net) → W net (Unit {0})
encode net = put (codes "PING\r\n")

-- The line before the CRLF at `line_end`.
pub decode_line : {net : Net} → Session net → Metrics → ℕ → Decoded net
decode_line s m line_end =
    let line = take line_end (buffer s) in
    if bytes_eq line (codes "pong") || bytes_eq line (codes "PONG")
    then accept s m (line_end + 2)
    else refuse s m unknown

pub decode : {net : Net} → Session net → Metrics → Decoded net
unfolding decode_line
decode s m = elim (position crlf (buffer s)) [
  | some line_end ↦ decode_line s m line_end
  | none ↦ refuse s m incomplete
]

pub encode-Emits : (net : Net) → Emits (encode net) tt (codes "PING\r\n")
unfolding encode
encode-Emits net = Emits-put net (codes "PING\r\n")

module _ {net : Net} (s : Session net) (m : Metrics) (line : Bytes) (clean : LacksCr line) where
  compared_line :
      (rest : Bytes)
      → IsReady s
      → buffer s ≡ line ++ (crlf ++ rest)
      → ((line ≡ codes "pong") ⊎ (line ≡ codes "PONG") → Takes s m rest (decode s m))
        × (line ≢ codes "pong" → line ≢ codes "PONG" → decode s m ≡ refuse s m unknown)
  unfolding decode
  compared_line rest r e = (
    λ pong. Takes-of_eq s m rest _ _ (at_line ∙ accepts pong) (
        accept-Takes s m (line ++ crlf) rest (length line + 2) r
          (e ∙ sym (append_assoc line crlf rest)) (omega (arith, length-append line crlf))),
    λ a b. at_line ∙ refuses a b,
  )
    where
      found : position crlf (buffer s) ≡ some (length line)
      found = rw e (position-crlf line rest clean)

      taken : take (length line) (buffer s) ≡ line
      taken = rw e (take-append_eq (length line) line (crlf ++ rest) refl)

      at_line : decode s m ≡ (
          if bytes_eq line (codes "pong") || bytes_eq line (codes "PONG")
          then accept s m (length line + 2)
          else refuse s m unknown)
      at_line = rw (found, taken, decode, decode_line)

      accepts :
          (line ≡ codes "pong") ⊎ (line ≡ codes "PONG")
          → (if bytes_eq line (codes "pong") || bytes_eq line (codes "PONG")
              then accept s m (length line + 2)
              else refuse s m unknown)
            ≡ accept s m (length line + 2)
      accepts pong =
          ground (arith, pong, bytes_eq_self (codes "pong"), bytes_eq_self (codes "PONG"))

      refuses :
          line ≢ codes "pong"
          → line ≢ codes "PONG"
          → (if bytes_eq line (codes "pong") || bytes_eq line (codes "PONG")
              then accept s m (length line + 2)
              else refuse s m unknown)
            ≡ refuse s m unknown
      refuses a b = ground (arith, bytes_eq→≡ line (codes "pong"), bytes_eq→≡ line (codes "PONG"))

  -- On a ready session whose buffer begins with a line without a carriage return and its line
  -- end: either the line is "pong" or "PONG", and decode consumes exactly it and its line end, or
  -- it is neither, and the response is unknown and nothing changes.
  pub decode_complete :
      (rest : Bytes)
      → IsReady s
      → buffer s ≡ line ++ (crlf ++ rest)
      → (((line ≡ codes "pong") ⊎ (line ≡ codes "PONG")) × Takes s m rest (decode s m))
        ⊎ ((line ≢ codes "pong") × (line ≢ codes "PONG") × (decode s m ≡ refuse s m unknown))
  decode_complete rest r e = elim (either_cases line (codes "pong") (codes "PONG")) [
    | inl pong ↦ inl (pong, (compared_line rest r e).0 pong)
    | inr (a, b) ↦ inr (a, b, (compared_line rest r e).1 a b)
  ]

  -- When the buffer is a line without a carriage return, or such a line and the first half of a
  -- line end, decode returns "incomplete" and nothing changes.
  pub decode_partial :
      (buffer s ≡ line) ⊎ (buffer s ≡ line ++ (13 ∷ [])) → decode s m ≡ refuse s m incomplete
  unfolding decode
  decode_partial (inl e) =
      let gone : position crlf (buffer s) ≡ none = rw e (position-crlf-none line clean) in
      rw (gone, decode)
  decode_partial (inr e) =
      let gone : position crlf (buffer s) ≡ none = rw e (position-crlf_cut line clean) in
      rw (gone, decode)
