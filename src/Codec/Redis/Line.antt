-- ===== src/Codec/Redis/Line.antt =====
-- src/codec/redis.rs, `decode`: how it finds the first line of a response.
use rpc_perf.Base.{
  ℕ, zero, suc, ◌-◌, ◌≡◌, ◌≢◌, ap, subst, inl, inr, true, false, some, none, Bool-cases, [], ◌∷◌,
  ◌++◌, arith, leb, le→leb, length, take, drop, length-append, take-append_eq,
}
use rpc_perf.Base.Bytes.{Bytes, codes, crlf, bytes_eq, bytes_eq→≡, position, position-crlf, LacksCr}
use rpc_perf.Base.Decimal.{to_decimal, Digits, to_decimal-Digits}
use rpc_perf.Metrics.{Metrics}
use rpc_perf.Net.{Net}
use rpc_perf.Session.{Session, buffer}
use rpc_perf.Reply.{Decoded, refuse, incomplete}
use rpc_perf.Codec.Redis.{decode, kind, lined}

-- The first line of a response: its kind, and the text up to the line end.
module _ {net : Net} (s : Session net) (m : Metrics) (on_line : ℕ → Bytes → Decoded net) where
  pub lined-whole :
      (first : ℕ) (msg rest : Bytes)
      → first ≢ 13
      → LacksCr msg
      → buffer s ≡ first ∷ (msg ++ (crlf ++ rest))
      → lined on_line s m ≡ on_line (suc (length msg)) msg
  unfolding lined
  lined-whole first msg rest f clean e = rw (found, positive, bounds, text, lined)
    where
      found : position crlf (buffer s) ≡ some (suc (length msg))
      found = rw e (position-crlf (first ∷ msg) rest (f, clean))

      positive : leb 1 (suc (length msg)) ≡ true
      positive = le→leb _ _ (omega arith)

      bounds : leb (suc (length msg)) (length (buffer s)) ≡ true
      bounds = le→leb _ _ (omega (arith, ap length e, length-append msg (crlf ++ rest)))

      text : take (suc (length msg) - 1) (drop 1 (buffer s)) ≡ msg
      text = rw e (take-append_eq (suc (length msg) - 1) msg (crlf ++ rest) (omega arith))

  pub lined-none : position crlf (buffer s) ≡ none → lined on_line s m ≡ refuse s m incomplete
  unfolding lined
  lined-none e = rw (e, lined)

pub Digits-LacksCr : (s : Bytes) → Digits s → LacksCr s
Digits-LacksCr [] d = tt
Digits-LacksCr (c ∷ s) d = (omega arith, Digits-LacksCr s d.2)

pub take-LacksCr : (k : ℕ) (s : Bytes) → LacksCr s → LacksCr (take k s)
take-LacksCr zero s l = tt
take-LacksCr (suc k) [] l = tt
take-LacksCr (suc k) (c ∷ s) l = (l.0, take-LacksCr k s l.1)

-- The header of a bulk string is no "-1".
pub digits_not_minus : (n : ℕ) → bytes_eq (to_decimal n) (codes "-1") ≡ false
digits_not_minus n = elim (Bool-cases (bytes_eq (to_decimal n) (codes "-1"))) [
  | inl e ↦ absurd (minus (subst Digits (bytes_eq→≡ _ _ e) (to_decimal-Digits n)))
  | inr e ↦ e
]
  where
    minus : Digits (codes "-1") → ⊥
    minus d = omega arith

module _ {net : Net} (s : Session net) (m : Metrics) where
  pub decode-kind : (first : ℕ) (t : Bytes) → buffer s ≡ first ∷ t → decode s m ≡ kind first s m
  unfolding decode
  decode-kind first t e = rw (e, decode)
