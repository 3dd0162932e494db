-- ===== src/Codec/Ping/Worker.antt =====
-- src/codec/ping.rs as the codec of a worker.
use rpc_perf.Base.{
  ℕ, ◌+◌, ◌^◌, ◌≤◌, ◌≡◌, refl, ◌∙◌, ap, sym, subst, inl, inr, arith, Bool-cases, Option-cases, some,
  leb, leb→le, if◌then◌else◌, if_both, length, drop, length-take, length-drop,
}
use rpc_perf.Base.Bytes.{codes, crlf, position, position-found}
use rpc_perf.Base.Outcome.{Outcome, ret, panic}
use rpc_perf.Metrics.{Metrics}
use rpc_perf.Net.{Net}
use rpc_perf.Buffer.{borrow}
use rpc_perf.Buffer.Grow.{length-borrow}
use rpc_perf.Session.{Session, buffer}
use rpc_perf.Session.Ready.{IsReady}
use rpc_perf.Session.Flush.{consume-Ate, buffer_lem, write_all-Wrote}
use rpc_perf.Session.Identity.{consume-identity, write_all-identity}
use rpc_perf.Writer.{put}
use rpc_perf.Reply.{accepted, refused, ParseError, incomplete, unknown, accept, refuse}
use rpc_perf.Coder.{Coder, Decodes, Encoded, Obeys}
use rpc_perf.Codec.Ping.{decode, decode_line, encode}

-- No more than 2^61 bytes can be pending: there is no memory for them, and the program ends.
pub encode_within :
    (net : Net) → Unit {0} → Session net → Metrics → Outcome ((Unit {0} × Metrics) × Session net)
encode_within net st s m =
    if leb (length (borrow s.write_buffer)) (2 ^ 61)
    then elim (encode net s) [ ret (u, s') ↦ ret ((st, m), s') | panic ↦ panic ]
    else panic

abbrev pub coder : (net : Net) → Coder net
coder net = record { State = Unit {0}; encode = encode_within net; decode = decode }

module _ {net : Net} (s : Session net) (m : Metrics) where
  refuse-Decodes : (e : ParseError) → IsReady s → Decodes s m (refuse s m e)
  refuse-Decodes e r = record {
    reply = refused e;
    after = s;
    counters = m;
    returns = refl;
    ready = r;
    outstanding = refl;
    token = refl;
    response = refl;
  }

  accept-Decodes : (n : ℕ) → IsReady s → n ≤ length (buffer s) → Decodes s m (accept s m n)
  unfolding accept
  accept-Decodes n r h =
      let (s', e, a) = consume-Ate s n r (
        omega (
          arith,
          h,
          ap length (buffer_lem s),
          length-borrow r.reads,
          r.reads.written,
          r.reads.room,
        )) in
      record {
        reply = accepted;
        after = s';
        counters = m;
        returns = rw (e, accept) refl;
        ready = a.ready;
        outstanding = a.outstanding;
        token = ap (λ x. x.0) (consume-identity s s' m n e);
        response = refl;
      }

  found_in : (i : ℕ) → position crlf (buffer s) ≡ some i → i + 2 ≤ length (buffer s)
  found_in i e = omega (
    arith,
    ap length (position-found crlf (buffer s) i e),
    length-take 2 (drop i (buffer s)),
    length-drop i (buffer s),
  )

  decode-Decodes : IsReady s → Decodes s m (decode s m)
  unfolding decode decode_line
  decode-Decodes r = elim (Option-cases (position crlf (buffer s))) [
    | inl e ↦ rw (e, decode) (refuse-Decodes incomplete r)
    | inr (i, e) ↦
        rw (e, decode)
          (if_both (Decodes s m) _ _ _ (accept-Decodes (i + 2) r (found_in i e))
            (refuse-Decodes unknown r))
  ]

ret_injective : {A : Type 0} {a b : A} → ◌≡◌ {A = Outcome A} (ret a) (ret b) → a ≡ b
ret_injective e = cc

encode-Encoded :
    {net : Net} (st st' : Unit {0}) (s s' : Session net) (m m' : Metrics)
    → IsReady s
    → encode_within net st s m ≡ ret ((st', m'), s')
    → Encoded s m s' m'
unfolding encode_within encode put
encode-Encoded {net} st st' s s' m m' r e =
    elim (Bool-cases (leb (length (borrow s.write_buffer)) (2 ^ 61))) [
      | inr f ↦ absurd (panicked (sym (rw (f, encode_within) refl) ∙ e))
      | inl f ↦
          let (s₂, ran, w) =
            write_all-Wrote s (codes "PING\r\n") r (omega (arith, leb→le _ (2 ^ 61) f)) in
          let done : encode_within net st s m ≡ ret ((st, m), s₂) =
            rw (f, ran, encode_within, encode, put) refl in
          let same = ret_injective (sym done ∙ e) in
          subst (λ (o : (Unit {0} × Metrics) × Session net). Encoded s m o.1 o.0.1) same
            (record {
              ready = w.ready;
              token = ap (λ x. x.0) (write_all-identity s s₂ m (codes "PING\r\n") ran);
              request = refl;
            })
    ]
  where
    panicked :
        ◌≡◌ {A = Outcome ((Unit {0} × Metrics) × Session net)} panic (ret ((st', m'), s')) → ⊥
    panicked e = cc

-- The contract of a codec holds of this one.
pub coder-Obeys : (net : Net) → Obeys (coder net)
coder-Obeys net = record { decodes = decode-Decodes; encodes = encode-Encoded }
