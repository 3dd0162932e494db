-- ===== src/Reply.antt =====
-- `ParseError` and the result of `Codec::decode` of src/codec/mod.rs.
use rpc_perf.Base.{ℕ, ◌≡◌, sym, ap, ◌∙◌, ◌++◌, arith, length, drop, length-append, drop-append_eq}
use rpc_perf.Base.Bytes.{Bytes}
use rpc_perf.Buffer.Grow.{length-borrow}
use rpc_perf.Base.Outcome.{Outcome, ret, ◌>>=◌}
use rpc_perf.Metrics.{Metrics}
use rpc_perf.Net.{Net}
use rpc_perf.Session.{Session, consume, buffer}
use rpc_perf.Session.Ready.{IsReady}
use rpc_perf.Session.Flush.{consume-Ate, buffer_lem}

pub data ParseError : Type 0 where
  incomplete error unknown : ParseError

pub data Reply : Type 0 where
  accepted : Reply
  refused : ParseError → Reply

-- What a call of `decode` comes to.
abbrev pub Decoded : Net → Type 0
Decoded net = Outcome (Reply × Session net × Metrics)

-- `buffer.consume(n); Ok(())`.
unfoldable pub accept : {net : Net} → Session net → Metrics → ℕ → Decoded net
accept s m n = do s' ← consume s n; ret (accepted, s', m)

-- `Err(e)`, with nothing consumed.
abbrev pub refuse : {net : Net} → Session net → Metrics → ParseError → Decoded net
refuse s m e = ret (refused e, s, m)

-- The response in front of `rest` was accepted: it is consumed, `rest` is kept for the next call,
-- and nothing is written.
pub record Takes {net : Net} (s : Session net) (m : Metrics) (rest : Bytes) (d : Decoded net)
    : Type 0 where
  pub after : Session net
  pub returns : d ≡ ret (accepted, after, m)
  pub ready : IsReady after
  pub left : buffer after ≡ rest
  pub writes : after.write_buffer ≡ s.write_buffer
  pub outstanding : after.outstanding ≡ s.outstanding

pub accept-Takes :
    {net : Net} (s : Session net) (m : Metrics) (message rest : Bytes) (n : ℕ)
    → IsReady s
    → buffer s ≡ message ++ rest
    → n ≡ length message
    → Takes s m rest (accept s m n)
unfolding accept
accept-Takes s m message rest n r e h =
    let (s', called, a) = consume-Ate s n r (
      omega (
        arith,
        ap length e,
        length-append message rest,
        ap length (buffer_lem s),
        length-borrow r.reads,
        r.reads.written,
        r.reads.room,
      )) in
    record {
      after = s';
      returns = rw (called, accept);
      ready = a.ready;
      left =
          buffer_lem s'
          ∙ a.content
          ∙ ap (drop n) (sym (buffer_lem s) ∙ e)
          ∙ drop-append_eq n message rest h;
      writes = a.same;
      outstanding = a.outstanding;
    }

pub Takes-of_eq :
    {net : Net} (s : Session net) (m : Metrics) (rest : Bytes) (d d' : Decoded net)
    → d ≡ d'
    → Takes s m rest d'
    → Takes s m rest d
Takes-of_eq s m rest d d' e t = record {
  after = t.after;
  returns = e ∙ t.returns;
  ready = t.ready;
  left = t.left;
  writes = t.writes;
  outstanding = t.outstanding;
}
