-- ===== src/Session/Flush.antt =====
-- src/session/mod.rs: what the calls on the buffers of a session do: `consume`, `write_all`, `flush`.
use rpc_perf.Base.{
  ℕ, zero, suc, ◌+◌, ◌^◌, ◌≤◌, ◌<◌, ◌≡◌, refl, sym, ap, ◌∙◌, ◌⊎◌, inl, inr, [], ◌∷◌, ◌++◌,
  append-nil, arith, length, drop,
}
use rpc_perf.Base.Bytes.{Bytes}
use rpc_perf.Base.Outcome.{ret, Io, ok, err, ErrorKind}
use rpc_perf.Metrics.{Metrics}
use rpc_perf.Net.{Net, Fits}
use rpc_perf.Buffer.{Buffer, borrow, reserve}
use rpc_perf.Buffer.Grow.{IsValid, length-borrow, extend_from_slice_lem, reserve-Reserved}
use rpc_perf.Buffer.Shrink.{consume_lem}
use rpc_perf.Buffer.Gear.{consume-IsPower}
use rpc_perf.Stream.{Stream}
use rpc_perf.Stream
use rpc_perf.Stream.States.{write-fits}
use rpc_perf.Session.{Session, buffer, consume, write, write_all, flush, on_write}
use rpc_perf.Session.Ready.{IsReady}
use rpc_perf.Session.Fill.{with_stream-IsReady}

module _ {net : Net} where
  with_writes-IsReady :
      {s : Session net} (b : Buffer)
      → IsReady s
      → IsValid b
      → IsReady (record s { write_buffer = b })
  with_writes-IsReady b r v = record {
    reads = r.reads;
    writes = v;
    size = r.size;
    min_power = r.min_power;
    max_power = r.max_power;
    max_small = r.max_small;
    at_least = r.at_least;
    at_most = r.at_most;
  }

  -- The session after `consume`: its read buffer has lost the first `amt` bytes.
  pub record Ate (s : Session net) (amt : ℕ) (s' : Session net) : Type 0 where
    pub ready : IsReady s'
    pub content : borrow s'.read_buffer ≡ drop amt (borrow s.read_buffer)
    pub same : s'.write_buffer ≡ s.write_buffer
    pub outstanding : s'.outstanding ≡ s.outstanding

  -- `consume` does not panic on a ready session, keeps it ready, and drops the bytes.
  pub consume-Ate :
      (s : Session net) (amt : ℕ)
      → IsReady s
      → amt < 2 ^ 64
      → (s' : Session net) × (consume s amt ≡ ret s') × Ate s amt s'
  unfolding consume
  consume-Ate s amt r h =
      let (b, e, c) = consume_lem s.read_buffer amt r.reads h in
      (
        record s { read_buffer = b },
        rw (e, consume),
        record {
          ready = record {
            reads = c.valid;
            writes = r.writes;
            size =
                consume-IsPower s.read_buffer amt b r.reads h r.size (rw r.at_least r.min_power) e;
            min_power = r.min_power;
            max_power = r.max_power;
            max_small = r.max_small;
            at_least = c.target ∙ r.at_least;
            at_most = omega (arith, c.size, r.at_most);
          };
          content = c.content;
          same = refl;
          outstanding = refl;
        },
      )

  -- The session after `write_all`: the bytes are at the end of its write buffer.
  pub record Wrote (s : Session net) (xs : Bytes) (s' : Session net) : Type 0 where
    pub ready : IsReady s'
    pub content : borrow s'.write_buffer ≡ borrow s.write_buffer ++ xs
    pub same : s'.read_buffer ≡ s.read_buffer
    pub outstanding : s'.outstanding ≡ s.outstanding

  -- On a ready session, while at most 2^62 bytes are pending with it, write does not panic and
  -- takes the whole slice: it is appended to the write buffer, the read buffer and the
  -- outstanding count are left alone, and the session stays ready.
  pub write-Wrote :
      (s : Session net) (xs : Bytes)
      → IsReady s
      → length (borrow s.write_buffer) + length xs ≤ 2 ^ 62
      → (s' : Session net) × (write s xs ≡ ret (length xs, s')) × Wrote s xs s'
  unfolding write
  write-Wrote s xs r h =
      let q =
        reserve-Reserved s.write_buffer (length xs) r.writes
          (omega (arith, h, length-borrow r.writes)) in
      let (b, e, a) =
        extend_from_slice_lem (reserve s.write_buffer (length xs)) xs q.valid
          (omega (arith, h, ap length q.kept)) in
      (
        record s { write_buffer = b },
        rw (e, write),
        record {
          ready = with_writes-IsReady b r a.valid;
          content = a.content ∙ ap (λ t. t ++ xs) q.kept;
          same = refl;
          outstanding = refl;
        },
      )

  pub write_all-Wrote :
      (s : Session net) (xs : Bytes)
      → IsReady s
      → length (borrow s.write_buffer) + length xs ≤ 2 ^ 62
      → (s' : Session net) × (write_all s xs ≡ ret s') × Wrote s xs s'
  unfolding write_all
  write_all-Wrote s [] r h =
      (s, refl, record { ready = r; content = sym (append-nil _); same = refl; outstanding = refl })
  write_all-Wrote s (x ∷ xs) r h =
      let (s', e, w) = write-Wrote s (x ∷ xs) r h in (s', rw (e, write_all), w)

  -- The session and the counters after `flush`, when the stream has answered `answer`: the bytes
  -- that it took are gone from the front of the write buffer, and are counted.
  pub record Flushed (s : Session net) (m : Metrics) (answer : Io ℕ)
      (out : Io (Unit {0}) × Session net × Metrics) : Type 0 where
    pub sent : ℕ
    pub ready : IsReady out.1
    pub content : borrow out.1.write_buffer ≡ drop sent (borrow s.write_buffer)
    pub same : out.1.read_buffer ≡ s.read_buffer
    pub counted : out.2.session_send_byte ≡ m.session_send_byte + sent
    pub answered :
        ((answer ≡ ok sent) × (out.0 ≡ ok tt))
        ⊎ ((e : ErrorKind) × (answer ≡ err e) × (out.0 ≡ err e) × (sent ≡ 0))

  on_write-Flushed :
      (s s' : Session net) (m m' : Metrics) (answer : Io ℕ)
      → IsReady s'
      → s'.write_buffer ≡ s.write_buffer
      → s'.read_buffer ≡ s.read_buffer
      → m'.session_send_byte ≡ m.session_send_byte
      → ((n : ℕ) → answer ≡ ok n → n ≤ length (borrow s'.write_buffer))
      → (out : Io (Unit {0}) × Session net × Metrics) × (on_write s' m' answer ≡ ret out)
        × Flushed s m answer out
  unfolding on_write
  on_write-Flushed s s' m m' (ok zero) r kept same count fits = (
    _,
    refl,
    record {
      sent = 0;
      ready = r;
      content = ap borrow kept;
      same = same;
      counted = omega arith;
      answered = inl (refl, refl);
    },
  )
  on_write-Flushed s s' m m' (ok (suc n)) r kept same count fits =
      let (b, e, c) = consume_lem s'.write_buffer (suc n) r.writes (
        omega
          (arith, fits (suc n) refl, length-borrow r.writes, r.writes.written, r.writes.room)) in
      (
        (
          ok tt,
          record s' { write_buffer = b },
          record m' { session_send_byte = m'.session_send_byte + suc n },
        ),
        rw (e, on_write),
        record {
          sent = suc n;
          ready = with_writes-IsReady b r c.valid;
          content = c.content ∙ ap (λ (w : Buffer). drop (suc n) (borrow w)) kept;
          same = same;
          counted = omega arith;
          answered = inl (refl, refl);
        },
      )
  on_write-Flushed s s' m m' (err k) r kept same count fits = (
    _,
    refl,
    record {
      sent = 0;
      ready = r;
      content = ap borrow kept;
      same = same;
      counted = omega arith;
      answered = inr (k, refl, refl, refl);
    },
  )

  -- When no call of the stream takes more bytes than it is given, flush on a ready session does
  -- not panic. It offers the pending bytes to the stream once: the bytes that the stream takes,
  -- and no others, leave the write buffer from its front and are counted as sent; an error of the
  -- stream is returned and nothing leaves the buffer. The session stays ready and the read buffer
  -- is left alone.
  pub flush-Flushed :
      Fits net
      → (s : Session net) (m : Metrics) → IsReady s
      → (out : Io (Unit {0}) × Session net × Metrics) × (flush s m ≡ ret out)
        × Flushed s m (Stream.write s.stream (borrow s.write_buffer)).0 out
  unfolding flush
  flush-Flushed fit s m r =
      on_write-Flushed s _ m _ (Stream.write s.stream (borrow s.write_buffer)).0
        (with_stream-IsReady (Stream.write s.stream (borrow s.write_buffer)).1 r) refl refl refl
        (λ n e. write-fits fit s.stream (borrow s.write_buffer) n e)

  pub buffer_lem : (s : Session net) → buffer s ≡ borrow s.read_buffer
  unfolding buffer
  buffer_lem s = refl
