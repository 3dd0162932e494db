-- ===== src/Stream/Handshakes.antt =====
-- src/session/stream.rs: a stream from the start of its handshake to the end of it, over any sequence
-- of calls.
use rpc_perf.Base.{
  ℕ, zero, suc, ◌≡◌, refl, sym, ap, ◌∙◌, ◌⊎◌, inl, inr, append-nil, Option, none, some, List, [],
  ◌∷◌, ◌++◌, length, replicate,
}
use mathlib.Core.List.{map}
use rpc_perf.Base.Bytes.{Bytes}
use rpc_perf.Base.Outcome.{Io, ok, err, ErrorKind, would_block, not_connected, other}
use rpc_perf.Net.{Net, Handshake, established, blocked, failed}
use rpc_perf.Stream.{Stream, tls, handshaking, do_handshake, handshake_inner, read, write}

-- What a session calls on its stream, with the room of a read and the bytes of a write.
pub data Call : Type 0 where
  shake : Call
  reads : ℕ → Call
  writes : Bytes → Call

error_of {ℓ} : {A : Type ℓ} → Io A → Option ErrorKind
error_of (ok a) = none
error_of (err e) = some e

-- The number of attempts at the handshake.
unfoldable pub attempts : List Call → ℕ
attempts [] = 0
attempts (shake ∷ cs) = suc (attempts cs)
attempts (reads n ∷ cs) = attempts cs
attempts (writes xs ∷ cs) = attempts cs

-- What a call on a stream that is gone returns.
unfoldable pub lost : Call → Option ErrorKind
lost shake = some other
lost (reads n) = some not_connected
lost (writes xs) = some not_connected

-- "Would block", for each of the calls.
abbrev pub all_blocked : List Call → List (Option ErrorKind)
all_blocked cs = replicate (length cs) (some would_block)

-- From `m`, that many attempts are all answered with "would block", and lead to `m'`.
pub data Blocks (net : Net) (m' : net.Mid) : net.Mid → ℕ → Type 0 where
  start : {m : net.Mid} → m ≡ m' → Blocks net m' m zero
  again :
      {m m₁ : net.Mid} {k : ℕ}
      → net.handshake m ≡ blocked m₁
      → Blocks net m' m₁ k
      → Blocks net m' m (suc k)

Handshake-cases :
    {Tls Mid : Type 0} (h : Handshake Tls Mid)
    → ((t : Tls) × (h ≡ established t)) ⊎ ((m : Mid) × (h ≡ blocked m)) ⊎ (h ≡ failed)
Handshake-cases (established t) = inl (t, refl)
Handshake-cases (blocked m) = inr (inl (m, refl))
Handshake-cases failed = inr (inr refl)

module _ {net : Net} where
  -- One call: its error, if it has one, and the stream after it.
  unfoldable pub call : Call → Stream net → Option ErrorKind × Stream net
  unfolding error_of
  call shake s = let (r, s') = do_handshake s in (error_of r, s')
  call (reads n) s = let (r, s') = read s n in (error_of r, s')
  call (writes xs) s = let (r, s') = write s xs in (error_of r, s')

  unfoldable pub run : List Call → Stream net → List (Option ErrorKind) × Stream net
  run [] s = ([], s)
  run (c ∷ cs) s = let (r, s') = call c s in let (rs, s'') = run cs s' in (r ∷ rs, s'')

module _ (net : Net) where
  abbrev pub shaking : net.Mid → Stream net
  shaking m = record { inner = some (handshaking m) }

  abbrev pub secured : net.Tls → Stream net
  secured t = record { inner = some (tls t) }

  abbrev pub gone : Stream net
  gone = record { inner = none }

-- What the next attempt is answered with, behind the calls `cs`, and what it leads to.
pub data Ends (net : Net) (m m' : net.Mid) (cs ds : List Call) : Type 0 where
  opens :
      (t : net.Tls)
      → net.handshake m' ≡ established t
      → run (cs ++ (shake ∷ [])) (shaking net m) ≡ (all_blocked cs ++ (none ∷ []), secured net t)
      → run (cs ++ (shake ∷ shake ∷ ds)) (shaking net m)
        ≡ (all_blocked cs ++ (none ∷ some other ∷ map lost ds), gone net)
      → Ends net m m' cs ds
  waits :
      (m'' : net.Mid)
      → net.handshake m' ≡ blocked m''
      → run (cs ++ (shake ∷ [])) (shaking net m)
        ≡ (all_blocked cs ++ (some would_block ∷ []), shaking net m'')
      → Ends net m m' cs ds
  fails :
      net.handshake m' ≡ failed
      → run (cs ++ (shake ∷ ds)) (shaking net m)
        ≡ (all_blocked cs ++ (some other ∷ map lost ds), gone net)
      → Ends net m m' cs ds

module _ (net : Net) where
  run-gone : (ds : List Call) → run ds (gone net) ≡ (map lost ds, gone net)
  unfolding run call lost do_handshake read write
  run-gone [] = refl
  run-gone (shake ∷ ds) = ap (λ p. (some other ∷ p.0, p.1)) (run-gone ds)
  run-gone (reads n ∷ ds) = ap (λ p. (some not_connected ∷ p.0, p.1)) (run-gone ds)
  run-gone (writes xs ∷ ds) = ap (λ p. (some not_connected ∷ p.0, p.1)) (run-gone ds)

  -- The calls `ds` run on the stream to which `cs` have led.
  run-Blocks :
      (m m' : net.Mid) (cs ds : List Call)
      → Blocks net m' m (attempts cs)
      → run (cs ++ ds) (shaking net m)
        ≡ (all_blocked cs ++ (run ds (shaking net m')).0, (run ds (shaking net m')).1)
  unfolding run call attempts do_handshake read write
  run-Blocks m m' [] ds (start e) = rw e refl
  run-Blocks m m' (shake ∷ cs) ds (again {m₁ = m₁} e b) =
      rw (e, handshake_inner) (ap (λ p. (some would_block ∷ p.0, p.1)) (run-Blocks m₁ m' cs ds b))
  run-Blocks m m' (reads n ∷ cs) ds b =
      ap (λ p. (some would_block ∷ p.0, p.1)) (run-Blocks m m' cs ds b)
  run-Blocks m m' (writes xs ∷ cs) ds b =
      ap (λ p. (some would_block ∷ p.0, p.1)) (run-Blocks m m' cs ds b)

  run-after :
      (m m' : net.Mid) (cs ds : List Call) (rs : List (Option ErrorKind)) (s : Stream net)
      → Blocks net m' m (attempts cs)
      → run ds (shaking net m') ≡ (rs, s)
      → run (cs ++ ds) (shaking net m) ≡ (all_blocked cs ++ rs, s)
  run-after m m' cs ds rs s b e = run-Blocks m m' cs ds b ∙ ap (λ p. (all_blocked cs ++ p.0, p.1)) e

  -- From a stream whose handshake has begun, when each attempt at the handshake among the calls is
  -- answered with "would block": each of the calls, reads and writes included, returns "would
  -- block", and the stream is left at what the last answer has handed back. Then the next attempt
  -- decides, by the answer that it gets. Either the handshake is established: the attempt succeeds
  -- and the stream is the negotiated one, which one attempt more drops with an error. Or it would
  -- block again, and the stream is left at what the answer hands back. Or it has failed: the attempt
  -- returns another error and the stream is gone. On a stream that is dropped or gone all later
  -- calls fail, reads and writes with "not connected".
  pub run-Ends :
      (m m' : net.Mid) (cs ds : List Call)
      → Blocks net m' m (attempts cs)
      → (run cs (shaking net m) ≡ (all_blocked cs, shaking net m')) × Ends net m m' cs ds
  unfolding run call do_handshake
  run-Ends m m' cs ds b = (
    ap (λ ds. run ds (shaking net m)) (sym (append-nil cs))
        ∙ run-after m m' cs [] [] (shaking net m') b refl
        ∙ ap (λ rs. (rs, shaking net m')) (append-nil (all_blocked cs)),
    elim (Handshake-cases (net.handshake m')) [
      | inl (t, e) ↦ Ends.opens t e (run-after m m' cs _ _ _ b (rw (e, handshake_inner) refl)) (
          run-after m m' cs _ _ _ b
            (rw (e, handshake_inner) (ap (λ p. (none ∷ some other ∷ p.0, p.1)) (run-gone ds))))
      | inr (inl (m'', e)) ↦
          Ends.waits m'' e (run-after m m' cs _ _ _ b (rw (e, handshake_inner) refl))
      | inr (inr e) ↦ Ends.fails e (
          run-after m m' cs _ _ _ b
            (rw (e, handshake_inner) (ap (λ p. (some other ∷ p.0, p.1)) (run-gone ds))))
    ],
  )
