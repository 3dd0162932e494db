-- ===== src/Replay/Requests.antt =====
-- src/replay.rs: the bytes that the `match` of `send_request` writes, against the protocol.
use rpc_perf.Base.{ℕ, ◌+◌, ◌^◌, ◌≤◌, sym, ap, ◌++◌, append-nil, [], length}
use rpc_perf.Base.Bytes.{Bytes, codes}
use rpc_perf.Base.Decimal.{to_decimal}
use rpc_perf.Metrics.{Metrics}
use rpc_perf.Net.{Net}
use rpc_perf.Rand.{Rand, sample_bytes, length-sample_bytes}
use rpc_perf.Session.{Session}
use rpc_perf.Session.Ready.{IsReady}
use rpc_perf.Buffer.{borrow}
use rpc_perf.Writer.{
  pure, ◌>>=◌, Emitted, emitted, Emits, Emits-put_then, Emits-put-pure, Emits-bind, Emits-of_eq,
  Emits-pure,
}
use rpc_perf.Replay.{Request, gets, set, add, replace, delete, store, write_request}

-- A storage command of the memcache text protocol: its line, with the flags 0, and its data block.
unfoldable pub storage : Bytes → Bytes → ℕ → Bytes → Bytes
storage name key ttl value =
    (name
      ++ (key
          ++ (codes " 0 "
              ++ (to_decimal ttl ++ (codes " " ++ (to_decimal (length value) ++ codes "\r\n"))))))
    ++ (value ++ codes "\r\n")

-- What a request is in that protocol, when `draw` is how a value is drawn.
unfoldable pub text : (ℕ → Bytes) → Request → Bytes
unfolding storage
text draw (Request.get key) = codes "get " ++ (key ++ codes "\r\n")
text draw (gets key) = codes "gets " ++ (key ++ codes "\r\n")
text draw (set key vlen ttl) = storage (codes "set ") key ttl (draw vlen)
text draw (add key vlen ttl) = storage (codes "add ") key ttl (draw vlen)
text draw (replace key vlen ttl) = storage (codes "replace ") key ttl (draw vlen)
text draw (delete key) = codes "delete " ++ (key ++ codes "\r\n")

-- The requests that read are counted.
pub counts : Request → Metrics → Metrics
counts (Request.get key) m = record m { request_get = m.request_get + 1 }
counts (gets key) m = record m { request_get = m.request_get + 1 }
counts _ m = m

module _ (rand : Rand) where
  -- The generator after the request.
  pub spent : Request → rand.Rng → rand.Rng
  spent (set key vlen ttl) rng = (sample_bytes rand vlen rng).1
  spent (add key vlen ttl) rng = (sample_bytes rand vlen rng).1
  spent (replace key vlen ttl) rng = (sample_bytes rand vlen rng).1
  spent _ rng = rng

  module _ (net : Net) (rng : rand.Rng) where
    store-Emits :
        (name key : Bytes) (vlen ttl : ℕ)
        → Emits
            (store rand net name key vlen ttl rng)
            (sample_bytes rand vlen rng).1
            (storage name key ttl (sample_bytes rand vlen rng).0)
    unfolding store storage
    store-Emits name key vlen ttl =
        let (value, rng') = sample_bytes rand vlen rng in
        let head = λ (n : ℕ).
          name
          ++ (key
              ++ (codes " 0 "
                  ++ (to_decimal ttl ++ (codes " " ++ (to_decimal n ++ codes "\r\n"))))) in
        Emits-of_eq _ _
          (ap (λ n. head n ++ (value ++ codes "\r\n")) (sym (length-sample_bytes rand vlen rng)))
          (Emits-put_then _ _ _ _ (Emits-put_then _ _ _ _ (Emits-put-pure net (codes "\r\n") rng')))

    kept :
        (name key : Bytes) (vlen ttl : ℕ) (m : Metrics)
        → Emits {A = rand.Rng × Metrics}
            (do rng' ← store rand net name key vlen ttl rng; pure (rng', m))
            ((sample_bytes rand vlen rng).1, m)
            (storage name key ttl (sample_bytes rand vlen rng).0)
    kept name key vlen ttl m =
        Emits-of_eq _ _ (append-nil _)
          (Emits-bind _ _ _ _ _ [] (store-Emits name key vlen ttl) (Emits-pure net _))

    write_request-Emits :
        (request : Request) (m : Metrics)
        → Emits
            (write_request rand net request rng m)
            (spent request rng, counts request m)
            (text (λ n. (sample_bytes rand n rng).0) request)
    unfolding write_request text spent counts
    write_request-Emits (Request.get key) m = Emits-put-pure net _ _
    write_request-Emits (gets key) m = Emits-put-pure net _ _
    write_request-Emits (set key vlen ttl) m = kept (codes "set ") key vlen ttl m
    write_request-Emits (add key vlen ttl) m = kept (codes "add ") key vlen ttl m
    write_request-Emits (replace key vlen ttl) m = kept (codes "replace ") key vlen ttl m
    write_request-Emits (delete key) m = Emits-put-pure net _ _

  -- On a ready session with room for it, the match of send_request appends exactly the request as
  -- the memcache protocol has it, for a storage command its line with flags 0, the time to live
  -- and the length of the drawn value, and then the value; get and gets are counted.
  pub replay_request :
      (net : Net) (rng : rand.Rng) (request : Request) (m : Metrics) (s : Session net)
      → IsReady s
      → length (borrow s.write_buffer) + length (text (λ n. (sample_bytes rand n rng).0) request)
        ≤ 2 ^ 62
      → Emitted
          (write_request rand net request rng m)
          (spent request rng, counts request m)
          (text (λ n. (sample_bytes rand n rng).0) request)
          s
  replay_request net rng request m s r h =
      emitted _ _ _ s (write_request-Emits net rng request m) r h
