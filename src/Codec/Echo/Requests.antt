-- ===== src/Codec/Echo/Requests.antt =====
-- src/codec/echo.rs, `encode`: the bytes of a request.
use rpc_perf.Base.{ℕ, ◌+◌, ◌^◌, ◌≤◌, ◌≡◌, ◌++◌, length}
use rpc_perf.Base.Bytes.{Bytes, crlf}
use rpc_perf.Base.BigEndian.{be32}
use rpc_perf.Base.Outcome.{ret}
use rpc_perf.Net.{Net}
use rpc_perf.Rand.{Rand, sample_bytes}
use rpc_perf.Keyspace.{Keyspace, Config, choose_keyspace}
use rpc_perf.Session.{Session}
use rpc_perf.Session.Ready.{IsReady}
use rpc_perf.Buffer.{borrow}
use rpc_perf.Writer.{Emitted, emitted, Emits-put_then, Emits-put-pure, Emits-lift}
use rpc_perf.Codec.Echo.{echo, encode}

-- When a keyspace is drawn, encode on a ready session with room for the request appends a value
-- of the length that the keyspace has, its checksum with the high byte first, and a line end, and
-- nothing else.
pub echo_request :
    (crc : Bytes → ℕ) (net : Net) {rand : Rand} (config : Config rand) (rng₀ rng₁ : rand.Rng)
    (keyspace : Keyspace rand)
    → choose_keyspace config rng₀ ≡ ret (keyspace, rng₁)
    → (s : Session net) → IsReady s
    → let (value, rng₂) = sample_bytes rand keyspace.length rng₁ in
      length (borrow s.write_buffer) + length (value ++ (be32 (crc value) ++ crlf)) ≤ 2 ^ 62
      → Emitted (encode crc net config rng₀) rng₂ (value ++ (be32 (crc value) ++ crlf)) s
unfolding encode echo
echo_request crc net {rand} config rng₀ rng₁ keyspace k s r h =
    emitted _ _ _ s
      (Emits-lift _ _ _ _ _ k
        (Emits-put_then _ _ _ _ (Emits-put_then _ _ _ _ (Emits-put-pure net crlf _))))
      r h
