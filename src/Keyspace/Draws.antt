-- ===== src/Keyspace/Draws.antt =====
-- src/config.rs: sequences of keys drawn from a keyspace, and how they are written on one line.
use rpc_perf.Base.{ℕ, zero, suc, ◌≡◌, refl, ap, List, [], ◌∷◌, ◌++◌, length}
use rpc_perf.Base.Bytes.{Bytes, codes}
use rpc_perf.Rand.{Rand}
use rpc_perf.Keyspace.{Keyspace, generate_key}

-- The next `n` keys, and the generator after them.
unfoldable pub draw_keys : {rand : Rand} → Keyspace rand → ℕ → rand.Rng → List Bytes × rand.Rng
draw_keys keyspace zero rng = ([], rng)
draw_keys keyspace (suc n) rng =
    let (key, rng') = generate_key keyspace rng in
    let (keys, rng'') = draw_keys keyspace n rng' in (key ∷ keys, rng'')

pub draw_keys-suc :
    {rand : Rand} (keyspace : Keyspace rand) (n : ℕ) (rng : rand.Rng)
    → draw_keys keyspace (suc n) rng ≡ (
      (generate_key keyspace rng).0 ∷ (draw_keys keyspace n (generate_key keyspace rng).1).0,
      (draw_keys keyspace n (generate_key keyspace rng).1).1,
    )
unfolding draw_keys
draw_keys-suc keyspace n rng = refl

pub length-draw_keys :
    {rand : Rand} (keyspace : Keyspace rand) (n : ℕ) (rng : rand.Rng)
    → length (draw_keys keyspace n rng).0 ≡ n
unfolding draw_keys
length-draw_keys keyspace zero rng = refl
length-draw_keys keyspace (suc n) rng =
    ap suc (length-draw_keys keyspace n (generate_key keyspace rng).1)

-- Words with one space between each two.
abbrev pub spaced : List Bytes → Bytes
spaced [] = []
spaced (w ∷ []) = w
spaced (w ∷ v ∷ ws) = w ++ (codes " " ++ spaced (v ∷ ws))
