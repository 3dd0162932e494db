-- ===== src/Rand.antt =====
-- What src/config.rs and the codecs take from the crates `rand`, `rand_distr` and `zipf`: a
-- generator and its distributions. They are not the program's code, so they are a parameter.
use rpc_perf.Base.{ℕ, zero, suc, ◌≡◌, refl, ap, [], ◌∷◌, length}
use rpc_perf.Base.Bytes.{Bytes}

pub record Rand : Type 1 where
  pub Rng : Type 0
  pub Weighted : Type 0
  pub Uniform : Type 0
  pub Zipf : Type 0
  -- one item of `sample_iter(&Alphanumeric)`
  pub alphanumeric : Rng → ℕ × Rng
  -- `gen_range(0..n)` for `n` that is not 0
  pub gen_range : ℕ → Rng → ℕ × Rng
  pub sample_weighted : Weighted → Rng → ℕ × Rng
  pub sample_uniform : Uniform → Rng → ℕ × Rng
  pub sample_zipf : Zipf → Rng → ℕ × Rng

-- `rng.sample_iter(&Alphanumeric).take(n).collect::<Vec<u8>>()`
unfoldable pub sample_bytes : (rand : Rand) → ℕ → rand.Rng → Bytes × rand.Rng
sample_bytes rand zero rng = ([], rng)
sample_bytes rand (suc n) rng =
    let (c, rng') = rand.alphanumeric rng in
    let (cs, rng'') = sample_bytes rand n rng' in (c ∷ cs, rng'')

pub length-sample_bytes :
    (rand : Rand) (n : ℕ) (rng : rand.Rng) → length (sample_bytes rand n rng).0 ≡ n
unfolding sample_bytes
length-sample_bytes rand zero rng = refl
length-sample_bytes rand (suc n) rng = ap suc (length-sample_bytes rand n (rand.alphanumeric rng).1)
