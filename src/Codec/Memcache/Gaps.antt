-- ===== src/Codec/Memcache/Gaps.antt =====
-- src/codec/memcache.rs, the loop of `decode` that looks for "VALUE" lines: where it looks, without an
-- iterator. The iterator counts from where it stands, and after the first line end that is the line
-- feed of the line end before, so it is the gaps between the line ends that say where.
use rpc_perf.Base.{
  ℕ, suc, ◌+◌, ◌≡◌, refl, ap, ◌∙◌, inl, inr, ◌&&◌, Option, none, some, Bool-cases, List, [], ◌∷◌,
  arith, ◌==◌, if◌then◌else◌, take, drop,
}
use mathlib.Core.Option
use rpc_perf.Base.Bytes.{
  Bytes, codes, crlf, bytes_eq, position, position-crlf_cons, position-crlf_one, position-crlf-none,
}

-- The number of bytes between each line end of a text and the carriage return of the one before it,
-- or, for the first, the start; `n` have been passed.
pub gaps : ℕ → Bytes → List ℕ
gaps n [] = []
gaps n (x ∷ []) = []
gaps n (x ∷ y ∷ t) =
    let later = gaps (if x == 13 && y == 10 then 0 else suc n) (y ∷ t) in
    if x == 13 && y == 10 then n ∷ later else later

pub value_at : Bytes → ℕ → ℕ
value_at response start = if bytes_eq (take 5 (drop start response)) (codes "VALUE") then 1 else 0

-- The first look is at `start`, and each other one 2 behind the gap before it.
pub hits_at : Bytes → ℕ → List ℕ → ℕ
unfolding value_at
hits_at response start [] = 0
hits_at response start (gap ∷ gaps) = value_at response start + hits_at response (gap + 2) gaps

-- The hits in a response: as many looks as it has line ends, the first at its start.
unfoldable pub hits_in : Bytes → ℕ
unfolding gaps hits_at
hits_in response = hits_at response 0 (gaps 0 response)

-- What the first line end that the search finds leaves.
pub gaps_from : ℕ → Bytes → Option ℕ → List ℕ
gaps_from n w none = []
gaps_from n w (some i) = (n + i) ∷ gaps 0 (drop (suc i) w)

gaps_from-suc :
    (n x : ℕ) (w : Bytes) (o : Option ℕ)
    → gaps_from (suc n) w o ≡ gaps_from n (x ∷ w) (Option.map suc o)
unfolding gaps_from
gaps_from-suc n x w none = refl
gaps_from-suc n x w (some i) = ap (λ k. k ∷ gaps 0 (drop (suc i) w)) (omega arith)

pub gaps-position : (n : ℕ) (w : Bytes) → gaps n w ≡ gaps_from n w (position crlf w)
unfolding gaps gaps_from
gaps-position n [] = rw (position-crlf-none [] tt) refl
gaps-position n (x ∷ []) = rw (position-crlf_one x) refl
gaps-position n (x ∷ y ∷ t) = elim (Bool-cases (x == 13 && y == 10)) [
  | inl e ↦ rw (position-crlf_cons x y t, e) (ap (λ k. k ∷ gaps 0 (y ∷ t)) (omega arith))
  | inr e ↦
      rw (position-crlf_cons x y t, e)
        (gaps-position (suc n) (y ∷ t) ∙ gaps_from-suc n x (y ∷ t) (position crlf (y ∷ t)))
]

-- The search, one line end after the other, looks where the gaps say.
pub hits_at-none :
    (response w : Bytes) (start : ℕ)
    → position crlf w ≡ none
    → hits_at response start (gaps 0 w) ≡ 0
unfolding hits_at gaps_from
hits_at-none response w start e = rw (gaps-position 0 w, e, gaps_from) refl

pub hits_at-some :
    (response w : Bytes) (start i : ℕ)
    → position crlf w ≡ some i
    → hits_at response start (gaps 0 w)
      ≡ value_at response start + hits_at response (i + 2) (gaps 0 (drop (suc i) w))
unfolding hits_at gaps_from
hits_at-some response w start i e =
    rw (gaps-position 0 w, e, gaps_from)
      (ap (λ k. value_at response start + hits_at response (k + 2) (gaps 0 (drop (suc i) w)))
        (omega arith))

-- A look counts one, or nothing.
pub counted :
    (response : Bytes) (start hits : ℕ)
    → (if bytes_eq (take 5 (drop start response)) (codes "VALUE") then suc hits else hits)
      ≡ hits + value_at response start
unfolding value_at
counted response start hits = ground arith
