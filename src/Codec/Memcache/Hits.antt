-- ===== src/Codec/Memcache/Hits.antt =====
-- src/codec/memcache.rs, the loop of `decode` that looks for "VALUE" lines: what it counts, in bounds.
use rpc_perf.Base.{
  ℕ, zero, suc, ◌+◌, ◌-◌, ◌≤◌, ◌≡◌, refl, sym, ap, ◌∙◌, subst, ◌⊎◌, inl, inr, false, some,
  Option-cases, Bool-cases, [], ◌∷◌, ◌++◌, arith, ltb, leb, le→leb, leb→le, length, take, drop,
  drop-drop, length-drop, length-append, if◌then◌else◌,
}
use rpc_perf.Base.Bytes.{
  Bytes, codes, crlf, bytes_eq, position, position-found, position-crlf-none, position-bound,
}
use rpc_perf.Base.Outcome.{ret}
use rpc_perf.Codec.Memcache.{count_hits}
use rpc_perf.Codec.Memcache.Gaps.{gaps, hits_at, hits_in, hits_at-none, hits_at-some, counted}

drop-append_ge :
    (k : ℕ) (xs ys : Bytes) → length xs ≤ k → drop k (xs ++ ys) ≡ drop (k - length xs) ys
drop-append_ge k [] ys h = ap (λ n. drop n ys) (omega arith)
drop-append_ge zero (x ∷ xs) ys h = absurd (omega arith)
drop-append_ge (suc k) (x ∷ xs) ys h =
    drop-append_ge k xs ys (omega arith) ∙ ap (λ n. drop n ys) (omega arith)

abbrev pub end_line : Bytes
end_line = codes "END\r\n"

-- In the last line, what stands behind a carriage return has no line end.
end_tail :
    (j : ℕ) (t : Bytes) (i : ℕ)
    → drop j end_line ≡ 10 ∷ t
    → position crlf (drop j end_line) ≡ some i
    → ⊥
end_tail zero t i h p = ground arith
end_tail (suc zero) t i h p = ground arith
end_tail (suc (suc zero)) t i h p = ground arith
end_tail (suc (suc (suc zero))) t i h p = ground arith
end_tail (suc (suc (suc (suc zero)))) t i h p =
    ground (arith, position-crlf-none (10 ∷ []) (omega arith, tt))
end_tail (suc (suc (suc (suc (suc zero))))) t i h p = ground arith
end_tail (suc (suc (suc (suc (suc (suc j)))))) t i h p = ground arith

-- So a line end behind another one leaves six bytes at least.
closed_tail :
    (k : ℕ) (body t : Bytes) (i : ℕ)
    → drop k (body ++ end_line) ≡ 10 ∷ t
    → position crlf (drop k (body ++ end_line)) ≡ some i
    → k + 6 ≤ length (body ++ end_line)
closed_tail k body t i h p = elim (Bool-cases (leb (k + 6) (length (body ++ end_line)))) [
  | inl e ↦ leb→le _ _ e
  | inr e ↦
      let past : length body ≤ k = ground (arith, length-append body end_line) in
      let same = drop-append_ge k body end_line past in
      absurd (end_tail (k - length body) t i (sym same ∙ h) (ap (position crlf) (sym same) ∙ p))
]

length-zero : (xs : Bytes) → length xs ≤ 0 → xs ≡ []
length-zero [] h = refl
length-zero (x ∷ xs) h = absurd (omega arith)

-- The byte behind the carriage return that was found.
behind_cr : (w : Bytes) → take 2 w ≡ crlf → (t : Bytes) × (drop 1 w ≡ 10 ∷ t)
behind_cr [] h = ground arith
behind_cr (x ∷ []) h = ground arith
behind_cr (x ∷ y ∷ t) h = (t, ground arith)

-- Where the iterator stands: at the start, or behind a carriage return.
Stands : ℕ → Bytes → Type 0
Stands start windows = (start ≡ 0) ⊎ ((t : Bytes) × (windows ≡ 10 ∷ t))

in_range :
    (k start i : ℕ) (body : Bytes)
    → start ≤ k + 1
    → Stands start (drop k (body ++ end_line))
    → position crlf (drop k (body ++ end_line)) ≡ some i
    → start + 5 ≤ length (body ++ end_line)
unfolding Stands
in_range k start i body low (inl e) p = omega (arith, length-append body end_line)
in_range k start i body low (inr (t, h)) p = omega (arith, closed_tail k body t i h p)

next-Stands : (i start : ℕ) (w : Bytes) → position crlf w ≡ some i → Stands start (drop (suc i) w)
unfolding Stands
next-Stands i start w p =
    let (t, h) = behind_cr (drop i w) (position-found crlf w i p) in
    let one_more : suc i ≡ i + 1 = omega arith in
    inr (t, ap (λ n. drop n w) one_more ∙ sym (drop-drop 1 i w) ∙ h)

-- With fuel for what the iterator has left, the loop adds the hits that are still to come.
count_hits-hits_at :
    (f k : ℕ) (body : Bytes) (start hits : ℕ)
    → length (drop k (body ++ end_line)) ≤ f
    → start ≤ k + 1
    → Stands start (drop k (body ++ end_line))
    → count_hits f (body ++ end_line) (drop k (body ++ end_line)) start hits
      ≡ ret (hits + hits_at (body ++ end_line) start (gaps 0 (drop k (body ++ end_line))))
unfolding count_hits
count_hits-hits_at zero k body start hits fuel low st =
    let response = body ++ end_line in
    let over : drop k response ≡ [] = length-zero (drop k response) fuel in
    let quiet =
      hits_at-none response (drop k response) start
        (ap (position crlf) over ∙ position-crlf-none [] tt) in
    ap ret (omega (arith, quiet))
count_hits-hits_at (suc f) k body start hits fuel low st =
    elim (Option-cases (position crlf (drop k (body ++ end_line)))) [
      | inl e ↦
          let quiet = hits_at-none (body ++ end_line) (drop k (body ++ end_line)) start e in
          rw (e, count_hits) (ap ret (omega (arith, quiet)))
      | inr (i, e) ↦
          let response = body ++ end_line in
          let size = length-append body end_line in
          let hit = bytes_eq (take 5 (drop start response)) (codes "VALUE") in
          let moved = drop-drop (suc i) k response in
          let long : ltb (length response) 5 ≡ false = ground (arith, size) in
          let full = le→leb 5 (length response) (omega (arith, size)) in
          let inside = le→leb (start + 5) (length response) (in_range k start i body low st e) in
          let bound = position-bound crlf (drop k response) i e in
          let next =
            count_hits-hits_at f (k + suc i) body (i + 2) (if hit then suc hits else hits)
              (omega (arith, length-drop (k + suc i) response, length-drop k response, bound))
              (omega arith)
              (subst (Stands (i + 2)) moved (next-Stands i (i + 2) (drop k response) e)) in
          rw (e, long, inside, full, count_hits)
            (rw moved (
              next
              ∙ ap ret (
                  omega (
                    arith,
                    counted response start hits,
                    ap (λ w. hits_at response (i + 2) (gaps 0 w)) moved,
                    hits_at-some response (drop k response) start i e,
                  ))))
    ]

-- On a response that ends with "END\r\n" the loop that counts hits never indexes out of range and
-- ends: with any fuel that is at least the length of the response it returns the number of hits in
-- the response, as counted without an iterator. That is the number of "VALUE"s in as many places
-- as the response has line ends: the first is its start, the second the end of its first line end,
-- and each later one the number of bytes between the carriage returns of the two line ends before
-- it, plus 2, which is not where a line starts.
pub count_hits_lem :
    (f : ℕ) (body : Bytes)
    → let response = body ++ end_line in
      length response ≤ f → count_hits f response response 0 0 ≡ ret (hits_in response)
unfolding Stands hits_in
count_hits_lem f body p =
    count_hits-hits_at f 0 body 0 0 p (omega arith) (inl refl) ∙ ap ret (omega arith)
