-- ===== src/Codec/Memcache/Responses.antt =====
-- src/codec/memcache.rs, `decode`: which responses it takes from the buffer, and what it leaves.
use rpc_perf.Base.{
  ℕ, zero, suc, ◌+◌, ◌≡◌, ◌≢◌, ◌≤◌, refl, sym, ap, ◌∙◌, inl, inr, true, false, ◌&&◌, Bool, Option,
  some, none, Option-cases, Bool-cases, List, [], ◌∷◌, ◌++◌, append_assoc, arith, leb, get_elem?,
  length, take, drop, length-take, length-append, take-append-drop, take-add, drop-append_eq, All,
}
use native.Mathlib.Decide.{dec_lt}
use rpc_perf.Base.Bytes.{
  Bytes, codes, begins, begins→≡, begins-append_self, position, position-some, position-found,
  position-first, position-bound,
}
use rpc_perf.Metrics.{Metrics}
use rpc_perf.Net.{Net}
use rpc_perf.Session.{Session, buffer}
use rpc_perf.Session.Ready.{IsReady}
use rpc_perf.Reply.{Decoded, accept, refuse, incomplete, Takes, accept-Takes}
use rpc_perf.Codec.Memcache.{fixed, match_fixed, decode, decode_values}
use rpc_perf.Codec.Memcache.Gaps.{hits_in}
use rpc_perf.Codec.Memcache.Hits.{count_hits_lem}

-- The replies of memcached that are one line and no value, of those that rpc-perf knows.
pub data FixedLine : Bytes → Type 0 where
  stored : FixedLine (codes "STORED\r\n")
  not_stored : FixedLine (codes "NOT_STORED\r\n")
  exists : FixedLine (codes "EXISTS\r\n")
  not_found : FixedLine (codes "NOT_FOUND\r\n")
  deleted : FixedLine (codes "DELETED\r\n")
  touched : FixedLine (codes "TOUCHED\r\n")

-- No such line begins the buffer, with nothing or with anything behind it.
pub record NoFixed (buf : Bytes) : Type 0 where
  pub apart : (line rest : Bytes) → FixedLine line → buf ≢ line ++ rest

fixed-FixedLine : All FixedLine fixed
unfolding fixed
fixed-FixedLine = (stored, (not_stored, (exists, (not_found, (deleted, (touched, tt))))))

-- The place of a line in the list that `decode` tries.
place_of : (line : Bytes) → FixedLine line → (place : ℕ) × (get_elem? fixed place ≡ some line)
unfolding fixed
place_of _ stored = (0, refl)
place_of _ not_stored = (1, refl)
place_of _ exists = (2, refl)
place_of _ not_found = (3, refl)
place_of _ deleted = (4, refl)
place_of _ touched = (5, refl)

-- What `match_fixed` has found: one of the responses, at the start of the buffer.
record Found (P : Bytes → Type 0) (buf : Bytes) (n : ℕ) : Type 0 where
  response : Bytes
  known : P response
  size : n ≡ length response
  front : take n buf ≡ response

some-injective : {a b : ℕ} → ◌≡◌ {A = Option ℕ} (some a) (some b) → a ≡ b
some-injective e = cc

and_parts : (a b : Bool) → (a && b) ≡ true → (a ≡ true) × (b ≡ true)
and_parts true b h = (refl, h)
and_parts false b h = cc

match_fixed-Found :
    (P : Bytes → Type 0) (rs : List Bytes) (buf : Bytes) (n : ℕ)
    → All P rs
    → match_fixed rs buf ≡ some n
    → Found P buf n
unfolding match_fixed
match_fixed-Found P [] buf n all h = cc
match_fixed-Found P (r ∷ rs) buf n all h =
    elim (Bool-cases (leb (length r) (length buf) && begins r buf)) [
      | inl e ↦
          let both = and_parts _ _ e in
          let same : n ≡ length r = some-injective (sym h ∙ rw e) in
          record {
            response = r;
            known = all.0;
            size = same;
            front = ap (λ k. take k buf) same ∙ begins→≡ r buf both.1;
          }
      | inr e ↦ match_fixed-Found P rs buf n all.1 (rw e at h)
    ]

-- Where nothing is found, the buffer begins with none of the responses.
match_fixed-none :
    (rs : List Bytes) (buf : Bytes) (place : ℕ) (r rest : Bytes)
    → match_fixed rs buf ≡ none
    → get_elem? rs place ≡ some r
    → buf ≢ r ++ rest
unfolding match_fixed
match_fixed-none [] buf place r rest h e same = cc
match_fixed-none (r' ∷ rs) buf zero r rest h e same =
    ground
      (arith, begins-append_self r rest, length-append r rest, ap length same, ap (begins r) same)
match_fixed-none (r' ∷ rs) buf (suc place) r rest h e same =
    match_fixed-none rs buf place r rest (ground arith) e same

match_fixed-NoFixed : (buf : Bytes) → match_fixed fixed buf ≡ none → NoFixed buf
match_fixed-NoFixed buf h = record {
  apart = λ line rest l.
      let (place, e) = place_of line l in match_fixed-none fixed buf place line rest h e;
}

-- "END\r\n" occurs in the buffer behind `front`.
abbrev pub EndsAt : Bytes → Bytes → Bytes → Type 0
EndsAt buf front back = buf ≡ front ++ (codes "END\r\n" ++ back)

begins-end :
    (front back : Bytes)
    → begins (codes "END\r\n") (drop (length front) (front ++ (codes "END\r\n" ++ back))) ≡ true
begins-end front back =
    ap (begins (codes "END\r\n")) (drop-append_eq (length front) front _ refl)
    ∙ begins-append_self (codes "END\r\n") back

-- No occurrence stands before the one that `position` finds, and there is none where it finds none.
position-end_first :
    (buf : Bytes) (i : ℕ)
    → position (codes "END\r\n") buf ≡ some i
    → (front back : Bytes) → EndsAt buf front back
    → i ≤ length front
position-end_first buf i p front back at = elim (dec_lt (length front) i) [
  | yes h ↦ absurd (
      differ (
        sym (position-first (codes "END\r\n") buf i (length front) p h)
        ∙ ap (λ t. begins (codes "END\r\n") (drop (length front) t)) at
        ∙ begins-end front back))
  | no h ↦ omega arith
]
  where
    differ : false ≡ true → ⊥
    differ h = cc

position-end_none :
    (buf : Bytes)
    → position (codes "END\r\n") buf ≡ none
    → (front back : Bytes) → ¬ EndsAt buf front back
position-end_none buf p front back at = absurd (
    position-some (codes "END\r\n") buf (length front) p
      (ap (λ t. begins (codes "END\r\n") (drop (length front) t)) at ∙ begins-end front back)
      (omega (arith, ap length at, length-append front (codes "END\r\n" ++ back))))

module _ {net : Net} where
  -- The three things that `decode` does with a buffer.
  pub data Handles (s : Session net) (m : Metrics) (d : Decoded net) : Type 0 where
    line :
        (response rest : Bytes)
        → FixedLine response
        → buffer s ≡ response ++ rest
        → Takes s m rest d
        → Handles s m d
    values :
        (body rest : Bytes)
        → NoFixed (buffer s)
        → EndsAt (buffer s) body rest
        → ((front back : Bytes) → EndsAt (buffer s) front back → length body ≤ length front)
        → Takes s
            (record m { response_hit = m.response_hit + hits_in (body ++ codes "END\r\n") })
            rest
            d
        → Handles s m d
    partial :
        NoFixed (buffer s)
        → ((front back : Bytes) → ¬ EndsAt (buffer s) front back)
        → d ≡ refuse s m incomplete
        → Handles s m d

  -- On a ready session decode does one of three things. The buffer begins with one of the six
  -- fixed lines, STORED, NOT_STORED, EXISTS, NOT_FOUND, DELETED or TOUCHED with its line end: it
  -- takes that line. It begins with none of them, and "END\r\n" occurs: it takes everything up to
  -- and with the first "END\r\n", and adds the number of hits in it, as counted without an
  -- iterator. Neither: the response is incomplete, and nothing changes. It does not panic, and
  -- what stands behind a response it takes is left.
  pub decode-Handles : (s : Session net) (m : Metrics) → IsReady s → Handles s m (decode s m)
  unfolding decode
  decode-Handles s m r = elim (Option-cases (match_fixed fixed (buffer s))) [
    | inr (n, e) ↦
        let f = match_fixed-Found FixedLine fixed (buffer s) n fixed-FixedLine e in
        let whole : buffer s ≡ f.response ++ drop n (buffer s) =
          sym (take-append-drop n (buffer s)) ∙ ap (λ t. t ++ drop n (buffer s)) f.front in
        Handles.line f.response (drop n (buffer s)) f.known whole
          (rw (e, decode) (accept-Takes s m f.response (drop n (buffer s)) n r whole f.size))
    | inl e ↦ elim (Option-cases (position (codes "END\r\n") (buffer s))) [
      | inl p ↦
          Handles.partial (match_fixed-NoFixed _ e) (position-end_none (buffer s) p)
            (rw (e, p, decode))
      | inr (i, p) ↦
          let body = take i (buffer s) in
          let rest = drop (i + 5) (buffer s) in
          let ends : take (i + 5) (buffer s) ≡ body ++ codes "END\r\n" =
            take-add i 5 (buffer s)
            ∙ ap (λ t. body ++ t) (position-found (codes "END\r\n") (buffer s) i p) in
          let whole : buffer s ≡ (body ++ codes "END\r\n") ++ rest =
            sym (take-append-drop (i + 5) (buffer s)) ∙ ap (λ t. t ++ rest) ends in
          let bound = position-bound (codes "END\r\n") (buffer s) i p in
          let counts = count_hits_lem (length (body ++ codes "END\r\n")) body (omega arith) in
          Handles.values body rest (match_fixed-NoFixed _ e) (whole ∙ append_assoc body _ rest)
            (λ front back at. omega (
              arith,
              length-take i (buffer s),
              bound,
              position-end_first (buffer s) i p front back at,
            ))
            (rw (e, p, ends, counts, decode, decode_values)
              (accept-Takes s _ (body ++ codes "END\r\n") rest (i + 5) r whole
                (omega (arith, ap length ends, length-take (i + 5) (buffer s), bound))))
    ]
  ]

  -- A response that ends with "END\r\n" is consumed, with some number of hits.
  pub decode_values-accept :
      (s : Session net) (m : Metrics) (i : ℕ)
      → position (codes "END\r\n") (buffer s) ≡ some i
      → (hits : ℕ) × (decode_values s m i
          ≡ accept s (record m { response_hit = m.response_hit + hits }) (i + 5))
  unfolding decode_values
  decode_values-accept s m i p =
      let body = take i (buffer s) in
      let ends : take (i + 5) (buffer s) ≡ body ++ codes "END\r\n" =
        take-add i 5 (buffer s)
        ∙ ap (λ t. body ++ t) (position-found (codes "END\r\n") (buffer s) i p) in
      let counts = count_hits_lem (length (body ++ codes "END\r\n")) body (omega arith) in
      (hits_in (body ++ codes "END\r\n"), rw (ends, counts, decode_values) refl)

  -- The length of a fixed response is within the buffer.
  pub match_fixed-bound :
      (s : Session net) (n : ℕ) → match_fixed fixed (buffer s) ≡ some n → n ≤ length (buffer s)
  match_fixed-bound s n e =
      let f = match_fixed-Found FixedLine fixed (buffer s) n fixed-FixedLine e in
      omega (arith, f.size, ap length f.front, length-take n (buffer s))
