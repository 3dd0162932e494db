-- ===== src/Writer.antt =====
-- How a codec writes to its session (`buf.write_all(..)` in src/codec): a step of it takes a session
-- and returns a value and the session after, or panics.
use rpc_perf.Base.{
  ◌+◌, ◌^◌, ◌≤◌, ◌≡◌, refl, sym, ap, ◌∙◌, subst, [], ◌++◌, append_assoc, append-nil, arith, length,
  length-append,
}
use rpc_perf.Base.Bytes.{Bytes}
use rpc_perf.Base.Outcome.{Outcome, ret, panic}
use rpc_perf.Net.{Net}
use rpc_perf.Buffer.{borrow}
use rpc_perf.Session.{Session, write_all, write}
use rpc_perf.Session.Ready.{IsReady}
use rpc_perf.Session.Flush.{Wrote, write_all-Wrote, write-Wrote}

abbrev pub W {ℓ} : Net → Type ℓ → Type ℓ
W net A = Session net → Outcome (A × Session net)

infixl 5 ◌>>=◌ ◌>>◌
abbrev pub ◌>>=◌ {ℓ κ} : {net : Net} {A : Type ℓ} {B : Type κ} → W net A → (A → W net B) → W net B
◌>>=◌ m f s = elim (m s) [ ret (a, s') ↦ f a s' | panic ↦ panic ]

abbrev pub ◌>>◌ {ℓ} : {net : Net} {B : Type ℓ} → W net (Unit {0}) → W net B → W net B
◌>>◌ m k = m >>= λ _. k

abbrev pub pure {ℓ} : {net : Net} {A : Type ℓ} → A → W net A
pure a s = ret (a, s)

-- A call that does not touch the session.
abbrev pub lift {ℓ} : {net : Net} {A : Type ℓ} → Outcome A → W net A
lift (ret a) s = ret (a, s)
lift panic s = panic

-- `let _ = buf.write_all(bytes);`
unfoldable pub put : {net : Net} → Bytes → W net (Unit {0})
put bytes s = elim (write_all s bytes) [ ret s' ↦ ret (tt, s') | panic ↦ panic ]

-- `let _ = buf.write(bytes);`
unfoldable pub put_once : {net : Net} → Bytes → W net (Unit {0})
put_once bytes s = elim (write s bytes) [ ret (n, s') ↦ ret (tt, s') | panic ↦ panic ]

-- The step returns `a` and has appended exactly `bytes` to the write buffer.
pub record Emitted {net : Net} {A : Type 0} (m : W net A) (a : A) (bytes : Bytes) (s : Session net)
    : Type 0 where
  pub after : Session net
  pub returns : m s ≡ ret (a, after)
  pub wrote : Wrote s bytes after

-- So it does on each ready session with room for `bytes` (2^62 bytes may be pending).
pub Emits {ℓ} : {net : Net} {A : Type ℓ} → W net A → A → Bytes → Type ℓ
Emits {net} m a bytes =
    (s : Session net)
    → IsReady s
    → length (borrow s.write_buffer) + length bytes ≤ 2 ^ 62
    → (s' : Session net) × (m s ≡ ret (a, s')) × Wrote s bytes s'

pub emitted :
    {net : Net} {A : Type 0} (m : W net A) (a : A) (bytes : Bytes) (s : Session net)
    → Emits m a bytes
    → IsReady s
    → length (borrow s.write_buffer) + length bytes ≤ 2 ^ 62
    → Emitted m a bytes s
unfolding Emits
emitted m a bytes s e r h =
    let (s', ran, w) = e s r h in record { after = s'; returns = ran; wrote = w }

module _ (net : Net) where
  pub Emits-put : (bytes : Bytes) → Emits {net = net} (put bytes) tt bytes
  unfolding Emits put
  Emits-put bytes s r h = let (s', e, w) = write_all-Wrote s bytes r h in (s', rw (e, put), w)

  pub Emits-put_once : (bytes : Bytes) → Emits {net = net} (put_once bytes) tt bytes
  unfolding Emits put_once
  Emits-put_once bytes s r h = let (s', e, w) = write-Wrote s bytes r h in (s', rw (e, put_once), w)

  pub Emits-pure {ℓ} : {A : Type ℓ} (a : A) → Emits {net = net} (pure a) a []
  unfolding Emits
  Emits-pure a s r h =
      (s, refl, record { ready = r; content = sym (append-nil _); same = refl; outstanding = refl })

module _ {net : Net} where
  -- Steps in sequence write their bytes in sequence.
  pub Emits-bind {ℓ κ} :
      {A : Type ℓ} {B : Type κ} (m : W net A) (f : A → W net B) (a : A) (b : B) (xs ys : Bytes)
      → Emits m a xs
      → Emits (f a) b ys
      → Emits (m >>= f) b (xs ++ ys)
  unfolding Emits
  Emits-bind m f a b xs ys p q s r h =
      let (s₁, e₁, w₁) = p s r (omega (arith, length-append xs ys)) in
      let (s₂, e₂, w₂) = q s₁ w₁.ready (
        omega (
          arith,
          length-append xs ys,
          ap length w₁.content,
          length-append (borrow s.write_buffer) xs,
        )) in
      (
        s₂,
        rw (e₁, ◌>>=◌) e₂,
        record {
          ready = w₂.ready;
          content =
              w₂.content
              ∙ ap (λ t. t ++ ys) w₁.content
              ∙ append_assoc (borrow s.write_buffer) xs ys;
          same = w₂.same ∙ w₁.same;
          outstanding = w₂.outstanding ∙ w₁.outstanding;
        },
      )

  pub Emits-then {ℓ} :
      {B : Type ℓ} (m : W net (Unit {0})) (k : W net B) (b : B) (xs ys : Bytes)
      → Emits m tt xs
      → Emits k b ys
      → Emits (m >> k) b (xs ++ ys)
  Emits-then m k b xs ys p q = Emits-bind m (λ _. k) tt b xs ys p q

  pub Emits-put_then {ℓ} :
      {B : Type ℓ} (bytes : Bytes) (k : W net B) (b : B) (ys : Bytes)
      → Emits k b ys
      → Emits (put bytes >> k) b (bytes ++ ys)
  Emits-put_then bytes k b ys q = Emits-then (put bytes) k b bytes ys (Emits-put _ bytes) q

  -- A call that returns writes nothing.
  pub Emits-lift {ℓ κ} :
      {A : Type ℓ} {B : Type κ} (o : Outcome A) (f : A → W net B) (a : A) (b : B) (ys : Bytes)
      → o ≡ ret a
      → Emits (f a) b ys
      → Emits (lift o >>= f) b ys
  unfolding Emits
  Emits-lift o f a b ys e q s r h = rw (e, lift) (q s r h)

  pub Emits-of_eq {ℓ} :
      {A : Type ℓ} (m : W net A) (a : A) {xs ys : Bytes} → xs ≡ ys → Emits m a xs → Emits m a ys
  Emits-of_eq m a e p = subst (λ t. Emits m a t) e p

-- The last write of a step, before it returns.
pub Emits-put-pure {ℓ} :
    (net : Net) {A : Type ℓ} (bytes : Bytes) (a : A)
    → Emits {net = net} (put bytes >> pure a) a bytes
Emits-put-pure net bytes a =
    Emits-of_eq _ a (append-nil bytes) (Emits-put_then bytes (pure a) a [] (Emits-pure net a))
