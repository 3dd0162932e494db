-- ===== src/Base/Outcome.antt =====
-- What a call comes to: it returns, or it panics (a slice out of range, `unimplemented!()`).
use Prim.Native.Nat.{ℕ}
use mathlib.Core.Bool.{Bool, true, false}
use mathlib.Core.Path.{◌≡◌, refl}
use mathlib.Core.Logic.{◌⊎◌, inl, inr}

pub data Outcome {ℓ} (A : Type ℓ) : Type ℓ where
  ret : A → Outcome A
  panic : Outcome A

infixl 5 ◌>>=◌
abbrev pub ◌>>=◌ {ℓ κ} : {A : Type ℓ} {B : Type κ} → Outcome A → (A → Outcome B) → Outcome B
ret a >>= f = f a
panic >>= f = panic

-- A bound that the source checks by panicking.
abbrev pub check {ℓ} : {A : Type ℓ} → Bool → Outcome A → Outcome A
check true m = m
check false m = panic

-- `std::io::ErrorKind`, with the kinds that the source names; `os` stands for each other one.
pub data ErrorKind : Type 0 where
  would_block interrupted not_connected invalid_data other : ErrorKind
  os : ℕ → ErrorKind

pub data Io {ℓ} (A : Type ℓ) : Type ℓ where
  ok : A → Io A
  err : ErrorKind → Io A

-- What holds of the value, if the call has succeeded.
abbrev pub WhenOk {ℓ κ} : {A : Type ℓ} → (A → Type κ) → Io A → Type κ
WhenOk P (ok a) = P a
WhenOk P (err e) = Unit

pub Io-cases {ℓ} :
    {A : Type ℓ} (r : Io A) → ((a : A) × (r ≡ ok a)) ⊎ ((e : ErrorKind) × (r ≡ err e))
Io-cases (ok a) = inl (a, refl)
Io-cases (err e) = inr (e, refl)

pub Outcome-cases {ℓ} : {A : Type ℓ} (o : Outcome A) → ((a : A) × (o ≡ ret a)) ⊎ (o ≡ panic)
Outcome-cases (ret a) = inl (a, refl)
Outcome-cases panic = inr refl

-- What holds of the value, if the call returns.
abbrev pub WhenRet {ℓ κ} : {A : Type ℓ} → (A → Type κ) → Outcome A → Type κ
WhenRet P (ret a) = P a
WhenRet P panic = Unit
