-- ===== src/Base/Progress.antt =====
-- What a handler of an event loop comes to: it returns, it panics, or the fuel of a loop in it runs
-- out.
use mathlib.Core.Option.{Option, none, some}
use rpc_perf.Base.Outcome.{Outcome, ret, panic}

pub data Progress {ℓ} (A : Type ℓ) : Type ℓ where
  returns : A → Progress A
  panics : Progress A
  runs_out : Progress A

infixl 5 ◌>>=◌
abbrev pub ◌>>=◌ {ℓ κ} : {A : Type ℓ} {B : Type κ} → Progress A → (A → Progress B) → Progress B
returns a >>= f = f a
panics >>= f = panics
runs_out >>= f = runs_out

-- A call that may panic, and one that may run out of fuel as well.
abbrev pub calls {ℓ} : {A : Type ℓ} → Outcome A → Progress A
calls (ret a) = returns a
calls panic = panics

abbrev pub fueled {ℓ} : {A : Type ℓ} → Option A → Progress A
fueled (some a) = returns a
fueled none = runs_out

-- `unwrap` of an `Option`.
abbrev pub unwrap {ℓ} : {A : Type ℓ} → Option A → Progress A
unwrap (some a) = returns a
unwrap none = panics

-- What holds of the value that is returned, if one is.
abbrev pub After {ℓ κ} : {A : Type ℓ} → (A → Type κ) → Progress A → Type κ
After P (returns a) = P a
After P panics = Unit
After P runs_out = Unit

pub After-bind {ℓ κ ι} :
    {A : Type ℓ} {B : Type κ} (P : A → Type ι) (Q : B → Type ι) (o : Progress A)
    (f : A → Progress B)
    → After P o
    → ((a : A) → P a → After Q (f a))
    → After Q (o >>= f)
After-bind P Q (returns a) f p h = h a p
After-bind P Q panics f p h = tt
After-bind P Q runs_out f p h = tt

-- As `After`, and there is no panic.
abbrev pub Ends {ℓ} : {A : Type ℓ} → (A → Type 0) → Progress A → Type 0
Ends P (returns a) = P a
Ends P panics = ⊥
Ends P runs_out = Unit

pub Ends-bind {ℓ κ} :
    {A : Type ℓ} {B : Type κ} (P : A → Type 0) (Q : B → Type 0) (o : Progress A)
    (f : A → Progress B)
    → Ends P o
    → ((a : A) → P a → Ends Q (f a))
    → Ends Q (o >>= f)
Ends-bind P Q (returns a) f p h = h a p
Ends-bind P Q panics f p h = absurd p
Ends-bind P Q runs_out f p h = tt

pub Ends-weaken {ℓ} :
    {A : Type ℓ} (P Q : A → Type 0) (o : Progress A) → ((a : A) → P a → Q a) → Ends P o → Ends Q o
Ends-weaken P Q (returns a) h p = h a p
Ends-weaken P Q panics h p = p
Ends-weaken P Q runs_out h p = tt

pub After-of_Ends {ℓ} : {A : Type ℓ} (P : A → Type 0) (o : Progress A) → Ends P o → After P o
After-of_Ends P (returns a) p = p
After-of_Ends P panics p = tt
After-of_Ends P runs_out p = tt
