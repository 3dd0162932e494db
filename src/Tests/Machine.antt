-- ===== src/Tests/Machine.antt =====
-- A host whose slab is a list of sessions, with a clock that ticks, and a worker on it.
use rpc_perf.Base.{
  ℕ, zero, suc, ◌+◌, ◌≡◌, refl, arith, true, false, some, none, List, [], ◌∷◌, ◌++◌, ◌==◌,
  if◌then◌else◌, get_elem?, length,
}
use rpc_perf.Base.Outcome.{ok}
use rpc_perf.Net.{established}
use rpc_perf.Session.{Session}
use rpc_perf.Host.{Host, Keeps}
use rpc_perf.Tests.World.{network}

abbrev pub write_at : {A : Type 0} → List A → ℕ → A → List A
write_at [] i a = []
write_at (x ∷ xs) zero a = a ∷ xs
write_at (x ∷ xs) (suc i) a = x ∷ write_at xs i a

abbrev pub machine : Host network
machine = record {
  Sys = ℕ;
  Limiter = ℕ;
  Heatmap = ℕ;
  Connector = Unit {0};
  ConnectConfig = Unit {0};
  Slab = List (Session network);
  now = λ n. (n, n + 1);
  tcp_connect = λ addr n. (ok [], n + 1);
  try_wait = λ r n. (true, n + 1);
  increment = λ h now value n. n;
  configure = λ c. ok tt;
  set_session = λ c s. ok c;
  connect_tls = λ c t. established t;
  tls_reused = λ t. false;
  mid_reused = λ t. false;
  get = λ t i. get_elem? t i;
  vacant = λ t. length t;
  insert = λ t s. t ++ (s ∷ []);
  set = λ t i s. write_at t i s;
}

get-append :
    {A : Type 0} (xs : List A) (a : A) (k : ℕ)
    → get_elem? (xs ++ (a ∷ [])) k ≡ (if k == length xs then some a else get_elem? xs k)
get-append [] a zero = refl
get-append [] a (suc k) = ground arith
get-append (x ∷ xs) a zero = ground arith
get-append (x ∷ xs) a (suc k) = ground (arith, get-append xs a k)

get-write_at :
    {A : Type 0} (xs : List A) (i k : ℕ) (a b : A)
    → get_elem? xs i ≡ some a
    → get_elem? (write_at xs i b) k ≡ (if k == i then some b else get_elem? xs k)
get-write_at [] i k a b e = cc
get-write_at (x ∷ xs) zero zero a b e = refl
get-write_at (x ∷ xs) zero (suc k) a b e = ground arith
get-write_at (x ∷ xs) (suc i) zero a b e = ground arith
get-write_at (x ∷ xs) (suc i) (suc k) a b e = ground (arith, get-write_at xs i k a b e)

get-length : {A : Type 0} (xs : List A) → get_elem? xs (length xs) ≡ none
get-length [] = refl
get-length (x ∷ xs) = get-length xs

pub machine-Keeps : Keeps machine
machine-Keeps = record {
  get-vacant = get-length;
  get-insert = get-append;
  get-set = λ t i k s s' e. get-write_at t i k s s' e;
}
