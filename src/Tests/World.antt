-- ===== src/Tests/World.antt =====
-- A network of scripted bytes, a generator that counts, and sessions with given contents.
use rpc_perf.Base.{
  ℕ, ◌+◌, ◌-◌, ◌^◌, ap, ◌≤◌, ◌≡◌, refl, subst, true, some, none, [], ◌∷◌, ◌++◌, arith, length,
  length-take, length-append, length-replicate, take-append_eq, ◌∙◌, take, drop, replicate,
}
use rpc_perf.Base.Bytes.{Bytes}
use rpc_perf.Base.Outcome.{Io, ok, err, would_block}
use rpc_perf.Net.{Net, Fits, established, writable}
use rpc_perf.Rand.{Rand}
use rpc_perf.Keyspace.{Keyspace, Config, Field, Verb, FieldType, uniform}
use rpc_perf.Stream.{StreamType}
use rpc_perf.Buffer.{Buffer, borrow}
use rpc_perf.Session.{Session, buffer}
use rpc_perf.Session.Flush.{buffer_lem}
use rpc_perf.Buffer.Grow.{IsValid, borrow_compact}
use rpc_perf.Session.Ready.{IsReady}

-- A connection is the bytes that are still to be read from it.
abbrev pub scripted : Bytes → ℕ → Io Bytes × Bytes
scripted [] n = (err would_block, [])
scripted (x ∷ xs) n = (ok (take n (x ∷ xs)), drop n (x ∷ xs))

abbrev pub network : Net
network = record {
  Tcp = Bytes;
  Tls = Bytes;
  Mid = Bytes;
  Addr = ℕ;
  SslSession = Bytes;
  Poll = Unit {0};
  tcp_read = scripted;
  tcp_write = λ t xs. (ok (length xs), t);
  tcp_shutdown = λ t. t;
  tcp_peer_addr = λ t. ok 0;
  tls_read = scripted;
  tls_write = λ t xs. (ok (length xs), t);
  tls_shutdown = λ t. t;
  tls_tcp = λ t. t;
  tls_session = λ t. none;
  to_der = λ t. ok t;
  from_der = λ t. ok t;
  handshake = λ t. established t;
  mid_tcp = λ t. t;
  mid_shutdown_tcp = λ t. t;
  poll_register = λ p t n i. (ok tt, p);
  poll_reregister = λ p t n i. (ok tt, p);
  poll_deregister = λ p t. (ok tt, p);
}

ok_injective : {A : Type 0} {a b : A} → ◌≡◌ {A = Io A} (ok a) (ok b) → a ≡ b
ok_injective e = cc

scripted_fits : (t : Bytes) (n : ℕ) (xs : Bytes) → (scripted t n).0 ≡ ok xs → length xs ≤ n
scripted_fits [] n xs e = cc
scripted_fits (x ∷ t) n xs e =
    subst (λ ys. length ys ≤ n) (ok_injective e) (omega (arith, length-take n (x ∷ t)))

pub network-Fits : Fits network
network-Fits = record {
  tcp_read_fits = scripted_fits;
  tls_read_fits = scripted_fits;
  tcp_write_fits = λ t xs n e. subst (λ k. k ≤ length xs) (ok_injective e) (omega arith);
  tls_write_fits = λ t xs n e. subst (λ k. k ≤ length xs) (ok_injective e) (omega arith);
}

-- A buffer of 64 bytes that holds `xs`, and an empty one.
abbrev pub loaded : Bytes → Buffer
loaded xs = record {
  buffer = xs ++ replicate (64 - length xs) 0;
  read_offset = 0;
  write_offset = length xs;
  target_capacity = 64;
}

abbrev pub holding : Bytes → Bytes → Session network
holding xs incoming = record {
  token = 0;
  stream = record { inner = some (StreamType.plain incoming) };
  read_buffer = loaded xs;
  write_buffer = loaded [];
  min_capacity = 64;
  max_capacity = 256;
  is_connected = true;
  interest = writable;
  timestamp = 0;
  outstanding = 0;
}

-- A generator that hands out its state, and then the next number.
abbrev pub counter : Rand
counter = record {
  Rng = ℕ;
  Weighted = Unit {0};
  Uniform = Unit {0};
  Zipf = Unit {0};
  alphanumeric = λ n. (97 + n, n + 1);
  gen_range = λ bound n. (0, n + 1);
  sample_weighted = λ d n. (0, n);
  sample_uniform = λ d n. (n, n + 1);
  sample_zipf = λ d n. (n, n + 1);
}

abbrev pub field : Field
field = record { length = 2; weight = 1; cardinality = 10; field_type = FieldType.alphanumeric }

-- One keyspace with one command.
abbrev pub keyspace : Verb → Keyspace counter
keyspace verb = record {
  length = 3;
  weight = 1;
  cardinality = 10;
  commands = record { verb = verb; weight = 1 } ∷ [];
  command_dist = tt;
  inner_keys = field ∷ [];
  inner_key_dist = some tt;
  values = field ∷ [];
  value_dist = some tt;
  ttl = 9;
  key_type = FieldType.alphanumeric;
  batch_size = 2;
  key_distribution = uniform tt;
}

abbrev pub config : Verb → Config counter
config verb = record { keyspaces = keyspace verb ∷ []; keyspace_dist = tt }

length-loaded : (ys : Bytes) → length ys ≤ 64 → length (loaded ys).buffer ≡ 64
length-loaded ys k = omega (
  arith,
  length-append ys (replicate (64 - length ys) 0),
  length-replicate {A = ℕ} (64 - length ys) 0,
)

pub loaded-IsValid : (ys : Bytes) → length ys ≤ 64 → IsValid (loaded ys)
loaded-IsValid ys k = omega (arith, length-loaded ys k)

pub borrow-loaded : (ys : Bytes) → length ys ≤ 64 → borrow (loaded ys) ≡ ys
borrow-loaded ys k =
    borrow_compact (loaded-IsValid ys k)
    ∙ take-append_eq (length ys) ys (replicate (64 - length ys) 0) refl

-- Such a session is ready, and its buffer is what it was given.
pub holding-IsReady : (xs incoming : Bytes) → length xs ≤ 64 → IsReady (holding xs incoming)
holding-IsReady xs incoming h = record {
  reads = loaded-IsValid xs h;
  writes = loaded-IsValid [] (omega arith);
  size = record { exponent = 6; power = length-loaded xs h };
  min_power = record { exponent = 6; power = refl };
  max_power = record { exponent = 8; power = refl };
  max_small = omega arith;
  at_least = refl;
  at_most = omega (arith, length-loaded xs h);
}

pub buffer-holding : (xs incoming : Bytes) → length xs ≤ 64 → buffer (holding xs incoming) ≡ xs
buffer-holding xs incoming h = buffer_lem (holding xs incoming) ∙ borrow-loaded xs h

-- There is room in its write buffer.
pub holding-room :
    (xs incoming : Bytes) (n : ℕ)
    → n ≤ 2 ^ 32
    → length (borrow (holding xs incoming).write_buffer) + n ≤ 2 ^ 62
holding-room xs incoming n h = omega (arith, ap length (borrow-loaded [] (omega arith)))
