-- ===== src/Codec/Redis/Commands.antt =====
-- src/codec/redis.rs: the bytes that a request puts on the wire, in both modes.
use rpc_perf.Base.{
  ◌+◌, ◌≡◌, ◌≢◌, refl, sym, ap, ◌∙◌, subst, Bool, true, false, ==_iff, ==_false, Option, ◌==◌,
  if◌then◌else◌, List, [], ◌∷◌, ◌++◌, append_assoc, append-nil, length, ◌≤◌, ◌^◌,
}
use rpc_perf.Base.Bytes.{Bytes, codes, crlf}
use rpc_perf.Base.Outcome.{ret}
use rpc_perf.Metrics.{Metrics}
use rpc_perf.Net.{Net}
use rpc_perf.Rand.{Rand}
use rpc_perf.Keyspace.{
  Keyspace, Config, Command, Verb, generate_key, generate_inner_key, generate_value,
  choose_keyspace, choose_command, or_empty,
}
use rpc_perf.Keyspace.Draws.{draw_keys}
use rpc_perf.Session.{Session}
use rpc_perf.Session.Ready.{IsReady}
use rpc_perf.Buffer.{borrow}
use rpc_perf.Writer.{Emitted, emitted}
use rpc_perf.Writer.{
  Emits, Emits-put, Emits-pure, Emits-then, Emits-put_then, Emits-lift, Emits-of_eq,
}
use rpc_perf.Base.Decimal.{to_decimal}
use rpc_perf.Codec.Redis.{
  Mode, inline, resp, command, inline_args, resp_args, request, encode, count_get, set_args,
  hget_args, hset_args,
}
use rpc_perf.Codec.Redis.Bulk.{bulk}

-- Bulk strings one after the other, and words each after a space.
pub bulks : List Bytes → Bytes
bulks [] = []
bulks (item ∷ items) = bulk item ++ bulks items

pub words : List Bytes → Bytes
words [] = []
words (word ∷ rest) = b' ' ∷ (word ++ words rest)

-- The request as the protocol has it: a line of words, or an array of bulk strings.
unfoldable pub wire : Mode → Bytes → List Bytes → Bytes
unfolding bulks words
wire inline name args = name ++ (words args ++ crlf)
wire resp name args = b'*' ∷ (to_decimal (1 + length args) ++ (crlf ++ bulks (name ∷ args)))

-- What the loop over the arguments writes, each after the line end of the item before it.
between : List Bytes → Bytes
between [] = []
between (arg ∷ args) = (codes "\r\n$" ++ (to_decimal (length arg) ++ crlf)) ++ (arg ++ between args)

between-bulks : (args : List Bytes) → between args ++ crlf ≡ crlf ++ bulks args
unfolding between bulks
between-bulks [] = refl
between-bulks (arg ∷ args) =
    ap (λ t. codes "\r\n$" ++ t)
      (ap (λ t. t ++ crlf) (append_assoc (to_decimal (length arg)) crlf _)
        ∙ append_assoc (to_decimal (length arg)) _ crlf
        ∙ ap (λ t. to_decimal (length arg) ++ (crlf ++ t))
            (append_assoc arg _ crlf
              ∙ ap (λ t. arg ++ t) (between-bulks args)
              ∙ sym (append_assoc arg crlf (bulks args)))
        ∙ sym (append_assoc (to_decimal (length arg)) (crlf ++ (arg ++ crlf)) (bulks args)))

module _ (net : Net) where
  inline_args-Emits : (args : List Bytes) → Emits (inline_args net args) tt (words args)
  unfolding inline_args words
  inline_args-Emits [] = Emits-pure net tt
  inline_args-Emits (arg ∷ args) =
      Emits-put_then (codes " ") _ tt _ (Emits-put_then arg _ tt _ (inline_args-Emits args))

  resp_args-Emits : (args : List Bytes) → Emits (resp_args net args) tt (between args)
  unfolding resp_args between
  resp_args-Emits [] = Emits-pure net tt
  resp_args-Emits (arg ∷ args) =
      Emits-put_then _ _ tt _ (Emits-put_then arg _ tt _ (resp_args-Emits args))

  -- In each mode, a command and its arguments are written as the protocol has them.
  pub command-Emits :
      (mode : Mode) (name : Bytes) (args : List Bytes)
      → Emits (command net mode name args) tt (wire mode name args)
  unfolding command wire
  command-Emits inline name args =
      Emits-put_then name _ tt _
        (Emits-then (inline_args net args) _ tt _ _ (inline_args-Emits args) (Emits-put net crlf))
  command-Emits resp name args = Emits-of_eq _ tt text (
      Emits-put_then _ _ tt _
        (Emits-then (resp_args net args) _ tt _ _ (resp_args-Emits args) (Emits-put net crlf)))
    where
      count : Bytes
      count = to_decimal (1 + length args)

      size : Bytes
      size = to_decimal (length name)

      -- The line end after an item belongs to the item.
      item :
          (size ++ (crlf ++ name)) ++ (between args ++ crlf)
          ≡ size ++ ((crlf ++ (name ++ crlf)) ++ bulks args)
      item =
          append_assoc size (crlf ++ name) _
          ∙ ap (λ t. size ++ (crlf ++ t))
              (ap (λ t. name ++ t) (between-bulks args) ∙ sym (append_assoc name crlf (bulks args)))

      text :
          (codes "*" ++ (count ++ (codes "\r\n$" ++ (size ++ (crlf ++ name)))))
            ++ (between args ++ crlf)
          ≡ b'*' ∷ (count ++ (crlf ++ (bulk name ++ bulks args)))
      text =
          ap (λ t. b'*' ∷ t)
            (append_assoc count _ _
              ∙ ap (λ t. count ++ (codes "\r\n$" ++ t))
                  (item ∙ sym (append_assoc size (crlf ++ (name ++ crlf)) (bulks args))))

request-Emits :
    (net : Net) {rand : Rand} (mode : Mode) (config : Config rand) (rng₀ rng₁ rng₂ rng₃ : rand.Rng)
    (m : Metrics) (keyspace : Keyspace rand) (chosen : Command) (name : Bytes) (args : List Bytes)
    → choose_keyspace config rng₀ ≡ ret (keyspace, rng₁)
    → choose_command keyspace rng₁ ≡ ret (chosen, rng₂)
    → request chosen.verb keyspace rng₂ ≡ ret (name, args, rng₃)
    → Emits (encode net mode config rng₀ m) (rng₃, count_get chosen.verb m) (wire mode name args)
unfolding encode
request-Emits net mode config rng₀ rng₁ rng₂ rng₃ m keyspace chosen name args k c q =
    Emits-lift _ _ _ _ _ k (
      Emits-lift _ _ _ _ _ c (
        Emits-lift _ _ _ _ _ q (
          Emits-of_eq _ _ (append-nil _) (
            Emits-then (command net mode name args) _ _ _ _ (command-Emits net mode name args)
              (Emits-pure net _)))))

-- The requests of redis: what each verb sends, drawn from a generator, with the generator and the
-- counters after it. The reads get, mget and hget are counted, and nothing else is.
pub data Asks {rand : Rand} (keyspace : Keyspace rand) (rng : rand.Rng) (m : Metrics)
    : Verb → Bytes → List Bytes → rand.Rng × Metrics → Type 0 where
  gets :
      keyspace.batch_size ≡ 1
      → Asks keyspace rng m Verb.get
          (codes "get")
          ((generate_key keyspace rng).0 ∷ [])
          ((generate_key keyspace rng).1, record m { request_get = m.request_get + 1 })
  mgets :
      keyspace.batch_size ≢ 1
      → Asks keyspace rng m Verb.get (codes "mget") (draw_keys keyspace keyspace.batch_size rng).0 (
        (draw_keys keyspace keyspace.batch_size rng).1,
        record m { request_get = m.request_get + 1 },
      )
  sets :
      (drawn : Option Bytes) (rng' : rand.Rng)
      → generate_value keyspace (generate_key keyspace rng).1 ≡ ret (drawn, rng')
      → keyspace.ttl ≡ 0
      → Asks keyspace rng m Verb.set
          (codes "set")
          ((generate_key keyspace rng).0 ∷ or_empty drawn ∷ [])
          (rng', m)
  sets_expiring :
      (drawn : Option Bytes) (rng' : rand.Rng)
      → generate_value keyspace (generate_key keyspace rng).1 ≡ ret (drawn, rng')
      → keyspace.ttl ≢ 0
      → Asks keyspace rng m Verb.set
          (codes "set")
          ((generate_key keyspace rng).0
            ∷ or_empty drawn
            ∷ codes "EX"
            ∷ to_decimal keyspace.ttl
            ∷ [])
          (rng', m)
  deletes :
      Asks keyspace rng m Verb.delete
        (codes "del")
        ((generate_key keyspace rng).0 ∷ [])
        ((generate_key keyspace rng).1, m)
  hgets :
      (field : Option Bytes) (rng' : rand.Rng)
      → generate_inner_key keyspace (generate_key keyspace rng).1 ≡ ret (field, rng')
      → Asks keyspace rng m Verb.hget
          (codes "hget")
          ((generate_key keyspace rng).0 ∷ or_empty field ∷ [])
          (rng', record m { request_get = m.request_get + 1 })
  hdels :
      (field : Option Bytes) (rng' : rand.Rng)
      → generate_inner_key keyspace (generate_key keyspace rng).1 ≡ ret (field, rng')
      → Asks keyspace rng m Verb.hdel
          (codes "hdel")
          ((generate_key keyspace rng).0 ∷ or_empty field ∷ [])
          (rng', m)
  hsets :
      (field drawn : Option Bytes) (rng' rng'' : rand.Rng)
      → generate_inner_key keyspace (generate_key keyspace rng).1 ≡ ret (field, rng')
      → generate_value keyspace rng' ≡ ret (drawn, rng'')
      → Asks keyspace rng m Verb.hset
          (codes "hset")
          ((generate_key keyspace rng).0 ∷ or_empty field ∷ or_empty drawn ∷ [])
          (rng'', m)
  hsetnxs :
      (field drawn : Option Bytes) (rng' rng'' : rand.Rng)
      → generate_inner_key keyspace (generate_key keyspace rng).1 ≡ ret (field, rng')
      → generate_value keyspace rng' ≡ ret (drawn, rng'')
      → Asks keyspace rng m Verb.hsetnx
          (codes "hsetnx")
          ((generate_key keyspace rng).0 ∷ or_empty field ∷ or_empty drawn ∷ [])
          (rng'', m)

module _ {rand : Rand} (keyspace : Keyspace rand) (rng : rand.Rng) where
  set_args_lem :
      (drawn : Option Bytes) (rng' : rand.Rng) (t : Bool)
      → generate_value keyspace (generate_key keyspace rng).1 ≡ ret (drawn, rng')
      → (keyspace.ttl == 0) ≡ t
      → set_args keyspace rng
        ≡ ret (
          if t
              then (generate_key keyspace rng).0 ∷ or_empty drawn ∷ []
              else (generate_key keyspace rng).0
                ∷ or_empty drawn
                ∷ codes "EX"
                ∷ to_decimal keyspace.ttl
                ∷ [],
          rng',
        )
  unfolding set_args
  set_args_lem drawn rng' t e h = rw (e, set_args, h) refl

  hget_args_lem :
      (field : Option Bytes) (rng' : rand.Rng)
      → generate_inner_key keyspace (generate_key keyspace rng).1 ≡ ret (field, rng')
      → hget_args keyspace rng ≡ ret ((generate_key keyspace rng).0 ∷ or_empty field ∷ [], rng')
  unfolding hget_args
  hget_args_lem field rng' e = rw (e, hget_args) refl

  hset_args_lem :
      (field drawn : Option Bytes) (rng' rng'' : rand.Rng)
      → generate_inner_key keyspace (generate_key keyspace rng).1 ≡ ret (field, rng')
      → generate_value keyspace rng' ≡ ret (drawn, rng'')
      → hset_args keyspace rng
        ≡ ret ((generate_key keyspace rng).0 ∷ or_empty field ∷ or_empty drawn ∷ [], rng'')
  unfolding hset_args
  hset_args_lem field drawn rng' rng'' e f = rw (e, f, hset_args) refl

-- The code draws and counts what the verb asks for.
request-Asks :
    {rand : Rand} (keyspace : Keyspace rand) (rng : rand.Rng) (m : Metrics) (verb : Verb)
    (name : Bytes) (args : List Bytes) (after : rand.Rng × Metrics)
    → Asks keyspace rng m verb name args after
    → (request verb keyspace rng ≡ ret (name, args, after.0)) × (count_get verb m ≡ after.1)
unfolding request count_get
request-Asks keyspace rng m _ _ _ _ (gets e) = (rw ((==_iff _ 1).1 e, request) refl, refl)
request-Asks keyspace rng m _ _ _ _ (mgets e) = (rw (==_false _ 1 e, request) refl, refl)
request-Asks keyspace rng m _ _ _ _ (sets drawn rng' e h) =
    (rw (set_args_lem keyspace rng drawn rng' true e ((==_iff _ 0).1 h), request) refl, refl)
request-Asks keyspace rng m _ _ _ _ (sets_expiring drawn rng' e h) =
    (rw (set_args_lem keyspace rng drawn rng' false e (==_false _ 0 h), request) refl, refl)
request-Asks keyspace rng m _ _ _ _ deletes = (refl, refl)
request-Asks keyspace rng m _ _ _ _ (hgets field rng' e) =
    (rw (hget_args_lem keyspace rng field rng' e, request) refl, refl)
request-Asks keyspace rng m _ _ _ _ (hdels field rng' e) =
    (rw (hget_args_lem keyspace rng field rng' e, request) refl, refl)
request-Asks keyspace rng m _ _ _ _ (hsets field drawn rng' rng'' e f) =
    (rw (hset_args_lem keyspace rng field drawn rng' rng'' e f, request) refl, refl)
request-Asks keyspace rng m _ _ _ _ (hsetnxs field drawn rng' rng'' e f) =
    (rw (hset_args_lem keyspace rng field drawn rng' rng'' e f, request) refl, refl)

-- When a keyspace and a command are drawn, and the verb of the command asks for a name and
-- arguments, encode on a ready session with room for the request appends exactly that request as
-- the protocol has it, a line of words in inline mode and an array of bulk strings in RESP mode.
-- The names are get, mget for a batch size other than 1, set, del, hget, hdel, hset and hsetnx;
-- the arguments are the drawn key or keys, field and value that the name takes, and for a set with
-- a time to live "EX" and that time. Get, mget and hget are counted, and no other.
pub redis_request :
    (net : Net) {rand : Rand} (mode : Mode) (config : Config rand) (rng₀ rng₁ rng₂ : rand.Rng)
    (m : Metrics) (keyspace : Keyspace rand) (chosen : Command) (name : Bytes) (args : List Bytes)
    (after : rand.Rng × Metrics)
    → choose_keyspace config rng₀ ≡ ret (keyspace, rng₁)
    → choose_command keyspace rng₁ ≡ ret (chosen, rng₂)
    → Asks keyspace rng₂ m chosen.verb name args after
    → (s : Session net) → IsReady s
    → length (borrow s.write_buffer) + length (wire mode name args) ≤ 2 ^ 62
    → Emitted (encode net mode config rng₀ m) after (wire mode name args) s
redis_request net mode config rng₀ rng₁ rng₂ m keyspace chosen name args after k c asks s r h =
    let (drawn, counted) = request-Asks keyspace rng₂ m chosen.verb name args after asks in
    emitted _ _ _ s
      (subst (λ m'. Emits (encode net mode config rng₀ m) (after.0, m') (wire mode name args))
        counted
        (request-Emits net mode config rng₀ rng₁ rng₂ after.0 m keyspace chosen name args k c
          drawn))
      r h
