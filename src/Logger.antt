-- ===== src/Logger.antt =====
-- cmd-drivers/logger/logger.go. The levels, the reading of their names and the loggers are those of
-- zerolog, and are parameters.
use kubernetes_external_prov.Base.{
  Option, Result, String, [], err, errorf, if◌then◌else◌, none, ok, refl, some, suc, zero, ℕ, ◌==◌,
  ◌≡◌,
}

-- A context: the empty one, one with a logger in it, and one with something else added, such as a
-- deadline or a value under another key.
pub data Context (L : Type 0) : Type 0 where
  background : Context L
  with_value : L → Context L → Context L
  derived : Context L → Context L

-- `ctx.Value(loggerKey)`
unfoldable pub value_of : {L : Type 0} → Context L → Option L
value_of background = none
value_of (with_value l ctx) = some l
value_of (derived ctx) = value_of ctx

-- `InitLogger`: the level, from its name.
unfoldable pub init_level : {Level : Type 0} → (String → Result Level) → Level → String → Level
init_level parse_level warn_level level = elim (parse_level level) [
  | err e ↦ warn_level
  | ok parsed ↦ if level == "" then warn_level else parsed
]

module _ {L Level : Type 0} where
  -- `InitLogger`; `new_logger` is the console logger at a level.
  unfoldable pub init_logger : (String → Result Level) → Level → (Level → L) → String → L
  unfolding init_level
  init_logger parse_level warn_level new_logger level =
      new_logger (init_level parse_level warn_level level)

module _ {L : Type 0} where
  -- `WithLogger`
  abbrev pub with_logger : Context L → L → Context L
  with_logger ctx l = with_value l ctx

  -- `FromContext`, of a context or nil; `nop` is the logger that discards.
  unfoldable pub from_context : L → Option (Context L) → L
  unfolding value_of
  from_context nop none = nop
  from_context nop (some ctx) = elim (value_of ctx) [ none ↦ nop | some l ↦ l ]

  -- `Get`, where an error stands for a panic.
  unfoldable pub get : Option (Context L) → Result L
  unfolding value_of
  get none = err (errorf "context is nil" [])
  get (some ctx) = elim (value_of ctx) [
    | none ↦ err (errorf "logger not found in context" [])
    | some l ↦ ok l
  ]

-- A logger that was put into a context is found in all that is derived from it.
abbrev pub derive : {L : Type 0} → ℕ → Context L → Context L
derive zero ctx = ctx
derive (suc n) ctx = derived (derive n ctx)

value_of-derive : {L : Type 0} (n : ℕ) (ctx : Context L) → value_of (derive n ctx) ≡ value_of ctx
unfolding value_of
value_of-derive zero ctx = refl
value_of-derive (suc n) ctx = value_of-derive n ctx

-- However often a context is derived from one that a logger was put into, `FromContext` and `Get` give
-- that logger.
pub from_context-derive :
    {L : Type 0} (nop l : L) (n : ℕ) (ctx : Context L)
    → (from_context nop (some (derive n (with_logger ctx l))) ≡ l)
      × (get (some (derive n (with_logger ctx l))) ≡ ok l)
unfolding from_context get
from_context-derive nop l n ctx = (
  rw (value_of-derive n (with_logger ctx l), from_context),
  rw (value_of-derive n (with_logger ctx l), get),
)
