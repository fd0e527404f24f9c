-- ===== src/Auth/Lockout/Memory.antt =====
-- Without Redis: the fifth failure locks an identity for a window, and no earlier one does.
use bookingqube_nest_backend.Prelude.{
  ℕ, zero, suc, ◌+◌, ◌<◌, ◌≤◌, ◌≡◌, refl, ◌∙◌, ap, String, Option, none, some, List, [], ◌∷◌, Bool,
  false, ◌&&◌, ltb, ◌==◌, if◌then◌else◌, arith, length,
}
use bookingqube_nest_backend.Prelude.Text.{Text}
use bookingqube_nest_backend.Auth.Lockout.{
  MemorySlot, State, Faults, max_failures, window_ms, put, key, next_slot, record_in_memory,
  record_failure, is_locked, is_locked_in_memory,
}

-- Failures of one identity, in order, with no Redis.
unfoldable pub record_failures : State → Faults → List ℕ → String → Text → State
record_failures s faults [] scope identity = s
record_failures s faults (now ∷ times) scope identity =
    record_failures (record_failure s faults now scope identity) faults times scope identity

abbrev pub last : List ℕ → ℕ
last [] = 0
last (t ∷ []) = t
last (t ∷ u ∷ times) = last (u ∷ times)

-- What a count of failures short of the limit leaves in the map.
abbrev pub slot_of : ℕ → Option MemorySlot
slot_of zero = none
slot_of (suc n) = some (record { failures = suc n; locked_until = 0 })

abbrev pub slots : List ℕ → Option MemorySlot → Option MemorySlot
slots [] o = o
slots (t ∷ times) o = slots times (some (next_slot t o))

abbrev outcome : ℕ → List ℕ → Option MemorySlot
outcome n times =
    if n == max_failures
    then some (record { failures = n; locked_until = last times + window_ms })
    else slot_of n

next_slot_low : (n t : ℕ) → suc n < max_failures → some (next_slot t (slot_of n)) ≡ slot_of (suc n)
unfolding next_slot
next_slot_low zero t h = refl
next_slot_low (suc n) t h = ground arith

next_slot_lock :
    (n t : ℕ)
    → suc n ≡ max_failures
    → next_slot t (slot_of n) ≡ record { failures = suc n; locked_until = t + window_ms }
unfolding next_slot
next_slot_lock zero t h = ground arith
next_slot_lock (suc n) t h = ground arith

slots_lem :
    (n t : ℕ) (times : List ℕ)
    → n + length (t ∷ times) ≤ max_failures
    → slots (t ∷ times) (slot_of n) ≡ outcome (n + length (t ∷ times)) (t ∷ times)
slots_lem n t [] h = ground (arith, next_slot_low n t, next_slot_lock n t)
slots_lem n t (u ∷ times) h =
    ap (slots (u ∷ times)) (next_slot_low n t (omega arith))
    ∙ slots_lem (suc n) u times (omega arith)
    ∙ ap (λ m. outcome m (u ∷ times)) (omega arith)

record_failure_off :
    (s : State) (faults : Faults) (now : ℕ) (scope : String) (identity k : Text)
    → s.redis_ready ≡ false
    → key scope identity ≡ some k
    → record_failure s faults now scope identity
      ≡ record s { memory = put s.memory k (some (next_slot now (s.memory k))) }
unfolding record_failure record_in_memory
record_failure_off s faults now scope identity k off e = rw (e, record_failure) (simp off)

pub put_self : {V : Type 0} (f : Text → Option V) (k : Text) (v : Option V) → put f k v k ≡ v
put_self f k v = ground arith

record_failures_off :
    (s : State) (faults : Faults) (times : List ℕ) (scope : String) (identity k : Text)
    → s.redis_ready ≡ false
    → key scope identity ≡ some k
    → ((record_failures s faults times scope identity).memory k ≡ slots times (s.memory k))
      × ((record_failures s faults times scope identity).redis_ready ≡ false)
unfolding record_failures
record_failures_off s faults [] scope identity k off e = (refl, off)
record_failures_off s faults (now ∷ times) scope identity k off e =
    let next = record_failure s faults now scope identity in
    let same = record_failure_off s faults now scope identity k off e in
    let (slot, still) =
      record_failures_off next faults times scope identity k
        (ap (λ (t : State). t.redis_ready) same ∙ off) e in
    (
      slot
          ∙ ap (slots times) (
              ap (λ (t : State). t.memory k) same
              ∙ put_self s.memory k (some (next_slot now (s.memory k)))),
      still,
    )

is_locked_off :
    (s : State) (x : Bool) (now : ℕ) (k : Text)
    → s.redis_ready ≡ false
    → (is_locked s x now k).1 ≡ (is_locked_in_memory s now k).1
unfolding is_locked
is_locked_off s x now k off = simp off

-- The answer is read off the slot.
abbrev pub slot_locked : ℕ → Option MemorySlot → Bool
slot_locked now none = false
slot_locked now (some slot) = ltb now slot.locked_until

pub is_locked_in_memory_lem :
    (s : State) (now : ℕ) (k : Text)
    → (is_locked_in_memory s now k).1 ≡ slot_locked now (s.memory k)
unfolding is_locked_in_memory
is_locked_in_memory_lem s now k = ground arith

slots_locked :
    (now : ℕ) (times : List ℕ)
    → length times ≤ max_failures
    → slot_locked now (slots times none)
      ≡ ((length times == max_failures) && ltb now (last times + window_ms))
slots_locked now [] h = refl
slots_locked now (t ∷ times) h =
    ap (slot_locked now) (slots_lem 0 t times (omega arith)) ∙ ground arith

-- Without Redis, an identity, not blank and with no slot in memory, that then has at most five
-- failures, at whatever times, is locked exactly if there were five, until fifteen minutes after the
-- last.
pub memory_lockout :
    (s : State) (faults : Faults) (times : List ℕ) (x : Bool) (now : ℕ) (scope : String)
    (identity k : Text)
    → s.redis_ready ≡ false
    → key scope identity ≡ some k
    → s.memory k ≡ none
    → length times ≤ max_failures
    → (is_locked (record_failures s faults times scope identity) x now k).1
      ≡ ((length times == max_failures) && ltb now (last times + window_ms))
memory_lockout s faults times x now scope identity k off e fresh h =
    let t = record_failures s faults times scope identity in
    let (slot, still) = record_failures_off s faults times scope identity k off e in
    is_locked_off t x now k still
    ∙ is_locked_in_memory_lem t now k
    ∙ ap (slot_locked now) (slot ∙ ap (slots times) fresh)
    ∙ slots_locked now times h
