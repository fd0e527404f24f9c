-- ===== src/Auth/Lockout.antt =====
-- `LoginLockoutService` of src/common/auth/login-lockout.service.ts. Times are in milliseconds.
pub mod Memory
pub mod Remote
use bookingqube_nest_backend.Prelude.{
  ℕ, ◌+◌, ◌*◌, suc, String, Option, none, some, List, [], ◌∷◌, ◌++◌, Bool, true, false, not, ◌&&◌,
  ◌||◌, leb, ltb, ◌==◌, ite, if◌then◌else◌, is_some,
}
use bookingqube_nest_backend.Prelude.Text.{Text, codes, codes_dec, lower, trim}
use bookingqube_nest_backend.Prelude.Http.{Result, ok, err, unauthorized}

abbrev pub max_failures : ℕ
max_failures = 5

abbrev pub window_seconds : ℕ
window_seconds = 15 * 60

abbrev pub window_ms : ℕ
window_ms = window_seconds * 1000

pub record MemorySlot : Type 0 where
  pub failures : ℕ
  pub locked_until : ℕ

-- A Redis value with the time at which it expires, if it does.
pub record Counter : Type 0 where
  pub count : ℕ
  pub expires : Option ℕ

pub record State : Type 0 where
  pub memory : Text → Option MemorySlot
  pub redis_ready : Bool
  pub counters : Text → Option Counter
  pub locks : Text → Option ℕ

-- Which of the commands of a call throw.
pub record Faults : Type 0 where
  pub incr_throws : Bool
  pub expire_throws : Bool
  pub set_throws : Bool

abbrev pub put {ℓ} : {V : Type ℓ} → (Text → Option V) → Text → Option V → Text → Option V
put f k v j = ite (codes_dec k j) v (f j)

unfoldable pub key : String → Text → Option Text
unfolding lower trim
key scope identity = elim (lower (trim identity)) [
  | [] ↦ none
  | c ∷ rest ↦ some (codes scope ++ b':' ∷ c ∷ rest)
]

abbrev pub is_live : ℕ → Option ℕ → Bool
is_live now none = true
is_live now (some t) = ltb now t

-- `INCR` and `EXPIRE` of the failure counter, and `SET … EX` of the lock.
abbrev pub incremented : ℕ → Option Counter → Counter
incremented now none = record { count = 1; expires = none }
incremented now (some c) =
    if is_live now c.expires
    then record c { count = c.count + 1 }
    else record { count = 1; expires = none }

-- The slot that a failure leaves: a count that a lock has not outlived goes on.
unfoldable pub next_slot : ℕ → Option MemorySlot → MemorySlot
next_slot now existing = record {
  failures = suc before;
  locked_until = if leb max_failures (suc before) then now + window_ms else 0;
}
  where
    before : ℕ
    before = elim existing [
      | none ↦ 0
      | some slot ↦ if slot.locked_until == 0 || ltb now slot.locked_until then slot.failures else 0
    ]

unfoldable pub record_in_memory : State → ℕ → Text → State
unfolding next_slot
record_in_memory s now k = record s { memory = put s.memory k (some (next_slot now (s.memory k))) }

-- The commands of the `try` block; the second part says whether one of them threw.
unfoldable pub record_in_redis : State → Faults → ℕ → Text → State × Bool
record_in_redis s faults now k =
    if faults.incr_throws
    then (s, true)
    else if c.count == 1 && faults.expire_throws
    then (counted, true)
    else if leb max_failures c.count && faults.set_throws
    then (expiring, true)
    else (locked, false)
  where
    c : Counter
    c = incremented now (s.counters k)

    counted : State
    counted = record s { counters = put s.counters k (some c) }

    expiring : State
    expiring =
        if c.count == 1
        then record counted {
          counters = put counted.counters k (some (record c { expires = some (now + window_ms) }));
        }
        else counted

    locked : State
    locked =
        if leb max_failures c.count
        then record expiring { locks = put expiring.locks k (some (now + window_ms)) }
        else expiring

abbrev pub or_memory : ℕ → Text → State × Bool → State
or_memory now k (s, true) = record_in_memory s now k
or_memory now k (s, false) = s

unfoldable pub record_failure : State → Faults → ℕ → String → Text → State
record_failure s faults now scope identity = elim (key scope identity) [
  | none ↦ s
  | some k ↦
      if s.redis_ready
      then or_memory now k (record_in_redis s faults now k)
      else record_in_memory s now k
]

-- The flag says whether `DEL` throws, which is ignored.
unfoldable pub clear : State → Bool → String → Text → State
clear s del_throws scope identity = elim (key scope identity) [
  | none ↦ s
  | some k ↦
      let forgotten : State = record s { memory = put s.memory k none } in
      if s.redis_ready && not del_throws
      then record forgotten { counters = put s.counters k none; locks = put s.locks k none }
      else forgotten
]

unfoldable pub is_locked_in_memory : State → ℕ → Text → State × Bool
is_locked_in_memory s now k = elim (s.memory k) [
  | none ↦ (s, false)
  | some slot ↦
      if ltb now slot.locked_until
      then (s, true)
      else if slot.locked_until == 0
      then (s, false)
      else (record s { memory = put s.memory k none }, false)
]

abbrev pub lock_holds : ℕ → Option ℕ → Bool
lock_holds now none = false
lock_holds now (some t) = ltb now t

unfoldable pub is_locked : State → Bool → ℕ → Text → State × Bool
is_locked s exists_throws now k =
    if s.redis_ready && not exists_throws
    then (s, lock_holds now (s.locks k))
    else is_locked_in_memory s now k

unfoldable pub assert_not_locked :
    State → Bool → ℕ → String → Text → String → State × Result (Unit {0})
assert_not_locked s exists_throws now scope identity message = elim (key scope identity) [
  | none ↦ (s, ok tt)
  | some k ↦
      let (after, locked) = is_locked s exists_throws now k in
      (after, if locked then err (unauthorized message) else ok tt)
]
