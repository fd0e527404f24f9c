-- ===== src/Auth/Lockout/Remote.antt =====
-- With Redis: the fifth failure within a window locks an identity. Clearing unlocks it, and the
-- failures of one identity do not touch another.
use bookingqube_nest_backend.Prelude.{
  ◌⊎◌, ℕ, suc, ◌+◌, ◌<◌, ◌≤◌, ◌≡◌, ◌≢◌, refl, ◌∙◌, ap, String, Option, none, some, List, [], ◌∷◌,
  Bool, true, false, ◌&&◌, leb, ltb, ◌==◌, if◌then◌else◌, arith, length, All,
}
use bookingqube_nest_backend.Prelude.Text.{Text}
use bookingqube_nest_backend.Auth.Lockout.{
  State, Faults, Counter, max_failures, window_ms, put, key, incremented, record_in_memory,
  record_in_redis, or_memory, record_failure, is_locked, clear, lock_holds,
}
use bookingqube_nest_backend.Auth.Lockout.Memory.{record_failures, last, is_locked_in_memory_lem}

abbrev pub no_faults : Faults
no_faults = record { incr_throws = false; expire_throws = false; set_throws = false }

-- The counter after one more failure, whose window begins with the first.
unfoldable pub next_counter : ℕ → Option Counter → Counter
next_counter now o =
    if (incremented now o).count == 1
    then record { count = 1; expires = some (now + window_ms) }
    else incremented now o

abbrev next_lock : ℕ → ℕ → Option ℕ → Option ℕ
next_lock now count lock = if leb max_failures count then some (now + window_ms) else lock

record_in_redis_lem :
    (s : State) (now : ℕ) (k : Text)
    → ((record_in_redis s no_faults now k).1 ≡ false)
      × ((record_in_redis s no_faults now k).0.counters k ≡ some (next_counter now (s.counters k)))
      × ((record_in_redis s no_faults now k).0.locks k
          ≡ next_lock now (next_counter now (s.counters k)).count (s.locks k))
      × ((record_in_redis s no_faults now k).0.redis_ready ≡ s.redis_ready)
unfolding record_in_redis next_counter
record_in_redis_lem s now k = ground arith

-- The counter and the lock of one identity after failures at the times.
abbrev counters_after : List ℕ → Option Counter → Option Counter
counters_after [] o = o
counters_after (t ∷ times) o = counters_after times (some (next_counter t o))

abbrev locks_after : List ℕ → Option Counter → Option ℕ → Option ℕ
locks_after [] o lock = lock
locks_after (t ∷ times) o lock =
    locks_after times (some (next_counter t o)) (next_lock t (next_counter t o).count lock)

record_failure_ready :
    (s : State) (now : ℕ) (scope : String) (identity k : Text)
    → s.redis_ready ≡ true
    → key scope identity ≡ some k
    → record_failure s no_faults now scope identity ≡ (record_in_redis s no_faults now k).0
unfolding record_failure
record_failure_ready s now scope identity k ready e =
    rw (e, record_failure)
      (simp ready
        (or_memory_done (record_in_redis s no_faults now k) (record_in_redis_lem s now k).0))
  where
    or_memory_done : (r : State × Bool) → r.1 ≡ false → or_memory now k r ≡ r.0
    or_memory_done (t, true) h = cc
    or_memory_done (t, false) h = refl

-- The parts of the state that one identity's failures write.
record At (s : State) (k : Text) (c : Option Counter) (lock : Option ℕ) : Type 0 where
  counter_lem : s.counters k ≡ c
  lock_lem : s.locks k ≡ lock
  ready_lem : s.redis_ready ≡ true

record_failure-At :
    (s : State) (now : ℕ) (scope : String) (identity k : Text) (c : Option Counter)
    (lock : Option ℕ)
    → key scope identity ≡ some k
    → At s k c lock
    → At
        (record_failure s no_faults now scope identity)
        k
        (some (next_counter now c))
        (next_lock now (next_counter now c).count lock)
record_failure-At s now scope identity k c lock e a =
    let (_, counts, locked, ready) = record_in_redis_lem s now k in
    rw (record_failure_ready s now scope identity k a.ready_lem e) (record {
      counter_lem = counts ∙ ap (λ o. some (next_counter now o)) a.counter_lem;
      lock_lem =
          locked
          ∙ ap (λ o. next_lock now (next_counter now o).count (s.locks k)) a.counter_lem
          ∙ ap (next_lock now (next_counter now c).count) a.lock_lem;
      ready_lem = ready ∙ a.ready_lem;
    })

record_failures-At :
    (s : State) (times : List ℕ) (scope : String) (identity k : Text) (c : Option Counter)
    (lock : Option ℕ)
    → key scope identity ≡ some k
    → At s k c lock
    → At
        (record_failures s no_faults times scope identity)
        k
        (counters_after times c)
        (locks_after times c lock)
unfolding record_failures
record_failures-At s [] scope identity k c lock e a = a
record_failures-At s (now ∷ times) scope identity k c lock e a =
    record_failures-At (record_failure s no_faults now scope identity) times scope identity k
      (some (next_counter now c)) (next_lock now (next_counter now c).count lock) e
      (record_failure-At s now scope identity k c lock e a)

counter_of : ℕ → ℕ → Option Counter
counter_of first n = some (record { count = suc n; expires = some (first + window_ms) })

next_counter_live :
    (first n t : ℕ)
    → t < first + window_ms
    → some (next_counter t (counter_of first n)) ≡ counter_of first (suc n)
unfolding next_counter counter_of
next_counter_live first n t h = ground arith

next_count :
    (first n t : ℕ)
    → t < first + window_ms
    → (next_counter t (counter_of first n)).count ≡ suc (suc n)
unfolding next_counter counter_of
next_count first n t h = ground arith

-- The lock after the later failures of a window, n + 1 having gone before.
locks_lem :
    (first n t : ℕ) (times : List ℕ)
    → n + length (t ∷ times) < max_failures
    → All (λ u. u < first + window_ms) (t ∷ times)
    → locks_after (t ∷ times) (counter_of first n) none ≡ (
        if suc (n + length (t ∷ times)) == max_failures
        then some (last (t ∷ times) + window_ms)
        else none)
locks_lem first n t [] h live = ground (arith, next_count first n t live.0)
locks_lem first n t (u ∷ times) h live =
    ap
      (λ o.
        locks_after (u ∷ times) o (next_lock t (next_counter t (counter_of first n)).count none))
      (next_counter_live first n t live.0)
    ∙ ap (locks_after (u ∷ times) (counter_of first (suc n)))
        (ground (arith, next_count first n t live.0))
    ∙ locks_lem first (suc n) u times (omega arith) live.1
    ∙ ap (λ m. if suc m == max_failures then some (last (u ∷ times) + window_ms) else none)
        (omega arith)

first_counter : (t : ℕ) → some (next_counter t none) ≡ counter_of t 0
unfolding next_counter counter_of
first_counter t = refl

locks_from_none :
    (t : ℕ) (times : List ℕ)
    → length (t ∷ times) ≤ max_failures
    → All (λ u. u < t + window_ms) times
    → locks_after (t ∷ times) none none
      ≡ (if length (t ∷ times) == max_failures then some (last (t ∷ times) + window_ms) else none)
unfolding next_counter
locks_from_none t [] h live = refl
locks_from_none t (u ∷ times) h live =
    ap (λ o. locks_after (u ∷ times) o none) (first_counter t)
    ∙ locks_lem t 0 u times (omega arith) live
    ∙ ap (λ m. if suc m == max_failures then some (last (u ∷ times) + window_ms) else none)
        (omega arith)

is_locked_ready :
    (s : State) (now : ℕ) (k : Text)
    → s.redis_ready ≡ true
    → is_locked s false now k ≡ (s, lock_holds now (s.locks k))
unfolding is_locked
is_locked_ready s now k ready = simp ready

-- With a Redis that does not fail, an identity, not blank and with no counter and no lock, that then
-- has at most five failures, all within fifteen minutes of the first, is locked exactly if there were
-- five, until fifteen minutes after the last.
pub redis_lockout :
    (s : State) (t : ℕ) (times : List ℕ) (now : ℕ) (scope : String) (identity k : Text)
    → s.redis_ready ≡ true
    → key scope identity ≡ some k
    → s.counters k ≡ none
    → s.locks k ≡ none
    → length (t ∷ times) ≤ max_failures
    → All (λ u. u < t + window_ms) times
    → (is_locked (record_failures s no_faults (t ∷ times) scope identity) false now k).1
      ≡ ((length (t ∷ times) == max_failures) && ltb now (last (t ∷ times) + window_ms))
redis_lockout s t times now scope identity k ready e c l h live =
    let after = record_failures s no_faults (t ∷ times) scope identity in
    let a =
      record_failures-At s (t ∷ times) scope identity k none none e
        (record { counter_lem = c; lock_lem = l; ready_lem = ready }) in
    ap (λ (r : State × Bool). r.1) (is_locked_ready after now k a.ready_lem)
    ∙ ap (lock_holds now) (a.lock_lem ∙ locks_from_none t times h live)
    ∙ ground arith

clear_lem :
    (s : State) (scope : String) (identity k : Text)
    → key scope identity ≡ some k
    → ((clear s false scope identity).memory k ≡ none)
      × ((s.redis_ready ≡ false) ⊎ ((clear s false scope identity).locks k ≡ none))
      × ((clear s false scope identity).redis_ready ≡ s.redis_ready)
unfolding clear
clear_lem s scope identity k e = rw (e, clear) (ground arith)

-- An identity that is not blank is not locked once it was cleared, whether Redis is ready or not, if
-- its commands do not fail.
pub clear_unlocks :
    (s : State) (now : ℕ) (scope : String) (identity k : Text)
    → key scope identity ≡ some k
    → (is_locked (clear s false scope identity) false now k).1 ≡ false
unfolding is_locked
clear_unlocks s now scope identity k e =
    let (m, l, r) = clear_lem s scope identity k e in
    ground (arith, is_locked_in_memory_lem (clear s false scope identity) now k)

put_ne : {V : Type 0} (f : Text → Option V) (k j : Text) (v : Option V) → k ≢ j → put f k v j ≡ f j
put_ne f k j v h = ground arith

-- A failure of an identity that is not blank changes neither the slot, nor the counter, nor the lock of another,
-- whatever commands of Redis throw.
pub record_failure_other :
    (s : State) (faults : Faults) (now : ℕ) (scope : String) (identity k j : Text)
    → key scope identity ≡ some k
    → k ≢ j
    → ((record_failure s faults now scope identity).memory j ≡ s.memory j)
      × ((record_failure s faults now scope identity).counters j ≡ s.counters j)
      × ((record_failure s faults now scope identity).locks j ≡ s.locks j)
unfolding record_failure record_in_memory record_in_redis
record_failure_other s faults now scope identity k j e ne = rw (e, record_failure) (ground arith)
