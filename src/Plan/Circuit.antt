-- ===== src/Plan/Circuit.antt =====
-- The circuit breakers: `getCircuitBreakerState`, `assertCircuitOpen`, `markToolSuccess` and
-- `markToolFailure`.
use birthub_360_innovation.Base.{
  ℕ, ◌+◌, ◌≤◌, String, Bool, true, false, ◌&&◌, List, [], ◌∷◌, Option, none, some, ◌≡◌, refl, ap,
  ◌∙◌, ◌⊎◌, inl, inr, arith, ltb, leb, ◌==◌, if◌then◌else◌, eq_iff, length, str_eq_refl, lookup,
  insert, lookup-insert,
}
use birthub_360_innovation.Base.Result.{Result, ok, err}
use birthub_360_innovation.Plan.{Breaker, State, Options, PlanError, circuit_open}

abbrev pub closed : Breaker
closed = record { failure_count = 0; open_until = none }

-- A breaker whose time is over is closed, and one that is missing is made.
unfoldable pub get_circuit_breaker_state : String → State → State × Breaker
get_circuit_breaker_state tool s =
    let reset : State × Breaker = (record s { breakers = insert tool closed s.breakers }, closed) in
    elim (lookup tool s.breakers) [
      | none ↦ reset
      | some current ↦ elim current.open_until [
        | none ↦ (s, current)
        | some until ↦ if leb until s.time then reset else (s, current)
      ]
    ]

abbrev pub is_open : ℕ → Breaker → Bool
is_open time b = elim b.open_until [ none ↦ false | some until ↦ ltb time until ]

unfoldable pub assert_circuit_open : String → State → State × Result PlanError (Unit {0})
assert_circuit_open tool s =
    let (s', state) = get_circuit_breaker_state tool s in
    (s', if is_open s'.time state then err circuit_open else ok tt)

unfoldable pub mark_tool_success : String → State → State
mark_tool_success tool s = record s { breakers = insert tool closed s.breakers }

unfoldable pub mark_tool_failure : Options → String → State → State
mark_tool_failure options tool s =
    let (s', state) = get_circuit_breaker_state tool s in
    let failure_count = state.failure_count + 1 in
    let failed : Breaker = record {
      failure_count = failure_count;
      open_until =
          if leb options.failure_threshold failure_count
          then some (s'.time + options.cooldown_ms)
          else none;
    } in
    record s' { breakers = insert tool failed s'.breakers }

-- A tool is blocked at a time.
pub is_blocked : ℕ → String → State → Bool
is_blocked time tool s = elim (lookup tool s.breakers) [ none ↦ false | some b ↦ is_open time b ]

-- The failures in a row that the breaker of a tool has counted, as the executor would read them now.
pub failures : String → State → ℕ
failures tool s = (get_circuit_breaker_state tool s).1.failure_count

-- The call of a tool throws exactly while the tool is blocked; the other tools' breakers stay.
pub assert_circuit_open_lem :
    (tool other : String) (s : State)
    → ((assert_circuit_open tool s).1
        ≡ (if is_blocked s.time tool s then err circuit_open else ok tt))
      × (is_blocked s.time other (assert_circuit_open tool s).0 ≡ is_blocked s.time other s)
unfolding assert_circuit_open get_circuit_breaker_state is_blocked
assert_circuit_open_lem tool other s =
    ground (arith, lookup-insert tool other closed s.breakers, eq_iff tool other)

get_circuit_breaker_state-time :
    (tool : String) (s : State) → (get_circuit_breaker_state tool s).0.time ≡ s.time
unfolding get_circuit_breaker_state
get_circuit_breaker_state-time tool s = ground arith

-- A failure counts one more, and opens the breaker if the count reaches the threshold.
lookup-mark_tool_failure :
    (options : Options) (tool : String) (s : State)
    → lookup tool (mark_tool_failure options tool s).breakers
      ≡ some (record {
        failure_count = failures tool s + 1;
        open_until =
            if leb options.failure_threshold (failures tool s + 1)
            then some (s.time + options.cooldown_ms)
            else none;
      })
unfolding mark_tool_failure failures
lookup-mark_tool_failure options tool s =
    lookup-insert tool tool (failed (get_circuit_breaker_state tool s).0.time)
      (get_circuit_breaker_state tool s).0.breakers
    ∙ rw (str_eq_refl tool)
        (ap (λ time. some (failed time)) (get_circuit_breaker_state-time tool s))
  where
    failed : ℕ → Breaker
    failed time = record {
      failure_count = failures tool s + 1;
      open_until =
          if leb options.failure_threshold (failures tool s + 1)
          then some (time + options.cooldown_ms)
          else none;
    }

is_blocked-found :
    (later : ℕ) (tool : String) (s : State) (b : Breaker)
    → lookup tool s.breakers ≡ some b
    → is_blocked later tool s ≡ is_open later b
unfolding is_blocked
is_blocked-found later tool s b e = rw (e, is_blocked) refl

-- Failures of a tool at the times, one after another.
abbrev pub failing : Options → String → List ℕ → State → State
failing options tool [] s = s
failing options tool (t ∷ ts) s =
    failing options tool ts (mark_tool_failure options tool (record s { time = t }))

abbrev pub last : ℕ → List ℕ → ℕ
last t [] = t
last t (u ∷ us) = last u us

-- The breaker has counted no failure, or its cooldown is over.
abbrev pub IsFresh : ℕ → Option Breaker → Type 0
IsFresh time none = Unit
IsFresh time (some b) =
    ((b.failure_count ≡ 0) × (b.open_until ≡ none))
    ⊎ ((until : ℕ) × (b.open_until ≡ some until) × (until ≤ time))

failures-fresh :
    (tool : String) (t : ℕ) (s : State)
    → IsFresh t (lookup tool s.breakers)
    → failures tool (record s { time = t }) ≡ 0
unfolding failures get_circuit_breaker_state
failures-fresh tool t s h = go (lookup tool s.breakers) refl h
  where
    go :
        (o : Option Breaker)
        → lookup tool s.breakers ≡ o
        → IsFresh t o
        → failures tool (record s { time = t }) ≡ 0
    go none e h = rw (e, failures, get_circuit_breaker_state) refl
    go (some b) e (inl (zero, shut)) = rw (e, shut, failures, get_circuit_breaker_state) zero
    go (some b) e (inr (until, opened, over)) =
        let past : leb until t ≡ true = ground (arith, over) in
        rw (e, opened, past, failures, get_circuit_breaker_state) refl

failures-counted :
    (tool : String) (t n : ℕ) (s : State)
    → lookup tool s.breakers ≡ some (record { failure_count = n; open_until = none })
    → failures tool (record s { time = t }) ≡ n
unfolding failures get_circuit_breaker_state
failures-counted tool t n s e = rw (e, failures, get_circuit_breaker_state) refl

module _ (options : Options) (tool : String) (later : ℕ) where
  is_blocked-failing :
      (t : ℕ) (ts : List ℕ) (n : ℕ) (s : State)
      → failures tool (record s { time = t }) ≡ n
      → n + 1 + length ts ≤ options.failure_threshold
      → is_blocked later tool (failing options tool (t ∷ ts) s) ≡ (
          leb options.failure_threshold (n + 1 + length ts)
          && ltb later (last t ts + options.cooldown_ms))
  is_blocked-failing t [] n s e few =
      is_blocked-found later tool _ _
        (lookup-mark_tool_failure options tool (record s { time = t }))
      ∙ rw e (ground arith)
  is_blocked-failing t (u ∷ us) n s e few =
      let s' = mark_tool_failure options tool (record s { time = t }) in
      let below : leb options.failure_threshold (n + 1) ≡ false = ground (arith, few) in
      let counted : lookup tool s'.breakers
          ≡ some (record { failure_count = n + 1; open_until = none }) =
        lookup-mark_tool_failure options tool (record s { time = t }) ∙ rw (e, below) refl in
      is_blocked-failing u us (n + 1) s' (failures-counted tool u (n + 1) s' counted)
        (omega (arith, few))
      ∙ ap (λ k. leb options.failure_threshold k && ltb later (last u us + options.cooldown_ms))
          (omega arith)

  -- If the breaker of a tool has counted no failure, or its cooldown is over at the first of some times,
  -- then after failures of the tool at these times, one after another and no more than the threshold, the
  -- tool is blocked at a time exactly if they are as many as the threshold and the time is before the end
  -- of the cooldown that begins with the last.
  pub mark_tool_failure_lem :
      (t : ℕ) (ts : List ℕ) (s : State)
      → IsFresh t (lookup tool s.breakers)
      → length (t ∷ ts) ≤ options.failure_threshold
      → is_blocked later tool (failing options tool (t ∷ ts) s) ≡ (
          (length (t ∷ ts) == options.failure_threshold)
          && ltb later (last t ts + options.cooldown_ms))
  mark_tool_failure_lem t ts s fresh few =
      is_blocked-failing t ts 0 s (failures-fresh tool t s fresh) (omega (arith, few))
      ∙ ap (λ b. b && ltb later (last t ts + options.cooldown_ms)) (ground (arith, few))
