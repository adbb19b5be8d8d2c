-- ===== src/Action/Examples.antt =====
-- A pipeline of two actions on a counter, the second of which fails.
use docker_stuff.Base.{
  ℕ, ◌+◌, ◌-◌, ◌≡◌, refl, ◌==◌, if◌then◌else◌, [], ◌∷◌, none, some, contains, arith,
}
use docker_stuff.Action.{Action, failed, State, execute, execute_from, attempt, rollback, undo}
use docker_stuff.Action.Nested.{Unused, run, back, nested, outcome, execute-nested}
use docker_stuff.Action.Atomic.{AllRevert, execute_atomic}

-- Adds its address to the counter, and takes its result off again.
abbrev adding : ℕ → Action ℕ ℕ ℕ ℕ
adding n = record {
  forward = some (λ ctx w. (some n, none, n + w));
  backward = some (λ ctx w. elim ctx.fw_result [ none ↦ w | some m ↦ w - m ]);
  min_params = 0;
}

abbrev failing : Action ℕ ℕ ℕ ℕ
failing = record { forward = some (λ ctx w. (none, some 7, w)); backward = none; min_params = 0 }

abbrev table : ℕ → Action ℕ ℕ ℕ ℕ
table n = if n == 9 then failing else adding n

abbrev start : State ℕ ℕ
start = record { world = 5; results = λ a. some 100 }

apart : Unused [] (3 ∷ 9 ∷ [])
unfolding contains
apart = (refl, (refl, tt))

execute-nested_example :
    outcome table [] (execute table [] (3 ∷ 9 ∷ []) start) ≡ nested table [] (3 ∷ 9 ∷ []) none 5
execute-nested_example = execute-nested table [] 3 (9 ∷ []) start apart

-- The first run added 3, which is taken off again.
takes_off : (w : ℕ) → 3 + w - 3 ≡ w
takes_off w = omega arith

table-AllRevert : AllRevert table [] (3 ∷ 9 ∷ [])
unfolding run back
table-AllRevert = (λ previous w. takes_off w, (λ previous w. refl, tt))

abbrev after : State ℕ ℕ
after = (execute table [] (3 ∷ 9 ∷ []) start).1

fails : execute table [] (3 ∷ 9 ∷ []) start ≡ (some (failed 7), after)
unfolding execute execute_from attempt rollback undo
fails = refl

execute_atomic_example : after.world ≡ 5
execute_atomic_example =
    execute_atomic table [] 3 (9 ∷ []) start after (failed 7) apart table-AllRevert fails
