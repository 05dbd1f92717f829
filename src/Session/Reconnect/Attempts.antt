-- ===== src/Session/Reconnect/Attempts.antt =====
-- How many attempts a session makes, how they end, and what they leave behind.
use xiaoai_agent.Prelude.{
  ℕ, zero, suc, ◌+◌, ◌≤◌, Bool, true, false, not, ◌&&◌, ◌≡◌, ◌≢◌, refl, ◌⊎◌, inl, inr, List, [],
  ◌∷◌, arith, Bool-cases, ap,
}
use native.Mathlib.Decide.{ℕ_discrete}
use xiaoai_agent.Session.Machine.{
  SessionState, disconnected, connecting, ready, capturing, transition_ok,
}
use xiaoai_agent.Session.Machine.Paths.{requests}
use xiaoai_agent.Session.Reconnect.{
  RunError, Activation, activated, cancelled_while_warm, activation_failed, Attempt, attempt_failed,
  reconnect_disabled, bad_transition, Ran, Returned, going, returned, raised, converse, activate,
  run_once, after_attempt, close_cancelled, run_attempts, run, is_over,
}

-- Where a return leaves the session.
abbrev pub final : Returned → Ran
final (going r) = r
final (returned r) = r
final (raised e r) = r

requests-ne-disconnected :
    (s : SessionState) (tos : List SessionState) → s ≢ disconnected → requests s tos ≢ disconnected
unfolding requests
requests-ne-disconnected s [] h = h
requests-ne-disconnected s (to ∷ tos) h =
    requests-ne-disconnected (transition_ok s to) tos (leave s to h)
  where
    leave : (s to : SessionState) → s ≢ disconnected → transition_ok s to ≢ disconnected
    leave s to h = unfold transition_ok in ground arith

abbrev pub warm_failure : Activation → Bool
warm_failure activation_failed = true
warm_failure _ = false

-- An error that no refused transition caused.
abbrev pub is_sound : RunError → Bool
is_sound attempt_failed = true
is_sound (reconnect_disabled cause) = is_sound cause
is_sound (bad_transition e) = false

-- The return was made, and no refused transition is its error or the cause of it.
abbrev pub IsClean : Returned → Type 0
IsClean (going r) = ⊥
IsClean (returned r) = Unit {0}
IsClean (raised e r) = is_sound e ≡ true

record IsAttempt (a : Attempt) (before : Ran) (o : Returned) : Type 0 where
  clean : IsClean o
  left : (final o).machine ≢ disconnected
  counted : (final o).attempts ≡ before.attempts + 1
  released :
      (final o).acquired ≡ true
      → (final o).torn_down ≡ not (a.session_updated && warm_failure a.activation)

converse-IsAttempt :
    (a : Attempt) (before r : Ran)
    → a.activation ≡ activated
    → r.machine ≡ ready
    → r.attempts ≡ before.attempts + 1
    → IsAttempt a before (converse a r)
unfolding converse
converse-IsAttempt a before r act m n =
    let left = requests-ne-disconnected capturing a.loop_requests (λ e. cc) in ground arith

activate-IsAttempt :
    (a : Attempt) (before r : Ran) (act : Activation)
    → a.activation ≡ act
    → a.session_updated ≡ true
    → r.machine ≡ ready
    → r.attempts ≡ before.attempts + 1
    → r.torn_down ≡ false
    → IsAttempt a before (activate a act r)
unfolding activate
activate-IsAttempt a before r activated e u m n t = converse-IsAttempt a before r e m n
activate-IsAttempt a before r cancelled_while_warm e u m n t = ground arith
activate-IsAttempt a before r activation_failed e u m n t = ground arith

run_once-IsAttempt : (a : Attempt) (r : Ran) → r.machine ≡ connecting → IsAttempt a r (run_once a r)
run_once-IsAttempt a r m = elim (Bool-cases a.session_updated) [
  | inl u ↦
      (let r' : Ran = record {
        machine = ready;
        acquired = true;
        torn_down = false;
        attempts = r.attempts + 1;
      } in
        let later = activate-IsAttempt a r r' a.activation refl u refl refl refl in
        unfold run_once in ground (arith, later))
  | inr u ↦ unfold run_once in ground arith
]

-- Every return of `run_once` that owned the attempt's resources has torn them down, but for one:
-- an error while the session waits for its activation returns without a teardown.
pub teardown_but_for_activation :
    (a : Attempt) (r : Ran)
    → r.machine ≡ connecting
    → (final (run_once a r)).acquired ≡ true
    → (final (run_once a r)).torn_down ≡ not (a.session_updated && warm_failure a.activation)
teardown_but_for_activation a r m = (run_once-IsAttempt a r m).released

-- The loop of `run`, from a machine that is connecting.
record IsRun (inputs : ℕ → Attempt) (rounds attempt : ℕ) (before : Ran) (o : Returned)
    : Type 0 where
  clean : IsClean o
  few : (final o).attempts ≤ before.attempts + rounds
  stops :
      (i : ℕ)
      → attempt ≤ i
      → (inputs i).effects_observed ≡ true
      → (final o).attempts + attempt ≤ before.attempts + i + 1

-- How an attempt goes on: it is over with nothing more tried, or the loop goes round from
-- `Connecting`, and then no tool had been started.
after_attempt_cases :
    (a : Attempt) (r : Ran) (o : Returned) (next : RunError → Ran → Returned)
    → IsAttempt a r o
    → (IsClean (after_attempt a next o)
        × ((final (after_attempt a next o)).attempts ≡ r.attempts + 1))
      ⊎ ((t : Ran) × (e : RunError) × (after_attempt a next o ≡ next e t)
          × (is_sound e ≡ true)
          × (t.machine ≡ connecting)
          × (t.attempts ≡ r.attempts + 1)
          × (a.effects_observed ≡ false))
unfolding after_attempt
after_attempt_cases a r (going t) next h = inl (ground arith)
after_attempt_cases a r (returned t) next h = inl (ground arith)
after_attempt_cases a r (raised e t) next h = elim (Bool-cases a.effects_observed) [
  | inl x ↦ inl (ground arith)
  | inr x ↦ elim (Bool-cases (is_over t.machine)) [
    | inl y ↦ inl (ground arith)
    | inr y ↦ elim (Bool-cases a.backoff_cancelled) [
      | inl z ↦ inl (ground arith)
      | inr z ↦
          inr (record t { machine = connecting }, e, ground arith, h.clean, refl, h.counted, x)
    ]
  ]
]

cancel-IsClean :
    (r : Ran)
    → r.machine ≡ connecting
    → IsClean (close_cancelled r) × ((final (close_cancelled r)).attempts ≡ r.attempts)
unfolding close_cancelled
cancel-IsClean r m = ground arith

goes_on :
    (rounds attempt : ℕ) (inputs : ℕ → Attempt) (r t : Ran) {o : Returned}
    → t.attempts ≡ r.attempts + 1
    → (inputs attempt).effects_observed ≡ false
    → IsRun inputs rounds (attempt + 1) t o
    → IsRun inputs (suc rounds) attempt r o
goes_on rounds attempt inputs r t {o} once quiet h = record {
  clean = h.clean;
  few = omega (arith, h.few);
  stops = λ i le e. elim (ℕ_discrete attempt i) [
    | yes p ↦ cc (ap (λ (j : ℕ). (inputs j).effects_observed) p)
    | no p ↦ omega (arith, h.stops i (omega arith) e)
  ];
}

run_attempts-IsRun :
    (rounds attempt : ℕ) (last_error : RunError) (inputs : ℕ → Attempt) (r : Ran)
    → is_sound last_error ≡ true
    → r.machine ≡ connecting
    → IsRun inputs rounds attempt r (run_attempts rounds attempt last_error inputs r)
unfolding run_attempts
run_attempts-IsRun zero attempt last_error inputs r sound m = record {
  clean = sound;
  few = omega arith;
  stops = λ i le e. omega arith;
}
run_attempts-IsRun (suc rounds) attempt last_error inputs r sound m =
    elim (Bool-cases (inputs attempt).cancelled_before) [
      | inl y ↦
          (let (clean, same) = cancel-IsClean r m in
            rw y (record { clean = clean; few = omega arith; stops = λ i le e. omega arith }))
      | inr n ↦
          (let a = inputs attempt in
            let next =
              λ (error : RunError) (t : Ran). run_attempts rounds (attempt + 1) error inputs t in
            rw n (elim (after_attempt_cases a r (run_once a r) next (run_once-IsAttempt a r m)) [
              | inl (clean, once) ↦ record {
                clean = clean;
                few = omega arith;
                stops = λ i le e. omega arith;
              }
              | inr (t, error, same, fine, con, once, quiet) ↦ rw same (
                  goes_on rounds attempt inputs r t once quiet
                    (run_attempts-IsRun rounds (attempt + 1) error inputs t fine con))
            ]))
    ]

run-IsRun : (inputs : ℕ → Attempt) → (r : Ran) × (r.attempts ≡ 0) × IsRun inputs 3 0 r (run inputs)
unfolding run
run-IsRun inputs =
    let r : Ran = record {
      machine = connecting;
      acquired = false;
      torn_down = false;
      attempts = 0;
    } in
    (r, refl, run_attempts-IsRun 3 0 attempt_failed inputs r refl refl)

-- There is no transparent reconnect behind a started tool: once the attempt with index `i` has
-- observed an effect, the session makes no attempt after it.
pub no_reconnect_after_effects :
    (inputs : ℕ → Attempt) (i : ℕ)
    → (inputs i).effects_observed ≡ true
    → (final (run inputs)).attempts ≤ i + 1
no_reconnect_after_effects inputs i e =
    let (r₀, none, h) = run-IsRun inputs in omega (arith, h.stops i (omega arith) e)
