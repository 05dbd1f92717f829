-- ===== src/Session/Reconnect.antt =====
-- `run` and `run_once` of xiaoai-agent/src/qwen_voice/webrtc_session.rs: the attempts of one session,
-- the state machine that they share, and the teardown of what an attempt owns.
-- What the network, the player, the event loop and the clock do in an attempt is its input.
pub mod Attempts
use xiaoai_agent.Prelude.{
  ℕ, zero, suc, ◌+◌, Bool, true, false, not, ◌&&◌, ◌||◌, List, if◌then◌else◌,
}
use xiaoai_agent.Session.Machine.{
  SessionState, disconnected, connecting, ready, capturing, cancelling, reconnecting, shutting_down,
  closed, failed, StateTransitionError, Transition, moved, refused, transition, transition_ok,
  same_state,
}
use xiaoai_agent.Session.Machine.Paths.{requests}

-- `wait_for_activation`: `Ok(true)`, `Ok(false)` or an error.
pub data Activation : Type 0 where
  activated cancelled_while_warm activation_failed : Activation

-- What one attempt meets, in the order in which `run` and `run_once` ask for it. `loop_requests`
-- are the transitions that the event loop asks for, refused ones included.
pub record Attempt : Type 0 where
  pub cancelled_before : Bool
  pub contract_ok : Bool
  pub setup_running : Bool
  pub connected : Bool
  pub session_updated : Bool
  pub activation : Activation
  pub loop_requests : List SessionState
  pub loop_ok : Bool
  pub teardown_ok : Bool
  pub tools_idle : Bool
  pub effects_observed : Bool
  pub backoff_cancelled : Bool

pub data RunError : Type 0 where
  attempt_failed : RunError
  reconnect_disabled : RunError → RunError
  bad_transition : StateTransitionError → RunError

-- An attempt or a run behind its return: the machine is shared, `acquired` says that the attempt
-- came to own its resources, and `torn_down` that `AttemptResources::teardown` ran on them.
pub record Ran : Type 0 where
  pub machine : SessionState
  pub acquired : Bool
  pub torn_down : Bool
  pub attempts : ℕ

pub data Returned : Type 0 where
  going returned : Ran → Returned
  raised : RunError → Ran → Returned

infixl 5 ◌>>=◌
abbrev pub ◌>>=◌ : Returned → (Ran → Returned) → Returned
going r >>= k = k r
returned r >>= k = returned r
raised e r >>= k = raised e r

abbrev pub ensure : Bool → Ran → Returned
ensure test r = if test then going r else raised attempt_failed r

abbrev land : Transition → Ran → Returned
land (moved m) r = going (record r { machine = m })
land (refused e) r = raised (bad_transition e) r

-- `machine.transition(to)?`
unfoldable pub go_to : SessionState → Ran → Returned
unfolding transition
go_to to r = land (transition r.machine to) r

abbrev pub tear_down : Ran → Ran
tear_down r = record r { torn_down = true }

-- `teardown_after(Ok(()), resources)` and the last line of `run_once`: the result with the
-- teardown's.
abbrev pub finish : Bool → Ran → Returned
finish ok r = if ok then returned r else raised attempt_failed r

abbrev pub soft : SessionState → Ran → Ran
soft to r = record r { machine = transition_ok r.machine to }

-- `run_once` behind the activation of the microphone.
unfoldable pub converse : Attempt → Ran → Returned
unfolding go_to transition_ok
converse a r = do
  r ← go_to capturing r
  r ← going (record r { machine = requests r.machine a.loop_requests; torn_down = true })
  r ← ensure a.tools_idle r
  r ← going (if same_state r.machine cancelling then soft shutting_down r else r)
  r ← if same_state r.machine shutting_down && a.teardown_ok then go_to closed r else going r
  finish (a.loop_ok && a.teardown_ok) r

unfoldable pub activate : Attempt → Activation → Ran → Returned
unfolding converse
activate a activated r = converse a r
activate a cancelled_while_warm r = do
  r ← go_to cancelling r
  r ← go_to shutting_down r
  finish a.teardown_ok (tear_down r)
activate a activation_failed r = raised attempt_failed r

abbrev pub torn_down_err : Ran → Returned
torn_down_err r = raised attempt_failed (tear_down r)

-- A refused transition to `Ready` would be torn down like a failed setup.
abbrev pub ready_or_teardown : Transition → Ran → Returned
ready_or_teardown (moved m) r = going (record r { machine = m })
ready_or_teardown (refused e) r = raised (bad_transition e) (tear_down r)

unfoldable pub run_once : Attempt → Ran → Returned
unfolding activate
run_once a r = do
  r ← going (record r { attempts = r.attempts + 1; acquired = false; torn_down = false })
  r ← ensure a.contract_ok r
  r ← ensure a.setup_running r
  r ← ensure a.connected r
  r ← going (record r { acquired = true })
  r ← if a.session_updated then going r else torn_down_err r
  r ← ready_or_teardown (transition r.machine ready) r
  activate a a.activation r

-- `ShuttingDown | Closed`
abbrev pub is_over : SessionState → Bool
is_over shutting_down = true
is_over closed = true
is_over _ = false

unfoldable pub close_cancelled : Ran → Returned
unfolding go_to
close_cancelled r = do r ← go_to shutting_down r; r ← go_to closed r; returned r

abbrev pub reconnect_attempts : ℕ
reconnect_attempts = 2

-- Behind the loop: `machine.transition(Failed).ok()` and the last error.
abbrev pub give_up : RunError → Ran → Returned
give_up e r = raised e (soft failed r)

-- What `run` does with the result of an attempt, `next` being the rest of the loop with the last error.
-- The context of the error that ends the run keeps its cause.
unfoldable pub after_attempt : Attempt → (RunError → Ran → Returned) → Returned → Returned
unfolding close_cancelled transition_ok go_to
after_attempt a next (going r) = returned r
after_attempt a next (returned r) = returned r
after_attempt a next (raised e r) =
    if a.effects_observed
    then give_up (reconnect_disabled e) r
    else if is_over r.machine
    then give_up e r
    else (let r' = soft reconnecting r in
        if a.backoff_cancelled then close_cancelled r' else (go_to connecting r' >>= next e))

-- `for attempt in 0..=RECONNECT_ATTEMPTS`; the first argument counts the rounds that are left, the
-- third is `last_error`.
unfoldable pub run_attempts : ℕ → ℕ → RunError → (ℕ → Attempt) → Ran → Returned
unfolding run_once after_attempt close_cancelled
run_attempts zero attempt last_error inputs r = give_up last_error r
run_attempts (suc rounds) attempt last_error inputs r =
    let next = λ (error : RunError) (t : Ran). run_attempts rounds (attempt + 1) error inputs t in
    if (inputs attempt).cancelled_before
    then close_cancelled r
    else after_attempt (inputs attempt) next (run_once (inputs attempt) r)

unfoldable pub run : (ℕ → Attempt) → Returned
unfolding run_attempts go_to
run inputs = do
  r ←
      go_to connecting
        (record { machine = disconnected; acquired = false; torn_down = false; attempts = 0 })
  run_attempts (suc reconnect_attempts) 0 attempt_failed inputs r
