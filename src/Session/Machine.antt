-- ===== src/Session/Machine.antt =====
-- `SessionState` and `SessionMachine` of xiaoai-agent/src/qwen_voice.rs.
pub mod Paths
use xiaoai_agent.Prelude.{Bool, true, false, ◌||◌, if◌then◌else◌}

pub data SessionState : Type 0 where
  disconnected connecting ready capturing responding cancelling reconnecting shutting_down closed
        failed :
      SessionState

pub data StateTransitionError : Type 0 where
  invalid : SessionState → SessionState → StateTransitionError

-- `Result<(), StateTransitionError>` beside the machine's new state.
pub data Transition : Type 0 where
  moved : SessionState → Transition
  refused : StateTransitionError → Transition

pub SessionState-discrete : Discrete SessionState
SessionState-discrete = hlevel

-- The derived `PartialEq`.
abbrev pub same_state : SessionState → SessionState → Bool
same_state disconnected disconnected = true
same_state connecting connecting = true
same_state ready ready = true
same_state capturing capturing = true
same_state responding responding = true
same_state cancelling cancelling = true
same_state reconnecting reconnecting = true
same_state shutting_down shutting_down = true
same_state closed closed = true
same_state failed failed = true
same_state _ _ = false

-- The pairs of the `matches!`.
abbrev pub valid : SessionState → SessionState → Bool
valid disconnected connecting = true
valid connecting ready = true
valid connecting reconnecting = true
valid connecting failed = true
valid connecting shutting_down = true
valid ready capturing = true
valid ready responding = true
valid ready cancelling = true
valid ready shutting_down = true
valid ready reconnecting = true
valid ready failed = true
valid capturing responding = true
valid capturing cancelling = true
valid capturing shutting_down = true
valid capturing reconnecting = true
valid capturing failed = true
valid responding capturing = true
valid responding ready = true
valid responding cancelling = true
valid responding shutting_down = true
valid responding reconnecting = true
valid responding failed = true
valid cancelling ready = true
valid cancelling shutting_down = true
valid cancelling reconnecting = true
valid cancelling failed = true
valid reconnecting connecting = true
valid reconnecting shutting_down = true
valid reconnecting failed = true
valid failed reconnecting = true
valid failed shutting_down = true
valid failed closed = true
valid shutting_down closed = true
valid _ _ = false

unfoldable pub transition : SessionState → SessionState → Transition
transition state to =
    if same_state state to
    then moved state
    else if valid state to
    then moved to
    else refused (invalid state to)

-- The state that `machine.transition(to).ok()` leaves: a refusal changes nothing.
abbrev pub landed : SessionState → Transition → SessionState
landed state (moved to) = to
landed state (refused e) = state

unfoldable pub transition_ok : SessionState → SessionState → SessionState
unfolding transition
transition_ok state to = landed state (transition state to)
