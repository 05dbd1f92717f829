-- ===== src/Session/LoopState.antt =====
-- The locals of `run_event_loop` (xiaoai-agent/src/qwen_voice/webrtc_session.rs), and the steps that
-- its branches share. `speech_stopped_at` only feeds a log line and is left out.
use xiaoai_agent.Prelude.{
  ℕ, ◌+◌, String, Bool, true, false, List, [], ◌∷◌, Option, none, some, if◌then◌else◌, ltb, leb,
  ◌||◌,
}
use xiaoai_agent.Session.Machine.{
  SessionState, capturing, Transition, moved, refused, StateTransitionError, transition,
}
use xiaoai_agent.Session.Player.{Player}
use xiaoai_agent.Session.Wire.{ClientEvent}

-- `PendingFunctionCall`
pub record PendingFunctionCall : Type 0 where
  pub item_id : String
  pub output_index : ℕ
  pub name : String
  pub arguments : String

-- What a turn of the loop did to the outside, newest first: an attempted send, or a started tool
-- (call id, name, arguments).
pub data Effect : Type 0 where
  sends : ClientEvent → Effect
  executes : String → PendingFunctionCall → Effect

pub record Loop : Type 0 where
  pub machine : SessionState
  pub player : Player
  pub active_response : Option String
  pub response_deadline : Option ℕ
  pub response_calls : List (String × PendingFunctionCall)
  pub seen_call_ids : List String
  pub pending_tools : List String
  pub waiting_for_tools : Bool
  pub tool_iterations : ℕ
  pub tool_calls : ℕ
  pub budget_refusals : ℕ
  pub session_idle_deadline : Option ℕ
  pub end_after_response : Bool
  pub drain_deadline : Option ℕ
  pub capture_joined : Bool
  pub effects : List Effect

-- The configuration that the loop reads (milliseconds), `NativeToolRuntime`'s two limits among it.
pub record Config : Type 0 where
  pub event_timeout : ℕ
  pub idle_timeout : ℕ
  pub max_calls : ℕ
  pub max_iterations : ℕ

pub data LoopError : Type 0 where
  bad_transition : StateTransitionError → LoopError
  response_timeout capture_stopped channel_closed connection_closed send_failed : LoopError
  iteration_limit bad_decode websocket_audio : LoopError
  audio_failed realtime_error : String → LoopError
  call_while_tools_run call_conflict call_replayed bad_call_id bad_name bad_arguments : LoopError
  bad_status done_conflict done_omitted_call done_mismatch done_incomplete : LoopError
  done_missing_arguments done_call_conflict budget_runaway : LoopError

-- A turn goes round again, returns `Ok(())`, or fails.
pub data Outcome : Type 0 where
  going ended : Loop → Outcome
  broken : LoopError → Loop → Outcome

infixl 5 ◌>>=◌
abbrev pub ◌>>=◌ : Outcome → (Loop → Outcome) → Outcome
going s >>= k = k s
ended s >>= k = ended s
broken e s >>= k = broken e s

abbrev pub ensure : Bool → LoopError → Loop → Outcome
ensure test e s = if test then going s else broken e s

-- `machine.transition(to)?`
abbrev pub land : Transition → Loop → Outcome
land (moved m) s = going (record s { machine = m })
land (refused e) s = broken (bad_transition e) s

unfoldable pub go_to : SessionState → Loop → Outcome
unfolding transition
go_to to s = land (transition s.machine to) s

-- A send whose result the loop ignores (`let _ = send_data_event_bounded(..)`).
abbrev pub post : ClientEvent → Loop → Loop
post e s = record s { effects = sends e ∷ s.effects }

-- `send_data_event(..)?`: `delivered` says whether the DataChannel took this event in time.
abbrev pub send : (ClientEvent → Bool) → ClientEvent → Loop → Outcome
send delivered e s = ensure (delivered e) send_failed (post e s)

-- `is_none_or(|id| id == x)`
abbrev pub none_or_eq : (String → String → Bool) → Option String → String → Bool
none_or_eq eq none x = true
none_or_eq eq (some y) x = eq y x

-- `tool_budget_exhausted`
unfoldable pub tool_budget_exhausted : Config → ℕ → ℕ → ℕ → Bool
tool_budget_exhausted c tool_iterations tool_calls requested_calls =
    leb c.max_iterations tool_iterations || ltb c.max_calls (tool_calls + requested_calls)

-- The locals before the first turn: `run_once` has just moved the machine to `Capturing`.
unfoldable pub loop_start : Config → ℕ → Player → Loop
loop_start c now player = record {
  machine = capturing;
  player = player;
  active_response = none;
  response_deadline = none;
  response_calls = [];
  seen_call_ids = [];
  pending_tools = [];
  waiting_for_tools = false;
  tool_iterations = 0;
  tool_calls = 0;
  budget_refusals = 0;
  session_idle_deadline = some (now + c.idle_timeout);
  end_after_response = false;
  drain_deadline = none;
  capture_joined = false;
  effects = [];
}
