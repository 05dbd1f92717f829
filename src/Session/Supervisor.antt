-- ===== src/Session/Supervisor.antt =====
-- The session supervisor of xiaoai-agent/src/qwen_voice.rs: sessions that are prepared, run one at a
-- time behind the active slot, are cancelled, and end. An action is what one of the concurrent tasks
-- does between two points where another can come in; an action that cannot happen changes nothing.
pub mod Turns
pub mod Actions
pub mod Invariant
pub mod Later
pub mod Safety
use xiaoai_agent.Prelude.{
  ℕ, ◌+◌, ◌^◌, ◌%◌, Bool, true, false, not, ◌&&◌, ◌||◌, Option, none, some, List, [], ◌∷◌, String,
  ◌==◌, if◌then◌else◌,
}

pub data SessionTerminalOutcome : Type 0 where
  clean : SessionTerminalOutcome
  failed : String → SessionTerminalOutcome
  forced_timeout : SessionTerminalOutcome

-- How the worker's task ends.
pub data WorkerResult : Type 0 where
  returned : WorkerResult
  returned_error : String → WorkerResult
  panicked : String → WorkerResult

abbrev pub outcome_of : WorkerResult → SessionTerminalOutcome
outcome_of returned = clean
outcome_of (returned_error message) = failed message
outcome_of (panicked message) = failed message

pub data SetupPhase : Type 0 where
  connecting resources_owned phase_cancelled : SetupPhase

pub data Worker : Type 0 where
  not_spawned running : Worker
  finished : WorkerResult → Worker

-- Where a session is: its handle alone, the supervisor in its `select`, behind the cancellation,
-- behind the deadline, with an outcome, with the slot given back, and with the outcome sent.
pub data Stage : Type 0 where
  absent prepared refused supervising draining overdue : Stage
  ended cleared : SessionTerminalOutcome → Stage
  published : Stage

-- What the handle, the supervisor and the waiter of one session share. `acquired` counts the runs of
-- the setup closure.
pub record Session : Type 0 where
  pub id : ℕ
  pub phase : SetupPhase
  pub cancel : Bool
  pub interrupt : ℕ
  pub activation : Bool
  pub terminal : Option SessionTerminalOutcome
  pub stage : Stage
  pub worker : Worker
  pub armed : Bool
  pub acquired : ℕ

pub record ActiveSession : Type 0 where
  pub id : ℕ
  pub handle : ℕ

-- The sessions in the order in which they are prepared.
pub record Service : Type 0 where
  pub active : Option ActiveSession
  pub next_session_id : ℕ
  pub count : ℕ
  pub sessions : ℕ → Session

abbrev pub absent_session : Session
absent_session = record {
  id = 0;
  phase = connecting;
  cancel = false;
  interrupt = 0;
  activation = false;
  terminal = none;
  stage = absent;
  worker = not_spawned;
  armed = false;
  acquired = 0;
}

abbrev pub new_session : ℕ → Session
new_session id = record absent_session { id = id; stage = prepared }
