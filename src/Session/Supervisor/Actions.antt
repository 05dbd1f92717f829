-- ===== src/Session/Supervisor/Actions.antt =====
-- The sessions of xiaoai-agent/src/qwen_voice.rs together: the slot, and the actions of all tasks.
use xiaoai_agent.Prelude.{
  ℕ, ◌+◌, ◌^◌, ◌%◌, Bool, true, false, not, Option, none, some, List, [], ◌∷◌, ◌==◌, if◌then◌else◌,
}
use xiaoai_agent.Session.Supervisor.{
  SessionTerminalOutcome, WorkerResult, Stage, Session, ActiveSession, Service, absent_session,
  new_session, phase_cancelled, running, prepared, refused, supervising, ended, cleared,
}
use xiaoai_agent.Session.Supervisor.Turns.{
  is_completed, mark_cancelled, request_cancel, interrupt_session, activate, drop_waiter,
  waiter_returns, setup_if_running, worker_ends, notice_cancel, cancel_deadline, join_worker,
  publish,
}

abbrev pub at : ℕ → (Session → Session) → Service → Service
at k f s = record s { sessions = λ j. if j == k then f (s.sessions k) else s.sessions j }

-- `prepare_session_control`; the counter is a `u64`.
abbrev pub prepare_session_control : Service → Service
prepare_session_control s = record {
  active = s.active;
  next_session_id = (s.next_session_id + 1) % 2 ^ 64;
  count = s.count + 1;
  sessions = λ j. if j == s.count then new_session s.next_session_id else s.sessions j;
}

abbrev pub slot_busy : Service → Bool
slot_busy s = elim s.active [ none ↦ false | some a ↦ not (is_completed (s.sessions a.handle)) ]

abbrev pub refuse : Session → Session
refuse x = record x { stage = refused; phase = phase_cancelled; cancel = true }

abbrev pub start : Session → Session
start x = record x { stage = supervising; worker = running; armed = true }

abbrev pub enter_at : Stage → ℕ → Service → Service
enter_at prepared k s =
    if slot_busy s
    then at k refuse s
    else record (at k start s) { active = some (record { id = (s.sessions k).id; handle = k }) }
enter_at _ k s = s

-- The first part of `run_prepared_supervised_session`, under the lock of the slot. The guard of a
-- session that is refused is dropped.
abbrev pub enter : ℕ → Service → Service
enter k s = enter_at (s.sessions k).stage k s

abbrev pub clear_active_if_owned : ℕ → Option ActiveSession → Option ActiveSession
clear_active_if_owned id none = none
clear_active_if_owned id (some a) = if a.id == id then none else some a

abbrev pub give_back : SessionTerminalOutcome → Session → Session
give_back o x = record x { stage = cleared o }

abbrev pub clear_at : Stage → ℕ → Service → Service
clear_at (ended o) k s = record (at k (give_back o) s) {
  active = clear_active_if_owned (s.sessions k).id s.active;
}
clear_at _ k s = s

abbrev pub clear : ℕ → Service → Service
clear k s = clear_at (s.sessions k).stage k s

pub data Action : Type 0 where
  prepare_action : Action
  enter_action mark_action cancel_action interrupt_action activate_action : ℕ → Action
  drop_waiter_action waiter_returns_action setup_action notice_action : ℕ → Action
  deadline_action join_action clear_action publish_action : ℕ → Action
  worker_ends_action : ℕ → WorkerResult → Action

unfoldable pub act : Action → Service → Service
act prepare_action s = prepare_session_control s
act (enter_action k) s = enter k s
act (mark_action k) s = at k mark_cancelled s
act (cancel_action k) s = at k request_cancel s
act (interrupt_action k) s = at k interrupt_session s
act (activate_action k) s = at k activate s
act (drop_waiter_action k) s = at k drop_waiter s
act (waiter_returns_action k) s = at k waiter_returns s
act (setup_action k) s = at k setup_if_running s
act (notice_action k) s = at k notice_cancel s
act (deadline_action k) s = at k cancel_deadline s
act (join_action k) s = at k join_worker s
act (clear_action k) s = clear k s
act (publish_action k) s = at k publish s
act (worker_ends_action k r) s = at k (worker_ends r) s

unfoldable pub run : List Action → Service → Service
unfolding act
run [] s = s
run (a ∷ actions) s = run actions (act a s)

abbrev pub new_service : Service
new_service = record {
  active = none;
  next_session_id = 1;
  count = 0;
  sessions = λ j. absent_session;
}
