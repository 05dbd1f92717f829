-- ===== src/Session/Supervisor/Turns.antt =====
-- What one task does to its session in xiaoai-agent/src/qwen_voice.rs: the handle, the waiter, the
-- worker and the supervisor.
use xiaoai_agent.Prelude.{◌+◌, ◌^◌, ◌%◌, Bool, true, false, ◌&&◌, ◌||◌, none, some, if◌then◌else◌}
use xiaoai_agent.Session.Supervisor.{
  WorkerResult, outcome_of, SetupPhase, Worker, Stage, Session, forced_timeout, resources_owned,
  phase_cancelled, running, finished, absent, supervising, draining, overdue, ended, cleared,
  published,
}

abbrev pub is_absent : Stage → Bool
is_absent absent = true
is_absent _ = false

-- The supervisor owns the slot: its worker is spawned, and the slot is not given back.
abbrev pub holds : Stage → Bool
holds supervising = true
holds draining = true
holds overdue = true
holds (ended o) = true
holds _ = false

abbrev pub is_cancelled : SetupPhase → Bool
is_cancelled phase_cancelled = true
is_cancelled _ = false

abbrev pub is_completed : Session → Bool
is_completed x = elim x.terminal [ none ↦ false | some o ↦ true ]

-- `request_cancel` takes the setup lock first and sends behind it.
abbrev pub mark_cancelled : Session → Session
mark_cancelled x = if is_absent x.stage then x else record x { phase = phase_cancelled }

abbrev pub request_cancel : Session → Session
request_cancel x =
    if is_absent x.stage then x else record x { phase = phase_cancelled; cancel = true }

abbrev pub interrupt_session : Session → Session
interrupt_session x =
    if is_absent x.stage then x else record x { interrupt = (x.interrupt + 1) % 2 ^ 64 }

abbrev pub activate : Session → Session
activate x = if is_absent x.stage then x else record x { activation = true }

-- The waiter's future is dropped, and the guard with it.
abbrev pub drop_waiter : Session → Session
drop_waiter x = if x.armed then request_cancel (record x { armed = false }) else x

-- The waiter reads the outcome and disarms the guard.
abbrev pub waiter_returns : Session → Session
waiter_returns x = if x.armed && is_completed x then record x { armed = false } else x

-- What the worker does in its turn.
abbrev pub setup_by : Worker → Session → Session
setup_by running x =
    if is_cancelled x.phase || x.cancel
    then record x { phase = phase_cancelled }
    else record x { phase = resources_owned; acquired = x.acquired + 1 }
setup_by _ x = x

abbrev pub setup_if_running : Session → Session
setup_if_running x = setup_by x.worker x

abbrev pub end_by : Worker → WorkerResult → Session → Session
end_by running r x = record x { worker = finished r }
end_by _ r x = x

abbrev pub worker_ends : WorkerResult → Session → Session
worker_ends r x = end_by x.worker r x

-- What the supervisor does in its turn: the branches of its `select` and of the timeout behind it.
abbrev pub notice_at : Stage → Session → Session
notice_at supervising x = if x.cancel then record x { stage = draining } else x
notice_at _ x = x

abbrev pub notice_cancel : Session → Session
notice_cancel x = notice_at x.stage x

abbrev pub deadline_at : Stage → Worker → Session → Session
deadline_at draining running x = record x { stage = overdue }
deadline_at _ _ x = x

abbrev pub cancel_deadline : Session → Session
cancel_deadline x = deadline_at x.stage x.worker x

abbrev pub join_at : Stage → Worker → Session → Session
join_at supervising (finished r) x = record x { stage = ended (outcome_of r) }
join_at draining (finished r) x = record x { stage = ended (outcome_of r) }
join_at overdue (finished r) x = record x { stage = ended forced_timeout }
join_at _ _ x = x

abbrev pub join_worker : Session → Session
join_worker x = join_at x.stage x.worker x

abbrev pub publish_at : Stage → Session → Session
publish_at (cleared o) x = record x { stage = published; terminal = some o }
publish_at _ x = x

abbrev pub publish : Session → Session
publish x = publish_at x.stage x
