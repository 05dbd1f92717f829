-- ===== src/Session/Supervisor/Later.antt =====
-- One session of xiaoai-agent/src/qwen_voice.rs at an earlier time and at a later one.
use xiaoai_agent.Prelude.{
  ℕ, ◌≡◌, refl, sym, subst, Bool, true, not, Option, List, [], ◌∷◌, ◌==◌, arith, inl, inr,
  Bool-cases,
}
use xiaoai_agent.Session.Supervisor.{
  WorkerResult, Stage, Session, ActiveSession, Service, new_session, absent, prepared, refused,
  supervising, draining, overdue, ended, cleared, published,
}
use xiaoai_agent.Session.Supervisor.Turns.{
  is_absent, is_cancelled, is_completed, mark_cancelled, request_cancel, interrupt_session,
  activate, drop_waiter, waiter_returns, setup_if_running, worker_ends, notice_cancel,
  cancel_deadline, join_worker, publish,
}
use xiaoai_agent.Session.Supervisor.Actions.{
  at, prepare_session_control, slot_busy, enter_at, clear_at, Action, act, run, prepare_action,
  enter_action, mark_action, cancel_action, interrupt_action, activate_action, drop_waiter_action,
  waiter_returns_action, setup_action, notice_action, deadline_action, join_action, clear_action,
  publish_action, worker_ends_action, refuse, start, give_back,
}
use xiaoai_agent.Session.Supervisor.Invariant.{Fits, Inv, act-Inv}

abbrev pub exists : Session → Bool
exists x = not (is_absent x.stage)

-- The one session at an earlier time and at a later one.
abbrev pub Later : Session → Session → Type 0
Later x y =
    (is_completed x ≡ true → y.terminal ≡ x.terminal)
    × (is_cancelled x.phase ≡ true
        → exists x ≡ true
        → (is_cancelled y.phase ≡ true) × (y.acquired ≡ x.acquired))
    × (exists x ≡ true → exists y ≡ true)

Later-refl : (x : Session) → Later x x
Later-refl x = ground arith

Later-trans : (x y z : Session) → Later x y → Later y z → Later x z
Later-trans x y z h i = ground arith

abbrev Steady : (Session → Session) → Type 0
Steady f = (slot : Option ActiveSession) (k : ℕ) (x : Session) → Fits slot k x → Later x (f x)

at-Later :
    (f : Session → Session) (k i : ℕ) (s : Service)
    → Later (s.sessions k) (f (s.sessions k))
    → Later (s.sessions i) ((at k f s).sessions i)
at-Later f k i s h = elim (Bool-cases (i == k)) [
  | inl here ↦
      let same : i ≡ k = ground arith in
      rw here (subst (λ (j : ℕ). Later (s.sessions j) (f (s.sessions k))) (sym same) h)
  | inr other ↦ rw other (Later-refl (s.sessions i))
]

mark_cancelled-Steady : Steady mark_cancelled
mark_cancelled-Steady slot k x fits = ground arith

request_cancel-Steady : Steady request_cancel
request_cancel-Steady slot k x fits = ground arith

interrupt_session-Steady : Steady interrupt_session
interrupt_session-Steady slot k x fits = ground arith

activate-Steady : Steady activate
activate-Steady slot k x fits = ground arith

drop_waiter-Steady : Steady drop_waiter
drop_waiter-Steady slot k x fits = ground arith

waiter_returns-Steady : Steady waiter_returns
waiter_returns-Steady slot k x fits = ground arith

setup_if_running-Steady : Steady setup_if_running
setup_if_running-Steady slot k x fits = ground arith

notice_cancel-Steady : Steady notice_cancel
notice_cancel-Steady slot k x fits = ground arith

cancel_deadline-Steady : Steady cancel_deadline
cancel_deadline-Steady slot k x fits = ground arith

join_worker-Steady : Steady join_worker
join_worker-Steady slot k x fits = ground arith

publish-Steady : Steady publish
publish-Steady slot k x fits = ground arith

worker_ends-Steady : (r : WorkerResult) → Steady (worker_ends r)
worker_ends-Steady r slot k x fits = ground arith

prepare-Later :
    (i : ℕ) (s : Service) → Inv s → Later (s.sessions i) ((prepare_session_control s).sessions i)
prepare-Later i s inv = elim (Bool-cases (i == s.count)) [
  | inr other ↦ rw other (Later-refl (s.sessions i))
  | inl here ↦ rw here (
      subst (λ x. Later x (new_session s.next_session_id)) (sym (inv.fresh i (ground arith)))
        (ground arith))
]

enter_at-Later :
    (stage : Stage) (k i : ℕ) (s : Service)
    → (s.sessions k).stage ≡ stage
    → Fits s.active k (s.sessions k)
    → Later (s.sessions i) ((enter_at stage k s).sessions i)
enter_at-Later absent k i s e fits = Later-refl (s.sessions i)
enter_at-Later refused k i s e fits = Later-refl (s.sessions i)
enter_at-Later supervising k i s e fits = Later-refl (s.sessions i)
enter_at-Later draining k i s e fits = Later-refl (s.sessions i)
enter_at-Later overdue k i s e fits = Later-refl (s.sessions i)
enter_at-Later (ended o) k i s e fits = Later-refl (s.sessions i)
enter_at-Later (cleared o) k i s e fits = Later-refl (s.sessions i)
enter_at-Later published k i s e fits = Later-refl (s.sessions i)
enter_at-Later prepared k i s e fits = elim (Bool-cases (slot_busy s)) [
  | inl busy ↦ rw busy (at-Later refuse k i s (ground arith))
  | inr idle ↦ rw idle (at-Later start k i s (ground arith))
]

clear_at-Later :
    (stage : Stage) (k i : ℕ) (s : Service)
    → (s.sessions k).stage ≡ stage
    → Later (s.sessions i) ((clear_at stage k s).sessions i)
clear_at-Later absent k i s e = Later-refl (s.sessions i)
clear_at-Later prepared k i s e = Later-refl (s.sessions i)
clear_at-Later refused k i s e = Later-refl (s.sessions i)
clear_at-Later supervising k i s e = Later-refl (s.sessions i)
clear_at-Later draining k i s e = Later-refl (s.sessions i)
clear_at-Later overdue k i s e = Later-refl (s.sessions i)
clear_at-Later (cleared o) k i s e = Later-refl (s.sessions i)
clear_at-Later published k i s e = Later-refl (s.sessions i)
clear_at-Later (ended o) k i s e = at-Later (give_back o) k i s (ground arith)

act-Later : (a : Action) (i : ℕ) (s : Service) → Inv s → Later (s.sessions i) ((act a s).sessions i)
unfolding act
act-Later prepare_action i s inv = prepare-Later i s inv
act-Later (enter_action k) i s inv = enter_at-Later (s.sessions k).stage k i s refl (inv.fits k)
act-Later (clear_action k) i s inv = clear_at-Later (s.sessions k).stage k i s refl
act-Later (mark_action k) i s inv =
    at-Later mark_cancelled k i s (mark_cancelled-Steady s.active k (s.sessions k) (inv.fits k))
act-Later (cancel_action k) i s inv =
    at-Later request_cancel k i s (request_cancel-Steady s.active k (s.sessions k) (inv.fits k))
act-Later (interrupt_action k) i s inv =
    at-Later interrupt_session k i s
      (interrupt_session-Steady s.active k (s.sessions k) (inv.fits k))
act-Later (activate_action k) i s inv =
    at-Later activate k i s (activate-Steady s.active k (s.sessions k) (inv.fits k))
act-Later (drop_waiter_action k) i s inv =
    at-Later drop_waiter k i s (drop_waiter-Steady s.active k (s.sessions k) (inv.fits k))
act-Later (waiter_returns_action k) i s inv =
    at-Later waiter_returns k i s (waiter_returns-Steady s.active k (s.sessions k) (inv.fits k))
act-Later (setup_action k) i s inv =
    at-Later setup_if_running k i s (setup_if_running-Steady s.active k (s.sessions k) (inv.fits k))
act-Later (notice_action k) i s inv =
    at-Later notice_cancel k i s (notice_cancel-Steady s.active k (s.sessions k) (inv.fits k))
act-Later (deadline_action k) i s inv =
    at-Later cancel_deadline k i s (cancel_deadline-Steady s.active k (s.sessions k) (inv.fits k))
act-Later (join_action k) i s inv =
    at-Later join_worker k i s (join_worker-Steady s.active k (s.sessions k) (inv.fits k))
act-Later (publish_action k) i s inv =
    at-Later publish k i s (publish-Steady s.active k (s.sessions k) (inv.fits k))
act-Later (worker_ends_action k r) i s inv =
    at-Later (worker_ends r) k i s (worker_ends-Steady r s.active k (s.sessions k) (inv.fits k))

pub run-Later :
    (actions : List Action) (i : ℕ) (s : Service)
    → Inv s
    → Later (s.sessions i) ((run actions s).sessions i)
unfolding run
run-Later [] i s inv = Later-refl (s.sessions i)
run-Later (a ∷ actions) i s inv =
    Later-trans (s.sessions i) ((act a s).sessions i) ((run actions (act a s)).sessions i)
      (act-Later a i s inv) (run-Later actions i (act a s) (act-Inv a s inv))
