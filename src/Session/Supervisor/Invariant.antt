-- ===== src/Session/Supervisor/Invariant.antt =====
-- What holds of the sessions of xiaoai-agent/src/qwen_voice.rs whatever their tasks do, in any order.
use xiaoai_agent.Prelude.{
  ℕ, ◌≤◌, ◌≡◌, refl, ap, subst, ◌∙◌, Bool, true, false, Option, some, List, [], ◌∷◌, ◌==◌, arith,
  inl, inr, Bool-cases,
}
use xiaoai_agent.Session.Supervisor.{
  WorkerResult, Worker, Stage, Session, ActiveSession, Service, absent_session, not_spawned,
  running, absent, prepared, refused, supervising, draining, overdue, ended, cleared, published,
}
use xiaoai_agent.Session.Supervisor.Turns.{
  holds, is_completed, mark_cancelled, request_cancel, interrupt_session, activate, drop_waiter,
  waiter_returns, setup_if_running, worker_ends, notice_cancel, cancel_deadline, join_worker,
  publish,
}
use xiaoai_agent.Session.Supervisor.Actions.{
  at, prepare_session_control, slot_busy, enter_at, refuse, start, give_back, enter,
  clear_active_if_owned, clear_at, clear, Action, act, run, new_service, prepare_action,
  enter_action, mark_action, cancel_action, interrupt_action, activate_action, drop_waiter_action,
  waiter_returns_action, setup_action, notice_action, deadline_action, join_action, clear_action,
  publish_action, worker_ends_action,
}

abbrev pub is_running : Worker → Bool
is_running running = true
is_running _ = false

abbrev pub is_published : Stage → Bool
is_published published = true
is_published _ = false

-- The supervisor has not joined the worker.
abbrev pub awaits_worker : Stage → Bool
awaits_worker supervising = true
awaits_worker draining = true
awaits_worker overdue = true
awaits_worker _ = false

abbrev pub is_spawned : Worker → Bool
is_spawned not_spawned = false
is_spawned _ = true

-- A session and the slot: what is held is in the slot, a worker that runs is still to be joined, and
-- the outcome is sent last.
abbrev pub Fits : Option ActiveSession → ℕ → Session → Type 0
Fits slot k x =
    (holds x.stage ≡ true → slot ≡ some (record { id = x.id; handle = k }))
    × (is_running x.worker ≡ true → awaits_worker x.stage ≡ true)
    × (is_completed x ≡ true → is_published x.stage ≡ true)
    × (awaits_worker x.stage ≡ true → is_spawned x.worker ≡ true)

pub record Inv (s : Service) : Type 0 where
  pub fits : (k : ℕ) → Fits s.active k (s.sessions k)
  pub fresh : (k : ℕ) → s.count ≤ k → s.sessions k ≡ absent_session

-- A change of one session that leaves its place in the slot alone.
abbrev Keeps : (Session → Session) → Type 0
Keeps f =
    (f absent_session ≡ absent_session)
    × ((slot : Option ActiveSession) (k : ℕ) (x : Session) → Fits slot k x → Fits slot k (f x))

-- A change of one session and of the slot.
put-Inv :
    (f : Session → Session) (k : ℕ) (s : Service) (slot : Option ActiveSession)
    → Inv s
    → Fits slot k (f (s.sessions k))
    → ((j : ℕ) → (j == k) ≡ false → Fits slot j (s.sessions j))
    → (s.count ≤ k → f (s.sessions k) ≡ absent_session)
    → Inv (record (at k f s) { active = slot })
put-Inv f k s slot inv here there none_yet = record {
  fits = λ j. elim (Bool-cases (j == k)) [
    | inl same ↦ rw same (subst (λ (i : ℕ). Fits slot i (f (s.sessions k))) (ground arith) here)
    | inr other ↦ rw other (there j other)
  ];
  fresh = λ j h. elim (Bool-cases (j == k)) [
    | inl same ↦ rw same (none_yet (ground arith))
    | inr other ↦ rw other (inv.fresh j h)
  ];
}

at-Inv : (f : Session → Session) (k : ℕ) (s : Service) → Keeps f → Inv s → Inv (at k f s)
at-Inv f k s (none_yet, keeps) inv =
    put-Inv f k s s.active inv (keeps s.active k (s.sessions k) (inv.fits k))
      (λ j other. inv.fits j) (λ h. ap f (inv.fresh k h) ∙ none_yet)

mark_cancelled-Keeps : Keeps mark_cancelled
mark_cancelled-Keeps = (refl, λ slot k x fits. ground arith)

request_cancel-Keeps : Keeps request_cancel
request_cancel-Keeps = (refl, λ slot k x fits. ground arith)

interrupt_session-Keeps : Keeps interrupt_session
interrupt_session-Keeps = (refl, λ slot k x fits. ground arith)

activate-Keeps : Keeps activate
activate-Keeps = (refl, λ slot k x fits. ground arith)

drop_waiter-Keeps : Keeps drop_waiter
drop_waiter-Keeps = (refl, λ slot k x fits. ground arith)

waiter_returns-Keeps : Keeps waiter_returns
waiter_returns-Keeps = (refl, λ slot k x fits. ground arith)

setup_if_running-Keeps : Keeps setup_if_running
setup_if_running-Keeps = (refl, λ slot k x fits. ground arith)

notice_cancel-Keeps : Keeps notice_cancel
notice_cancel-Keeps = (refl, λ slot k x fits. ground arith)

cancel_deadline-Keeps : Keeps cancel_deadline
cancel_deadline-Keeps = (refl, λ slot k x fits. ground arith)

join_worker-Keeps : Keeps join_worker
join_worker-Keeps = (refl, λ slot k x fits. ground arith)

publish-Keeps : Keeps publish
publish-Keeps = (refl, λ slot k x fits. ground arith)

worker_ends-Keeps : (r : WorkerResult) → Keeps (worker_ends r)
worker_ends-Keeps r = (refl, λ slot k x fits. ground arith)

prepare-Inv : (s : Service) → Inv s → Inv (prepare_session_control s)
prepare-Inv s inv = record {
  fits = λ j. elim (Bool-cases (j == s.count)) [
    | inl here ↦ rw here (ground arith)
    | inr other ↦ rw other (inv.fits j)
  ];
  fresh = λ j h.
      let other : (j == s.count) ≡ false = ground arith in rw other (inv.fresh j (ground arith));
}

-- Whoever holds the slot keeps it busy.
busy_holder : (s : Service) (j : ℕ) → Inv s → holds (s.sessions j).stage ≡ true → slot_busy s ≡ true
busy_holder s j inv h = let (held, _, sent, _) = inv.fits j in rw (held h) (ground arith)

enter_at-Inv :
    (stage : Stage) (k : ℕ) (s : Service)
    → (s.sessions k).stage ≡ stage
    → Inv s
    → Inv (enter_at stage k s)
enter_at-Inv absent k s e inv = inv
enter_at-Inv refused k s e inv = inv
enter_at-Inv supervising k s e inv = inv
enter_at-Inv draining k s e inv = inv
enter_at-Inv overdue k s e inv = inv
enter_at-Inv (ended o) k s e inv = inv
enter_at-Inv (cleared o) k s e inv = inv
enter_at-Inv published k s e inv = inv
enter_at-Inv prepared k s e inv =
    let fits = inv.fits k in
    let fresh = inv.fresh k in
    elim (Bool-cases (slot_busy s)) [
      | inl busy ↦ rw busy (
          put-Inv refuse k s s.active inv (ground arith) (λ j other. inv.fits j)
            (λ h. ground (arith, fresh h)))
      | inr idle ↦
          let slot : Option ActiveSession = some (record { id = (s.sessions k).id; handle = k }) in
          rw idle (
            put-Inv start k s slot inv (ground arith)
              (λ j other.
                let (held, works, sent, spawned) = inv.fits j in
                let busy = busy_holder s j inv in ground arith)
              (λ h. ground (arith, fresh h)))
    ]

enter-Inv : (k : ℕ) (s : Service) → Inv s → Inv (enter k s)
enter-Inv k s inv = enter_at-Inv (s.sessions k).stage k s refl inv

clear_at-Inv :
    (stage : Stage) (k : ℕ) (s : Service)
    → (s.sessions k).stage ≡ stage
    → Inv s
    → Inv (clear_at stage k s)
clear_at-Inv absent k s e inv = inv
clear_at-Inv prepared k s e inv = inv
clear_at-Inv refused k s e inv = inv
clear_at-Inv supervising k s e inv = inv
clear_at-Inv draining k s e inv = inv
clear_at-Inv overdue k s e inv = inv
clear_at-Inv (cleared o) k s e inv = inv
clear_at-Inv published k s e inv = inv
clear_at-Inv (ended o) k s e inv =
    let (held, works, sent, spawned) = inv.fits k in
    let fresh = inv.fresh k in
    let slot = clear_active_if_owned (s.sessions k).id s.active in
    let mine : s.active ≡ some (record { id = (s.sessions k).id; handle = k }) = ground arith in
    put-Inv (give_back o) k s slot inv (ground arith)
      (λ j other.
        let (held_other, works_other, sent_other, spawned_other) = inv.fits j in ground arith)
      (λ h. ground (arith, fresh h))

clear-Inv : (k : ℕ) (s : Service) → Inv s → Inv (clear k s)
clear-Inv k s inv = clear_at-Inv (s.sessions k).stage k s refl inv

pub act-Inv : (a : Action) (s : Service) → Inv s → Inv (act a s)
unfolding act
act-Inv prepare_action s inv = prepare-Inv s inv
act-Inv (enter_action k) s inv = enter-Inv k s inv
act-Inv (mark_action k) s inv = at-Inv mark_cancelled k s mark_cancelled-Keeps inv
act-Inv (cancel_action k) s inv = at-Inv request_cancel k s request_cancel-Keeps inv
act-Inv (interrupt_action k) s inv = at-Inv interrupt_session k s interrupt_session-Keeps inv
act-Inv (activate_action k) s inv = at-Inv activate k s activate-Keeps inv
act-Inv (drop_waiter_action k) s inv = at-Inv drop_waiter k s drop_waiter-Keeps inv
act-Inv (waiter_returns_action k) s inv = at-Inv waiter_returns k s waiter_returns-Keeps inv
act-Inv (setup_action k) s inv = at-Inv setup_if_running k s setup_if_running-Keeps inv
act-Inv (notice_action k) s inv = at-Inv notice_cancel k s notice_cancel-Keeps inv
act-Inv (deadline_action k) s inv = at-Inv cancel_deadline k s cancel_deadline-Keeps inv
act-Inv (join_action k) s inv = at-Inv join_worker k s join_worker-Keeps inv
act-Inv (clear_action k) s inv = clear-Inv k s inv
act-Inv (publish_action k) s inv = at-Inv publish k s publish-Keeps inv
act-Inv (worker_ends_action k r) s inv = at-Inv (worker_ends r) k s (worker_ends-Keeps r) inv

pub run-Inv : (actions : List Action) (s : Service) → Inv s → Inv (run actions s)
unfolding run
run-Inv [] s inv = inv
run-Inv (a ∷ actions) s inv = run-Inv actions (act a s) (act-Inv a s inv)

pub new_service-Inv : Inv new_service
new_service-Inv = record { fits = λ k. ground arith; fresh = λ k h. refl }
