-- ===== src/Session/Supervisor/Safety.antt =====
-- The session supervisor of xiaoai-agent/src/qwen_voice.rs over any order of its tasks.
use xiaoai_agent.Prelude.{ℕ, ◌≡◌, refl, sym, ap, ◌∙◌, true, false, none, some, List, [], ◌∷◌, arith}
use xiaoai_agent.Session.Supervisor.{
  SessionTerminalOutcome, WorkerResult, outcome_of, Worker, Session, Service, forced_timeout,
  finished, overdue, ended, cleared,
}
use xiaoai_agent.Session.Supervisor.Turns.{is_cancelled, worker_ends, join_worker, publish}
use xiaoai_agent.Session.Supervisor.Actions.{
  at, clear, Action, act, run, new_service, mark_action, join_action, clear_action, publish_action,
  worker_ends_action,
}
use xiaoai_agent.Session.Supervisor.Invariant.{
  is_running, awaits_worker, is_spawned, act-Inv, run-Inv, new_service-Inv,
}
use xiaoai_agent.Session.Supervisor.Later.{exists, run-Later}

-- Whatever the tasks do and in whatever order, two sessions whose workers run are the same session,
-- and the slot holds it.
pub one_worker :
    (actions : List Action) (i j : ℕ)
    → is_running ((run actions new_service).sessions i).worker ≡ true
    → is_running ((run actions new_service).sessions j).worker ≡ true
    → (i ≡ j)
      × ((run actions new_service).active
          ≡ some (record { id = ((run actions new_service).sessions i).id; handle = i }))
one_worker actions i j hi hj =
    let inv = run-Inv actions new_service new_service-Inv in
    let (held_i, works_i, sent_i, _) = inv.fits i in
    let (held_j, works_j, sent_j, _) = inv.fits j in ground arith

-- An outcome, once sent, is the outcome of the session for good, and its worker does not run.
terminal-final :
    (before after : List Action) (k : ℕ) {o : SessionTerminalOutcome}
    → ((run before new_service).sessions k).terminal ≡ some o
    → (((run after (run before new_service)).sessions k).terminal ≡ some o)
      × (is_running ((run after (run before new_service)).sessions k).worker ≡ false)
terminal-final before after k h =
    let s = run before new_service in
    let inv = run-Inv before new_service new_service-Inv in
    let inv_after = run-Inv after s inv in
    let (held, works, sent, _) = inv_after.fits k in
    let (keeps, _, _) = run-Later after k s inv in ground arith

mark-here :
    (k : ℕ) (s : Service)
    → exists (s.sessions k) ≡ true
    → (is_cancelled ((act (mark_action k) s).sessions k).phase ≡ true)
      × (exists ((act (mark_action k) s).sessions k) ≡ true)
      × (((act (mark_action k) s).sessions k).acquired ≡ (s.sessions k).acquired)
unfolding act
mark-here k s h = ground arith

-- From the moment that the setup lock of a prepared session is marked as cancelled, the setup closure
-- is not run for it any more.
pub cancelled-acquires_nothing :
    (before after : List Action) (k : ℕ)
    → exists ((run before new_service).sessions k) ≡ true
    → ((run after (act (mark_action k) (run before new_service))).sessions k).acquired
      ≡ ((run before new_service).sessions k).acquired
cancelled-acquires_nothing before after k h =
    let s = run before new_service in
    let inv = run-Inv before new_service new_service-Inv in
    let marked = mark-here k s h in
    let (_, keeps, _) = run-Later after k (act (mark_action k) s) (act-Inv (mark_action k) s inv) in
    (keeps marked.0 marked.1).1 ∙ marked.2

-- The turn of the supervisor behind the end of the worker.
abbrev pub finish : ℕ → WorkerResult → List Action
finish k r = worker_ends_action k r ∷ join_action k ∷ clear_action k ∷ publish_action k ∷ []

at-here : (f : Session → Session) (k : ℕ) (s : Service) → (at k f s).sessions k ≡ f (s.sessions k)
at-here f k s = ground arith

abbrev result_of : Worker → WorkerResult → WorkerResult
result_of (finished earlier) r = earlier
result_of _ r = r

-- The timeout, if the deadline has passed, and else what the worker returned.
abbrev pub final_outcome : Session → WorkerResult → SessionTerminalOutcome
final_outcome x r = elim x.stage [
  | overdue ↦ forced_timeout
  | other ↦ outcome_of (result_of x.worker r)
]

join-ends :
    (r : WorkerResult) (x : Session)
    → awaits_worker x.stage ≡ true
    → is_spawned x.worker ≡ true
    → ((join_worker (worker_ends r x)).stage ≡ ended (final_outcome x r))
      × ((join_worker (worker_ends r x)).id ≡ x.id)
join-ends r x h w = ground arith

clear-ended :
    (k : ℕ) (s : Service) (o : SessionTerminalOutcome)
    → (s.sessions k).stage ≡ ended o
    → s.active ≡ some (record { id = (s.sessions k).id; handle = k })
    → ((clear k s).active ≡ none) × (((clear k s).sessions k).stage ≡ cleared o)
clear-ended k s o e held = rw e (ground arith)

publish-cleared :
    (o : SessionTerminalOutcome) (x : Session) → x.stage ≡ cleared o → (publish x).terminal ≡ some o
publish-cleared o x e = ground arith

run-finish :
    (k : ℕ) (r : WorkerResult) (s : Service)
    → run (finish k r) s ≡ at k publish (clear k (at k join_worker (at k (worker_ends r) s)))
unfolding run act
run-finish k r s = refl

-- A session whose worker is awaited is brought to its end by three turns of the supervisor behind the
-- end of the worker: the slot is given back, and the outcome is the timeout if the deadline has passed
-- and what the worker returned otherwise.
pub finish-publishes :
    (before : List Action) (k : ℕ) (r : WorkerResult)
    → awaits_worker ((run before new_service).sessions k).stage ≡ true
    → (((run (finish k r) (run before new_service)).sessions k).terminal
        ≡ some (final_outcome ((run before new_service).sessions k) r))
      × ((run (finish k r) (run before new_service)).active ≡ none)
finish-publishes before k r h =
    let s = run before new_service in
    let (held, _, _, spawned) = (run-Inv before new_service new_service-Inv).fits k in
    let x = s.sessions k in
    let o = final_outcome x r in
    let joined = at k join_worker (at k (worker_ends r) s) in
    let here : joined.sessions k ≡ join_worker (worker_ends r x) =
      at-here join_worker k (at k (worker_ends r) s)
      ∙ ap join_worker (at-here (worker_ends r) k s) in
    let (stage, id) = join-ends r x h (spawned h) in
    let slot : joined.active ≡ some (record { id = (joined.sessions k).id; handle = k }) =
      held (ground arith)
      ∙ ap (λ (n : ℕ). some (record { id = n; handle = k }))
          (sym (ap (λ (y : Session). y.id) here ∙ id)) in
    let (free, given) = clear-ended k joined o (ap (λ (y : Session). y.stage) here ∙ stage) slot in
    (
      ap (λ (t : Service). (t.sessions k).terminal) (run-finish k r s)
          ∙ ap (λ (y : Session). y.terminal) (at-here publish k (clear k joined))
          ∙ publish-cleared o ((clear k joined).sessions k) given,
      ap (λ (t : Service). t.active) (run-finish k r s) ∙ free,
    )
