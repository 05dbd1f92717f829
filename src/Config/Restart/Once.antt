-- ===== src/Config/Restart/Once.antt =====
-- Restart requests of xiaoai-agent/src/web/restart.rs among the saves of config_store.rs.
use xiaoai_agent.Prelude.{◌≡◌, refl, ap, ◌∙◌, Bool, true, false, none, List, [], ◌∷◌, arith, ◌⊎◌}
use xiaoai_agent.Config.Secret.{SecretUpdate}
use xiaoai_agent.Config.Update.Fields.{EditableConfig}
use xiaoai_agent.Config.Store.{Codec, Faults, ConfigStore, save, schedule_restart}
use xiaoai_agent.Config.Restart.{
  claim_restart, spawn_worker, process_schedule_restart, Server, request_restart, Op, save_op,
  restart_op, run_op, run_ops,
}

-- The gate, the flag of the restarter and the workers agree.
abbrev pub Agree : Server → Type 0
Agree s =
    ((s.store.restart_scheduled ≡ false)
      × (s.restarter.scheduled ≡ false)
      × (s.restarter.workers ≡ 0))
    ⊎ ((s.store.restart_scheduled ≡ true)
        × (s.restarter.scheduled ≡ true)
        × (s.restarter.workers ≡ 1))

save-gate :
    {App : Type 0} (codec : Codec App) (faults : Faults) (update : EditableConfig SecretUpdate)
    (s : ConfigStore)
    → (save codec faults update s).0.restart_scheduled ≡ s.restart_scheduled
unfolding save
save-gate codec faults update s = ground arith

request-Agree : (spawns : Bool) (s : Server) → Agree s → Agree (request_restart spawns s).0
unfolding request_restart schedule_restart process_schedule_restart claim_restart spawn_worker
request-Agree true s h = ground arith
request-Agree false s h = ground arith

run_op-Agree :
    {App : Type 0} (codec : Codec App) (op : Op) (s : Server) → Agree s → Agree (run_op codec op s)
unfolding run_op
run_op-Agree codec (save_op faults update) s h =
    ground (arith, save-gate codec faults update s.store)
run_op-Agree codec (restart_op spawns) s h = request-Agree spawns s h

-- If the gate of the store is shut, the flag of the restarter set and one worker started, or none of
-- these, then so it is behind all saves and restart requests, whatever fails: the gate is shut exactly
-- when a worker has been started, and there is never a second one.
run_ops-Agree :
    {App : Type 0} (codec : Codec App) (ops : List Op) (s : Server)
    → Agree s
    → Agree (run_ops codec ops s)
unfolding run_ops
run_ops-Agree codec [] s h = h
run_ops-Agree codec (op ∷ ops) s h =
    run_ops-Agree codec ops (run_op codec op s) (run_op-Agree codec op s h)

save-shut :
    {App : Type 0} (codec : Codec App) (faults : Faults) (update : EditableConfig SecretUpdate)
    (s : ConfigStore)
    → s.restart_scheduled ≡ true
    → (save codec faults update s).0 ≡ s
unfolding save
save-shut codec faults update s h = ground arith

run_op-shut :
    {App : Type 0} (codec : Codec App) (op : Op) (s : Server)
    → s.store.restart_scheduled ≡ true
    → run_op codec op s ≡ s
unfolding run_op request_restart
run_op-shut codec (save_op faults update) s h =
    ap (λ (t : ConfigStore). record { store = t; restarter = s.restarter })
      (save-shut codec faults update s.store h)
run_op-shut codec (restart_op spawns) s h = ground arith

run_ops-same :
    {App : Type 0} (codec : Codec App) (ops : List Op) (s : Server)
    → s.store.restart_scheduled ≡ true
    → run_ops codec ops s ≡ s
unfolding run_ops
run_ops-same codec [] s h = refl
run_ops-same codec (op ∷ ops) s h =
    ap (run_ops codec ops) (run_op-shut codec op s h) ∙ run_ops-same codec ops s h

request-granted :
    (spawns : Bool) (s : Server)
    → (request_restart spawns s).1 ≡ none
    → (request_restart spawns s).0.store.restart_scheduled ≡ true
unfolding request_restart schedule_restart process_schedule_restart claim_restart spawn_worker
request-granted true s h = ground arith
request-granted false s h = ground arith

-- Once a restart request has been granted, no later save or request changes anything: neither a file
-- nor a flag nor a worker.
pub run_ops-shut :
    {App : Type 0} (codec : Codec App) (ops : List Op) (spawns : Bool) (s : Server)
    → (request_restart spawns s).1 ≡ none
    → run_ops codec ops (request_restart spawns s).0 ≡ (request_restart spawns s).0
run_ops-shut codec ops spawns s h =
    run_ops-same codec ops (request_restart spawns s).0 (request-granted spawns s h)
