-- ===== src/Config/Restart.antt =====
-- `ProcessRestarter` of xiaoai-agent/src/web/restart.rs on a Unix target, and the restart request that
-- goes through the gate of the configuration store to it. Whether the worker thread can be started is
-- an argument; what the worker does, to replace the process, is not modelled.
pub mod Once
pub mod Files
use xiaoai_agent.Prelude.{
  ℕ, ◌+◌, Bool, true, false, Option, none, some, List, [], ◌∷◌, if◌then◌else◌,
}
use xiaoai_agent.Config.Secret.{SecretUpdate}
use xiaoai_agent.Config.Update.Fields.{EditableConfig}
use xiaoai_agent.Config.Store.{
  Codec, Disk, Faults, Run, ConfigStore, RestartError, already_scheduled, spawn_failed, save,
  schedule_restart,
}

-- The flag, and the workers started so far.
pub record ProcessRestarter : Type 0 where
  pub scheduled : Bool
  pub workers : ℕ

-- `compare_exchange(false, true)`
unfoldable pub claim_restart : ProcessRestarter → ProcessRestarter × Option RestartError
claim_restart r =
    if r.scheduled
    then (r, some already_scheduled)
    else (record { scheduled = true; workers = r.workers }, none)

unfoldable pub spawn_worker : Bool → ProcessRestarter → ProcessRestarter × Option RestartError
spawn_worker true r = (record { scheduled = r.scheduled; workers = r.workers + 1 }, none)
spawn_worker false r = (record { scheduled = false; workers = r.workers }, some spawn_failed)

abbrev pub behind_claim :
    Bool → ProcessRestarter × Option RestartError → ProcessRestarter × Option RestartError
behind_claim spawns (r, some e) = (r, some e)
behind_claim spawns (r, none) = spawn_worker spawns r

unfoldable pub process_schedule_restart :
    Bool → ProcessRestarter → ProcessRestarter × Option RestartError
unfolding claim_restart spawn_worker
process_schedule_restart spawns r = behind_claim spawns (claim_restart r)

pub record Server : Type 0 where
  pub store : ConfigStore
  pub restarter : ProcessRestarter

-- The restarter is asked only behind the gate of the store.
unfoldable pub request_restart : Bool → Server → Server × Option RestartError
unfolding schedule_restart process_schedule_restart
request_restart spawns s =
    if s.store.restart_scheduled
    then (s, some already_scheduled)
    else (let (restarter, answer) = process_schedule_restart spawns s.restarter in
        let (store, reply) = schedule_restart answer s.store in
        (record { store = store; restarter = restarter }, reply))

-- What the web interface asks for, with the faults met.
pub data Op : Type 0 where
  save_op : Faults → EditableConfig SecretUpdate → Op
  restart_op : Bool → Op

unfoldable pub run_op : {App : Type 0} → Codec App → Op → Server → Server
unfolding save request_restart
run_op codec (save_op faults update) s = record {
  store = (save codec faults update s.store).0;
  restarter = s.restarter;
}
run_op codec (restart_op spawns) s = (request_restart spawns s).0

unfoldable pub run_ops : {App : Type 0} → Codec App → List Op → Server → Server
unfolding run_op
run_ops codec [] s = s
run_ops codec (op ∷ ops) s = run_ops codec ops (run_op codec op s)
