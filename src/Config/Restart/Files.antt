-- ===== src/Config/Restart/Files.antt =====
-- The files over all that the web interface asks of xiaoai-agent/src/web/config_store.rs.
use xiaoai_agent.Prelude.{
  ◌≡◌, Bool, true, false, List, [], ◌∷◌, ◌++◌, if◌then◌else◌, arith, subst, sym,
}
use xiaoai_agent.Config.Secret.{SecretUpdate}
use xiaoai_agent.Config.Update.Fields.{EditableConfig}
use xiaoai_agent.Config.Store.{
  Codec, Disk, Faults, ConfigStore, save, save_locked, schedule_restart,
}
use xiaoai_agent.Config.Store.Atomic.{AllDisks}
use xiaoai_agent.Config.Store.History.{DiskLoads, save_locked-Loads}
use xiaoai_agent.Config.Restart.{Server, request_restart, Op, save_op, restart_op, run_op}

-- The disks that an operation passes through: a crash may stop it at any of them.
abbrev pub op_trail : {App : Type 0} → Codec App → Op → Server → List Disk
op_trail codec (save_op faults update) s =
    if s.store.restart_scheduled then [] else (save_locked codec faults update s.store.disk).trail
op_trail codec (restart_op spawns) s = []

abbrev pub ops_trail : {App : Type 0} → Codec App → List Op → Server → List Disk
ops_trail codec [] s = s.store.disk ∷ []
ops_trail codec (op ∷ ops) s = op_trail codec op s ++ ops_trail codec ops (run_op codec op s)

AllDisks-append :
    (P : Disk → Type 0) (xs ys : List Disk) → AllDisks P xs → AllDisks P ys → AllDisks P (xs ++ ys)
AllDisks-append P [] ys hx hy = hy
AllDisks-append P (x ∷ xs) ys hx hy = (hx.0, AllDisks-append P xs ys hx.1 hy)

save-disk :
    {App : Type 0} (codec : Codec App) (faults : Faults) (update : EditableConfig SecretUpdate)
    (s : ConfigStore)
    → (save codec faults update s).0.disk
      ≡ (if s.restart_scheduled then s.disk else (save_locked codec faults update s.disk).disk)
unfolding save
save-disk codec faults update s = ground arith

request-disk : (spawns : Bool) (s : Server) → (request_restart spawns s).0.store.disk ≡ s.store.disk
unfolding request_restart schedule_restart
request-disk spawns s = ground arith

op-Loads :
    {App : Type 0} (codec : Codec App) (op : Op) (s : Server)
    → DiskLoads codec s.store.disk
    → AllDisks (DiskLoads codec) (op_trail codec op s)
      × DiskLoads codec (run_op codec op s).store.disk
unfolding run_op
op-Loads codec (restart_op spawns) s h =
    (tt, subst (DiskLoads codec) (sym (request-disk spawns s)) h)
op-Loads codec (save_op faults update) s h =
    let run = save_locked codec faults update s.store.disk in
    let after = save_locked-Loads codec faults update s.store.disk h in
    let gate = s.store.restart_scheduled in
    (
      elim gate as (λ b. AllDisks (DiskLoads codec) (if b then [] else run.trail)) [
        | true ↦ tt
        | false ↦ after.0
      ],
      subst (DiskLoads codec) (sym (save-disk codec faults update s.store))
          (elim gate as (λ b. DiskLoads codec (if b then s.store.disk else run.disk)) [
            | true ↦ h
            | false ↦ after.1
          ]),
    )

-- If the configuration file loads at first, it loads at every point of every sequence of saves and
-- restart requests, whatever updates are sent and whatever file operations fail, also where a crash
-- stops a save between two of its file operations.
pub ops-Loads :
    {App : Type 0} (codec : Codec App) (ops : List Op) (s : Server)
    → DiskLoads codec s.store.disk
    → AllDisks (DiskLoads codec) (ops_trail codec ops s)
ops-Loads codec [] s h = (h, tt)
ops-Loads codec (op ∷ ops) s h =
    let one = op-Loads codec op s h in
    AllDisks-append (DiskLoads codec) (op_trail codec op s)
      (ops_trail codec ops (run_op codec op s)) one.0
      (ops-Loads codec ops (run_op codec op s) one.1)
