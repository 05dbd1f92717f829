-- ===== src/Config/Store.antt =====
-- `ConfigStore` of xiaoai-agent/src/web/config_store.rs: the save of an update and the restart gate.
-- The three files it touches are texts; the outcome of every file operation is an argument. The YAML
-- reader and printer and `AppConfig::load` are functions on texts, also arguments.
pub mod Atomic
pub mod History
pub mod Success
use xiaoai_agent.Prelude.{
  Bool, true, false, ◌&&◌, List, [], ◌∷◌, Option, none, some, String, if◌then◌else◌,
}
use xiaoai_agent.Config.Yaml.{Yaml}
use xiaoai_agent.Config.Secret.{SecretUpdate}
use xiaoai_agent.Config.Update.Fields.{EditableConfig}
use xiaoai_agent.Config.Update.{
  Result, ok, err, restart_in_progress, io_error, apply_update_to_yaml,
}
use xiaoai_agent.Config.Validate.{validate_update}

-- `serde_yaml::from_str`, `serde_yaml::to_string` and `AppConfig::load` with its errors mapped.
pub record Codec (App : Type 0) : Type 0 where
  pub parse : String → Result Yaml
  pub print : Yaml → Result String
  pub load : String → Result App

pub record Disk : Type 0 where
  pub formal : Option String
  pub temp : Option String
  pub backup : Option String

-- What each file operation does: a write may leave another text behind, and so may a copy.
pub record Faults : Type 0 where
  pub read_works : Bool
  pub create_works : Bool
  pub torn : Option String
  pub sync_works : Bool
  pub reread_works : Bool
  pub copy_torn : Option (Option String)
  pub rename_works : Bool
  pub remove_works : Bool

-- The disks that a run passes through, the last one, and what it returns.
pub record Run (A : Type 0) : Type 0 where
  pub trail : List Disk
  pub disk : Disk
  pub result : Result A

abbrev pub stop : {A : Type 0} → Disk → Result A → Run A
stop d r = record { trail = d ∷ []; disk = d; result = r }

abbrev pub visit : {A : Type 0} → Disk → Run A → Run A
visit d r = record { trail = d ∷ r.trail; disk = r.disk; result = r.result }

unfoldable pub candidate_text :
    {App : Type 0} → Codec App → EditableConfig SecretUpdate → String → Result String
unfolding apply_update_to_yaml
candidate_text codec update text = elim (codec.parse text) [
  | err e ↦ err e
  | ok root ↦ elim (apply_update_to_yaml update root) [ err e ↦ err e | ok out ↦ codec.print out ]
]

-- `std::fs::rename`
unfoldable pub replace_formal_file : {App : Type 0} → Faults → App → Disk → Run App
replace_formal_file faults app d =
    if faults.rename_works
    then stop (record { formal = d.temp; temp = none; backup = d.backup }) (ok app)
    else stop d (err io_error)

-- `std::fs::copy` of the formal file.
unfoldable pub copy_backup : {App : Type 0} → Faults → App → Disk → Run App
unfolding replace_formal_file
copy_backup faults app d = elim faults.copy_torn [
  | some left ↦ stop (record { formal = d.formal; temp = d.temp; backup = left }) (err io_error)
  | none ↦
      let copied : Disk = record { formal = d.formal; temp = d.temp; backup = d.formal } in
      visit copied (replace_formal_file faults app copied)
]

-- The candidate is loaded from the file just written.
unfoldable pub load_candidate : {App : Type 0} → Codec App → Faults → String → Disk → Run App
unfolding copy_backup
load_candidate codec faults text d =
    if faults.sync_works && faults.reread_works
    then elim (codec.load text) [ err e ↦ stop d (err e) | ok app ↦ copy_backup faults app d ]
    else stop d (err io_error)

unfoldable pub write_temp : {App : Type 0} → Codec App → Faults → String → Disk → Run App
unfolding load_candidate
write_temp codec faults text d = elim faults.torn [
  | some left ↦
      stop (record { formal = d.formal; temp = some left; backup = d.backup }) (err io_error)
  | none ↦
      let written : Disk = record { formal = d.formal; temp = some text; backup = d.backup } in
      visit written (load_candidate codec faults text written)
]

-- The name is new for each save, so that no file is there; what an earlier save left under its name is
-- never read again, and `temp` forgets it.
unfoldable pub create_temp : {App : Type 0} → Codec App → Faults → String → Disk → Run App
unfolding write_temp
create_temp codec faults text d =
    if faults.create_works
    then (let created : Disk = record { formal = d.formal; temp = some ""; backup = d.backup } in
        visit created (write_temp codec faults text created))
    else stop d (err io_error)

-- `remove_file` of the temporary file, whose own error is ignored.
abbrev pub remove_temp : Faults → Disk → Disk
remove_temp faults d = record {
  formal = d.formal;
  temp = if faults.remove_works then none else d.temp;
  backup = d.backup;
}

abbrev pub add_last : {A : Type 0} → List A → A → List A
add_last [] a = a ∷ []
add_last (x ∷ xs) a = x ∷ add_last xs a

unfoldable pub clean_up : {App : Type 0} → Faults → Run App → Run App
clean_up faults r = elim r.result [
  | ok app ↦ r
  | err e ↦
      let cleaned = remove_temp faults r.disk in
      record { trail = add_last r.trail cleaned; disk = cleaned; result = err e }
]

unfoldable pub save_text :
    {App : Type 0}
    → Codec App
    → Faults
    → EditableConfig SecretUpdate
    → Option String
    → Disk
    → Run App
unfolding candidate_text create_temp clean_up
save_text codec faults update none d = stop d (err io_error)
save_text codec faults update (some text) d = elim (candidate_text codec update text) [
  | err e ↦ stop d (err e)
  | ok candidate ↦ clean_up faults (create_temp codec faults candidate d)
]

abbrev pub read_formal : Faults → Disk → Option String
read_formal faults d = if faults.read_works then d.formal else none

unfoldable pub save_locked :
    {App : Type 0} → Codec App → Faults → EditableConfig SecretUpdate → Disk → Run App
unfolding save_text
save_locked codec faults update d = elim (validate_update update) [
  | err e ↦ stop d (err e)
  | ok _ ↦ save_text codec faults update (read_formal faults d) d
]

pub record ConfigStore : Type 0 where
  pub disk : Disk
  pub restart_scheduled : Bool
  pub restart_required : Bool

-- The flag is set behind the last `?`.
abbrev pub is_ok : {A : Type 0} → Result A → Bool
is_ok (ok a) = true
is_ok (err e) = false

unfoldable pub save :
    {App : Type 0}
    → Codec App
    → Faults
    → EditableConfig SecretUpdate
    → ConfigStore
    → ConfigStore × Result App
unfolding save_locked
save codec faults update s =
    if s.restart_scheduled
    then (s, err restart_in_progress)
    else (let r = save_locked codec faults update s.disk in
        (
          record {
            disk = r.disk;
            restart_scheduled = s.restart_scheduled;
            restart_required = if is_ok r.result then true else s.restart_required;
          },
          r.result,
        ))

pub data RestartError : Type 0 where
  already_scheduled unsupported current_exe spawn_failed : RestartError

-- The answer of the restart controller is an argument: an error, or none.
unfoldable pub schedule_restart :
    Option RestartError → ConfigStore → ConfigStore × Option RestartError
schedule_restart answer s =
    if s.restart_scheduled then (s, some already_scheduled) else elim answer [
      | some e ↦ (s, some e)
      | none ↦ (
        record { disk = s.disk; restart_scheduled = true; restart_required = s.restart_required },
        none,
      )
    ]
