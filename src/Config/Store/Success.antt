-- ===== src/Config/Store/Success.antt =====
-- The saves of xiaoai-agent/src/web/config_store.rs in which every file operation works.
use xiaoai_agent.Prelude.{◌≡◌, refl, ap, ◌∙◌, true, false, none, some, String, arith}
use xiaoai_agent.Config.Secret.{SecretUpdate}
use xiaoai_agent.Config.Update.Fields.{EditableConfig}
use xiaoai_agent.Config.Update.{ok}
use xiaoai_agent.Config.Store.{
  Codec, Disk, Faults, Run, candidate_text, replace_formal_file, copy_backup, load_candidate,
  write_temp, create_temp, clean_up, save_text, save_locked, ConfigStore, save,
}
use xiaoai_agent.Config.Store.Atomic.{CandidateOf, save_locked-valid}

-- Every file operation works.
abbrev pub no_faults : Faults
no_faults = record {
  read_works = true;
  create_works = true;
  torn = none;
  sync_works = true;
  reread_works = true;
  copy_torn = none;
  rename_works = true;
  remove_works = true;
}

-- The disk behind a save that went well.
abbrev pub replaced : Disk → String → Disk
replaced d text = record { formal = some text; temp = none; backup = d.formal }

module _ {App : Type 0} (codec : Codec App) (text : String) (app : App) where
  load-works :
      (d : Disk)
      → codec.load text ≡ ok app
      → d.temp ≡ some text
      → (load_candidate codec no_faults text d).disk ≡ replaced d text
  unfolding load_candidate copy_backup replace_formal_file
  load-works d l t = rw l (ap (λ x. record { formal = x; temp = none; backup = d.formal }) t)

  load-result :
      (d : Disk)
      → codec.load text ≡ ok app
      → (load_candidate codec no_faults text d).result ≡ ok app
  unfolding load_candidate copy_backup replace_formal_file
  load-result d l = rw l refl

  create-works :
      (d : Disk)
      → codec.load text ≡ ok app
      → d.temp ≡ none
      → ((create_temp codec no_faults text d).disk ≡ replaced d text)
        × ((create_temp codec no_faults text d).result ≡ ok app)
  unfolding create_temp write_temp
  create-works d l t =
      let written : Disk = record { formal = d.formal; temp = some text; backup = d.backup } in
      let there = load-works written l refl in let loaded = load-result written l in ground arith

  clean_up-ok : (r : Run App) → r.result ≡ ok app → clean_up no_faults r ≡ r
  unfolding clean_up
  clean_up-ok r h = ground arith

  save_text-works :
      (update : EditableConfig SecretUpdate) (current : String) (d : Disk)
      → candidate_text codec update current ≡ ok text
      → save_text codec no_faults update (some current) d
        ≡ clean_up no_faults (create_temp codec no_faults text d)
  unfolding save_text
  save_text-works update current d made = rw (made, save_text) refl

  save_locked-works :
      (update : EditableConfig SecretUpdate) (d : Disk)
      → CandidateOf codec update d text
      → codec.load text ≡ ok app
      → d.temp ≡ none
      → ((save_locked codec no_faults update d).disk ≡ replaced d text)
        × ((save_locked codec no_faults update d).result ≡ ok app)
  save_locked-works update d (valid, (current, there, made)) l t =
      let created = create-works d l t in
      let same : save_locked codec no_faults update d ≡ create_temp codec no_faults text d =
        save_locked-valid codec no_faults update d valid
        ∙ ap (λ o. save_text codec no_faults update o d) there
        ∙ save_text-works update current d made
        ∙ clean_up-ok (create_temp codec no_faults text d) created.1 in
      (
        ap (λ (r : Run App). r.disk) same ∙ created.0,
        ap (λ (r : Run App). r.result) same ∙ created.1,
      )

  -- With no restart granted, no temporary file in the way and no file operation failing, the save of a
  -- valid update whose text loads succeeds: the file holds the text, its backup the old one, no
  -- temporary file is left, and a restart is called for.
  pub save-succeeds :
      (update : EditableConfig SecretUpdate) (s : ConfigStore)
      → s.restart_scheduled ≡ false
      → CandidateOf codec update s.disk text
      → codec.load text ≡ ok app
      → s.disk.temp ≡ none
      → save codec no_faults update s ≡ (
        record { disk = replaced s.disk text; restart_scheduled = false; restart_required = true },
        ok app,
      )
  unfolding save
  save-succeeds update s open_gate made l t =
      let works = save_locked-works update s.disk made l t in ground arith
