-- ===== src/Config/Store/Atomic.antt =====
-- The disks that a save of xiaoai-agent/src/web/config_store.rs passes through.
use xiaoai_agent.Prelude.{
  ◌≡◌, refl, sym, subst, ◌&&◌, List, [], ◌∷◌, Option, none, some, String, arith, inl, inr, ◌⊎◌,
  Bool-cases, Option-cases,
}
use xiaoai_agent.Config.Secret.{SecretUpdate}
use xiaoai_agent.Config.Update.Fields.{EditableConfig}
use xiaoai_agent.Config.Update.{ConfigStoreError, Result, ok, err, io_error, Result-cases}
use xiaoai_agent.Config.Validate.{validate_update}
use xiaoai_agent.Config.Store.{
  Codec, Disk, Faults, Run, stop, visit, candidate_text, replace_formal_file, copy_backup,
  load_candidate, write_temp, create_temp, remove_temp, add_last, clean_up, save_text, read_formal,
  save_locked,
}

abbrev pub AllDisks : (Disk → Type 0) → List Disk → Type 0
AllDisks P [] = Unit {0}
AllDisks P (d ∷ ds) = P d × AllDisks P ds

module _ {App : Type 0} (codec : Codec App) (old : Option String) (text : String) where
  -- The formal file holds the old text or the new one, which then loads.
  abbrev pub OldOrNew : Disk → Type 0
  OldOrNew d =
      (d.formal ≡ old) ⊎ ((d.formal ≡ some text) × (app : App) × (codec.load text ≡ ok app))

  -- What a run has done when it ends well, and when it does not.
  abbrev pub Outcome : Disk → Result App → Type 0
  Outcome d (ok app) =
      (codec.load text ≡ ok app) × (d.formal ≡ some text) × (d.backup ≡ old) × (d.temp ≡ none)
  Outcome d (err e) = d.formal ≡ old

  abbrev pub Atomic : Run App → Type 0
  Atomic r = AllDisks OldOrNew r.trail × Outcome r.disk r.result

  stop-Atomic : (d : Disk) (e : ConfigStoreError) → d.formal ≡ old → Atomic (stop d (err e))
  stop-Atomic d e f = ((inl f, tt), f)

  visit-Atomic : (d : Disk) (r : Run App) → d.formal ≡ old → Atomic r → Atomic (visit d r)
  visit-Atomic d r f h = ((inl f, h.0), h.1)

  rename-Atomic :
      (faults : Faults) (app : App) (d : Disk)
      → codec.load text ≡ ok app
      → d.formal ≡ old
      → d.temp ≡ some text
      → d.backup ≡ old
      → Atomic (replace_formal_file faults app d)
  unfolding replace_formal_file
  rename-Atomic faults app d l f t b = elim (Bool-cases faults.rename_works) [
    | inl works ↦ rw works ((inr (t, app, l), tt), (l, t, b, refl))
    | inr fails ↦ rw fails (stop-Atomic d io_error f)
  ]

  copy-Atomic :
      (faults : Faults) (app : App) (d : Disk)
      → codec.load text ≡ ok app
      → d.formal ≡ old
      → d.temp ≡ some text
      → Atomic (copy_backup faults app d)
  unfolding copy_backup
  copy-Atomic faults app d l f t = elim (Option-cases faults.copy_torn) [
    | inr (left, fails) ↦
        rw fails
          (stop-Atomic (record { formal = d.formal; temp = d.temp; backup = left }) io_error f)
    | inl works ↦
        let copied : Disk = record { formal = d.formal; temp = d.temp; backup = d.formal } in
        rw works (
          visit-Atomic copied (replace_formal_file faults app copied) f
            (rename-Atomic faults app copied l f t f))
  ]

  load-Atomic :
      (faults : Faults) (d : Disk)
      → d.formal ≡ old
      → d.temp ≡ some text
      → Atomic (load_candidate codec faults text d)
  unfolding load_candidate
  load-Atomic faults d f t = elim (Bool-cases (faults.sync_works && faults.reread_works)) [
    | inr fails ↦ rw fails (stop-Atomic d io_error f)
    | inl works ↦ rw works (elim (Result-cases (codec.load text)) [
      | inl (e, fails) ↦ rw fails (stop-Atomic d e f)
      | inr (app, loads) ↦ rw loads (copy-Atomic faults app d loads f t)
    ])
  ]

  write-Atomic :
      (faults : Faults) (d : Disk) → d.formal ≡ old → Atomic (write_temp codec faults text d)
  unfolding write_temp
  write-Atomic faults d f = elim (Option-cases faults.torn) [
    | inr (left, fails) ↦
        rw fails (
          stop-Atomic (record { formal = d.formal; temp = some left; backup = d.backup }) io_error
            f)
    | inl works ↦
        let written : Disk = record { formal = d.formal; temp = some text; backup = d.backup } in
        rw works (
          visit-Atomic written (load_candidate codec faults text written) f
            (load-Atomic faults written f refl))
  ]

  pub create-Atomic :
      (faults : Faults) (d : Disk) → d.formal ≡ old → Atomic (create_temp codec faults text d)
  unfolding create_temp
  create-Atomic faults d f = elim (Bool-cases faults.create_works) [
    | inr fails ↦ rw fails (stop-Atomic d io_error f)
    | inl works ↦
        let created : Disk = record { formal = d.formal; temp = some ""; backup = d.backup } in
        rw works (
          visit-Atomic created (write_temp codec faults text created) f
            (write-Atomic faults created f))
  ]

  AllDisks-add_last :
      (ds : List Disk) (d : Disk)
      → AllDisks OldOrNew ds
      → OldOrNew d
      → AllDisks OldOrNew (add_last ds d)
  AllDisks-add_last [] d hs h = (h, tt)
  AllDisks-add_last (x ∷ ds) d hs h = (hs.0, AllDisks-add_last ds d hs.1 h)

  clean_up-result :
      (faults : Faults) (trail : List Disk) (d : Disk) (r : Result App)
      → AllDisks OldOrNew trail
      → Outcome d r
      → Atomic (clean_up faults (record { trail = trail; disk = d; result = r }))
  unfolding clean_up
  clean_up-result faults trail d (ok app) hs h = (hs, h)
  clean_up-result faults trail d (err e) hs h =
      (AllDisks-add_last trail (remove_temp faults d) hs (inl h), h)

  pub clean_up-Atomic : (faults : Faults) (r : Run App) → Atomic r → Atomic (clean_up faults r)
  clean_up-Atomic faults r h = clean_up-result faults r.trail r.disk r.result h.0 h.1

-- The update is valid and its text is the one made of the file's.
abbrev pub CandidateOf :
    {App : Type 0} → Codec App → EditableConfig SecretUpdate → Disk → String → Type 0
CandidateOf codec update d text =
    (validate_update update ≡ ok tt)
    × ((current : String) × (d.formal ≡ some current)
        × (candidate_text codec update current ≡ ok text))

-- The save ends before it touches a file.
abbrev pub Rejected : {App : Type 0} → Disk → Run App → Type 0
Rejected d r = (e : ConfigStoreError) × (r ≡ stop d (err e))

abbrev SavedWhole :
    {App : Type 0} → Codec App → EditableConfig SecretUpdate → Disk → Run App → Type 0
SavedWhole codec update d r =
    Rejected d r
    ⊎ ((text : String) × CandidateOf codec update d text × Atomic codec d.formal text r)

save_text-Atomic :
    {App : Type 0} (codec : Codec App) (faults : Faults) (update : EditableConfig SecretUpdate)
    (o : Option String) (d : Disk)
    → validate_update update ≡ ok tt
    → ((current : String) → o ≡ some current → d.formal ≡ some current)
    → SavedWhole codec update d (save_text codec faults update o d)
unfolding save_text
save_text-Atomic codec faults update none d v there = inl (io_error, refl)
save_text-Atomic codec faults update (some current) d v there =
    elim (Result-cases (candidate_text codec update current)) [
      | inl (e, fails) ↦ inl (e, rw (fails, save_text) refl)
      | inr (text, made) ↦ inr (
        text,
        (v, (current, there current refl, made)),
        rw (made, save_text)
            (clean_up-Atomic codec d.formal text faults (create_temp codec faults text d)
              (create-Atomic codec d.formal text faults d refl)),
      )
    ]

read_formal-there :
    (faults : Faults) (d : Disk) (current : String)
    → read_formal faults d ≡ some current
    → d.formal ≡ some current
read_formal-there faults d current h = ground arith

pub save_locked-valid :
    {App : Type 0} (codec : Codec App) (faults : Faults) (update : EditableConfig SecretUpdate)
    (d : Disk)
    → validate_update update ≡ ok tt
    → save_locked codec faults update d ≡ save_text codec faults update (read_formal faults d) d
unfolding save_locked
save_locked-valid codec faults update d valid = rw (valid, save_locked) refl

-- A save ends before it touches a file, or every disk that it passes through holds the old formal
-- file or the candidate made of it, which then loads; it ends well only with the candidate in place,
-- the old text as its backup and no temporary file, and ends badly only with the old formal file.
pub save_locked-Atomic :
    {App : Type 0} (codec : Codec App) (faults : Faults) (update : EditableConfig SecretUpdate)
    (d : Disk)
    → Rejected d (save_locked codec faults update d)
      ⊎ ((text : String) × CandidateOf codec update d text
          × Atomic codec d.formal text (save_locked codec faults update d))
unfolding save_locked
save_locked-Atomic codec faults update d = elim (Result-cases (validate_update update)) [
  | inl (e, fails) ↦ inl (e, rw (fails, save_locked) refl)
  | inr (done, valid) ↦
      subst (SavedWhole codec update d) (sym (save_locked-valid codec faults update d valid)) (
        save_text-Atomic codec faults update (read_formal faults d) d valid
          (read_formal-there faults d))
]
