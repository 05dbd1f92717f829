-- ===== src/Config/Store/History.antt =====
-- The formal file over the saves of xiaoai-agent/src/web/config_store.rs.
use xiaoai_agent.Prelude.{◌≡◌, sym, ◌∙◌, subst, List, [], ◌∷◌, Option, some, String, inl, inr}
use xiaoai_agent.Config.Secret.{SecretUpdate}
use xiaoai_agent.Config.Update.Fields.{EditableConfig}
use xiaoai_agent.Config.Update.{Result, ok, err}
use xiaoai_agent.Config.Store.{Codec, Disk, Faults, Run, save_locked}
use xiaoai_agent.Config.Store.Atomic.{AllDisks, OldOrNew, Outcome, save_locked-Atomic}

module _ {App : Type 0} (codec : Codec App) where
  -- The formal file is there and loads.
  abbrev pub Loads : Option String → Type 0
  Loads formal = (text : String) × (app : App) × (formal ≡ some text) × (codec.load text ≡ ok app)

  abbrev pub DiskLoads : Disk → Type 0
  DiskLoads d = Loads d.formal

  OldOrNew-Loads :
      (old : Option String) (text : String) (d : Disk)
      → Loads old
      → OldOrNew codec old text d
      → DiskLoads d
  OldOrNew-Loads old text d (t, app, e, l) (inl same) = (t, app, same ∙ e, l)
  OldOrNew-Loads old text d h (inr (there, app, l)) = (text, app, there, l)

  AllDisks-Loads :
      (old : Option String) (text : String) (ds : List Disk)
      → Loads old
      → AllDisks (OldOrNew codec old text) ds
      → AllDisks DiskLoads ds
  AllDisks-Loads old text [] h hs = tt
  AllDisks-Loads old text (d ∷ ds) h hs =
      (OldOrNew-Loads old text d h hs.0, AllDisks-Loads old text ds h hs.1)

  Outcome-Loads :
      (old : Option String) (text : String) (d : Disk) (r : Result App)
      → Loads old
      → Outcome codec old text d r
      → DiskLoads d
  Outcome-Loads old text d (ok app) h o = (text, app, o.1, o.0)
  Outcome-Loads old text d (err e) (t, app, same, l) o = (t, app, o ∙ same, l)

  -- All that a run passes through, and where it ends.
  abbrev pub RunLoads : Run App → Type 0
  RunLoads r = AllDisks DiskLoads r.trail × DiskLoads r.disk

  pub save_locked-Loads :
      (faults : Faults) (update : EditableConfig SecretUpdate) (d : Disk)
      → DiskLoads d
      → RunLoads (save_locked codec faults update d)
  save_locked-Loads faults update d h = elim (save_locked-Atomic codec faults update d) [
    | inl (e, same) ↦ subst RunLoads (sym same) ((h, tt), h)
    | inr (text, made, (trail, end)) ↦ (
      AllDisks-Loads d.formal text (save_locked codec faults update d).trail h trail,
      Outcome-Loads d.formal text (save_locked codec faults update d).disk
          (save_locked codec faults update d).result h end,
    )
  ]
