-- ===== src/Config/Update/Applied.antt =====
-- What an update of xiaoai-agent/src/web/config_store.rs leaves at each path that it names.
use xiaoai_agent.Prelude.{◌≡◌, refl, ◌∙◌, Bool, true, ◌&&◌, List, [], ◌∷◌, String, eq_iff, arith}
use xiaoai_agent.Prelude.Texts.{trim}
use xiaoai_agent.Config.Yaml.{Yaml, get_path}
use xiaoai_agent.Config.Yaml.Paths.{apart}
use xiaoai_agent.Config.Secret.{SecretMode, SecretUpdate, keep, replace, clear}
use xiaoai_agent.Config.Update.Fields.{EditableConfig}
use xiaoai_agent.Config.Update.{
  Step, set, secret, ok, or_empty, run_step, run_steps, all_steps, apply_update_to_yaml,
}
use xiaoai_agent.Config.Update.Layout.{layout}
use xiaoai_agent.Config.Update.Whitelist.{
  path_of, misses_mode, misses, misses_all, AppliedMode, Applied, AllApplied, run_step-misses,
  run_step-Applied, run_steps-first, run_steps-misses,
}

abbrev apart_from : List String → List Step → Bool
apart_from p [] = true
apart_from p (step ∷ steps) = apart (path_of step) p && apart_from p steps

-- No step writes where another one does.
abbrev all_apart : List Step → Bool
all_apart [] = true
all_apart (step ∷ steps) = apart_from (path_of step) steps && all_apart steps

apart-sym : (p q : List String) → apart p q ≡ apart q p
apart-sym [] [] = refl
apart-sym [] (j ∷ q) = refl
apart-sym (k ∷ p) [] = refl
apart-sym (k ∷ p) (j ∷ q) = ground (arith, apart-sym p q, eq_iff k j, eq_iff j k)

misses-apart_mode :
    (q p : List String) (mode : SecretMode) → apart p q ≡ true → misses_mode q p mode ≡ true
misses-apart_mode q p keep h = refl
misses-apart_mode q p replace h = h
misses-apart_mode q p clear h = h

misses-apart :
    (q : List String) (step : Step) → apart (path_of step) q ≡ true → misses q step ≡ true
misses-apart q (set p v) h = h
misses-apart q (secret p u) h = misses-apart_mode q p u.mode h

misses_all-apart :
    (q : List String) (steps : List Step) → apart_from q steps ≡ true → misses_all q steps ≡ true
misses_all-apart q [] h = refl
misses_all-apart q (step ∷ steps) h = ground (arith, misses-apart q step, misses_all-apart q steps)

-- A later root that agrees at the path.
AppliedMode-later :
    (p : List String) (mode : SecretMode) (value : String) (root middle out : Yaml)
    → get_path p out ≡ get_path p middle
    → AppliedMode root middle p mode value
    → AppliedMode root out p mode value
AppliedMode-later p keep value root middle out e h = e ∙ h
AppliedMode-later p replace value root middle out e h = e ∙ h
AppliedMode-later p clear value root middle out e h = e ∙ h

Applied-later :
    (step : Step) (root middle out : Yaml)
    → get_path (path_of step) out ≡ get_path (path_of step) middle
    → Applied root middle step
    → Applied root out step
Applied-later (set p v) root middle out e h = e ∙ h
Applied-later (secret p u) root middle out e h =
    AppliedMode-later p u.mode (trim (or_empty u.value)) root middle out e h

AppliedMode-earlier :
    (p : List String) (mode : SecretMode) (value : String) (root middle out : Yaml)
    → get_path p middle ≡ get_path p root
    → AppliedMode middle out p mode value
    → AppliedMode root out p mode value
AppliedMode-earlier p keep value root middle out e h = h ∙ e
AppliedMode-earlier p replace value root middle out e h = h
AppliedMode-earlier p clear value root middle out e h = h

Applied-earlier :
    (step : Step) (root middle out : Yaml)
    → get_path (path_of step) middle ≡ get_path (path_of step) root
    → Applied middle out step
    → Applied root out step
Applied-earlier (set p v) root middle out e h = h
Applied-earlier (secret p u) root middle out e h =
    AppliedMode-earlier p u.mode (trim (or_empty u.value)) root middle out e h

AllApplied-earlier :
    (step : Step) (steps : List Step) (root middle out : Yaml)
    → apart_from (path_of step) steps ≡ true
    → run_step step root ≡ ok middle
    → AllApplied middle out steps
    → AllApplied root out steps
AllApplied-earlier step [] root middle out a went h = h
AllApplied-earlier step (next ∷ steps) root middle out a went h =
    let other : apart (path_of step) (path_of next) ≡ true =
      apart-sym (path_of step) (path_of next) ∙ ground arith in
    (
      Applied-earlier next root middle out
          (run_step-misses (path_of next) step root (misses-apart (path_of next) step other) went)
          h.0,
      AllApplied-earlier step steps root middle out (ground arith) went h.1,
    )

run_steps-AllApplied :
    (steps : List Step) (root : Yaml) {out : Yaml}
    → all_apart steps ≡ true
    → run_steps steps root ≡ ok out
    → AllApplied root out steps
run_steps-AllApplied [] root a h = tt
run_steps-AllApplied (step ∷ steps) root a h =
    let (middle, went, rest) = run_steps-first step steps root h in
    let free : apart_from (path_of step) steps ≡ true = ground arith in
    (
      Applied-later step root middle _
          (run_steps-misses (path_of step) steps middle (misses_all-apart (path_of step) steps free)
            rest)
          (run_step-Applied step root went),
      AllApplied-earlier step steps root middle _ free went
          (run_steps-AllApplied steps middle (ground arith) rest),
    )

all_steps-apart : (u : EditableConfig SecretUpdate) → all_apart (all_steps u) ≡ true
all_steps-apart u = refl

-- An update that is applied leaves at the section and key of each field of the table `layout` that
-- field's value, and for each secret of the table the old value, the trimmed new one or the empty
-- text, as its mode says.
pub apply_update_to_yaml-applied :
    (u : EditableConfig SecretUpdate) (root : Yaml) {out : Yaml}
    → apply_update_to_yaml u root ≡ ok out
    → AllApplied root out (layout u)
unfolding apply_update_to_yaml
apply_update_to_yaml-applied u root h =
    run_steps-AllApplied (all_steps u) root (all_steps-apart u) h
