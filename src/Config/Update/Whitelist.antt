-- ===== src/Config/Update/Whitelist.antt =====
-- What an update of xiaoai-agent/src/web/config_store.rs writes, and what it leaves alone.
use xiaoai_agent.Prelude.{
  ◌≡◌, sym, ap, ◌∙◌, Bool, true, ◌&&◌, List, [], ◌∷◌, some, String, arith, inl, inr,
}
use xiaoai_agent.Prelude.Texts.{trim}
use xiaoai_agent.Config.Yaml.{Yaml, string, get_path, set_at}
use xiaoai_agent.Config.Yaml.Paths.{apart, set_at-get, set_at-apart}
use xiaoai_agent.Config.Secret.{SecretMode, SecretUpdate, keep, replace, clear}
use xiaoai_agent.Config.Update.Fields.{EditableConfig}
use xiaoai_agent.Config.Update.{
  Result-cases, Step, set, secret, ok, or_empty, set_yaml, apply_mode, apply_secret, run_step,
  run_steps, all_steps, apply_update_to_yaml,
}

abbrev pub path_of : Step → List String
path_of (set p v) = p
path_of (secret p u) = p

abbrev pub misses_mode : List String → List String → SecretMode → Bool
misses_mode q p keep = true
misses_mode q p replace = apart p q
misses_mode q p clear = apart p q

-- The step does not write at the path or around it.
abbrev pub misses : List String → Step → Bool
misses q (set p v) = apart p q
misses q (secret p u) = misses_mode q p u.mode

abbrev pub misses_all : List String → List Step → Bool
misses_all q [] = true
misses_all q (step ∷ steps) = misses q step && misses_all q steps

abbrev pub AppliedMode : Yaml → Yaml → List String → SecretMode → String → Type 0
AppliedMode root out p keep value = get_path p out ≡ get_path p root
AppliedMode root out p replace value = get_path p out ≡ some (string value)
AppliedMode root out p clear value = get_path p out ≡ some (string "")

-- What a step is to leave at its path.
abbrev pub Applied : Yaml → Yaml → Step → Type 0
Applied root out (set p v) = get_path p out ≡ some v
Applied root out (secret p u) = AppliedMode root out p u.mode (trim (or_empty u.value))

abbrev pub AllApplied : Yaml → Yaml → List Step → Type 0
AllApplied root out [] = Unit {0}
AllApplied root out (step ∷ steps) = Applied root out step × AllApplied root out steps

set_yaml-ok :
    (p : List String) (v root : Yaml) {out : Yaml}
    → set_yaml p v root ≡ ok out
    → set_at p v root ≡ some out
unfolding set_yaml
set_yaml-ok p v root h = ground arith

pub ok-same : {a b : Yaml} → ok a ≡ ok b → a ≡ b
ok-same h = ground arith

-- A secret that is replaced passed its check.
apply_mode-replace :
    (p : List String) (value : String) (root : Yaml) {out : Yaml}
    → apply_mode p replace value root ≡ ok out
    → set_yaml p (string value) root ≡ ok out
unfolding apply_mode
apply_mode-replace p value root h = ground arith

apply_mode-misses :
    (q p : List String) (mode : SecretMode) (value : String) (root : Yaml) {out : Yaml}
    → misses_mode q p mode ≡ true
    → apply_mode p mode value root ≡ ok out
    → get_path q out ≡ get_path q root
unfolding apply_mode
apply_mode-misses q p keep value root m h = ap (get_path q) (sym (ok-same h))
apply_mode-misses q p clear value root m h =
    set_at-apart p q (string "") root m (set_yaml-ok p (string "") root h)
apply_mode-misses q p replace value root m h =
    set_at-apart p q (string value) root m
      (set_yaml-ok p (string value) root (apply_mode-replace p value root h))

pub run_step-misses :
    (q : List String) (step : Step) (root : Yaml) {out : Yaml}
    → misses q step ≡ true
    → run_step step root ≡ ok out
    → get_path q out ≡ get_path q root
unfolding run_step apply_secret
run_step-misses q (set p v) root m h = set_at-apart p q v root m (set_yaml-ok p v root h)
run_step-misses q (secret p u) root m h =
    apply_mode-misses q p u.mode (trim (or_empty u.value)) root m h

apply_mode-Applied :
    (p : List String) (mode : SecretMode) (value : String) (root : Yaml) {out : Yaml}
    → apply_mode p mode value root ≡ ok out
    → AppliedMode root out p mode value
unfolding apply_mode
apply_mode-Applied p keep value root h = ap (get_path p) (sym (ok-same h))
apply_mode-Applied p clear value root h =
    set_at-get p (string "") root (set_yaml-ok p (string "") root h)
apply_mode-Applied p replace value root h =
    set_at-get p (string value) root
      (set_yaml-ok p (string value) root (apply_mode-replace p value root h))

pub run_step-Applied :
    (step : Step) (root : Yaml) {out : Yaml} → run_step step root ≡ ok out → Applied root out step
unfolding run_step apply_secret
run_step-Applied (set p v) root h = set_at-get p v root (set_yaml-ok p v root h)
run_step-Applied (secret p u) root h = apply_mode-Applied p u.mode (trim (or_empty u.value)) root h

-- A run that ends well ended its first step well.
pub run_steps-first :
    (step : Step) (steps : List Step) (root : Yaml) {out : Yaml}
    → run_steps (step ∷ steps) root ≡ ok out
    → (middle : Yaml) × (run_step step root ≡ ok middle) × (run_steps steps middle ≡ ok out)
unfolding run_steps
run_steps-first step steps root h = elim (Result-cases (run_step step root)) [
  | inl (e, failed) ↦ ground arith
  | inr (middle, went) ↦ (middle, went, ground arith)
]

pub run_steps-misses :
    (q : List String) (steps : List Step) (root : Yaml) {out : Yaml}
    → misses_all q steps ≡ true
    → run_steps steps root ≡ ok out
    → get_path q out ≡ get_path q root
run_steps-misses q [] root m h = ap (get_path q) (sym (ok-same (unfold run_steps in h)))
run_steps-misses q (step ∷ steps) root m h =
    let (middle, went, rest) = run_steps-first step steps root h in
    run_steps-misses q steps middle (ground arith) rest
    ∙ run_step-misses q step root (ground arith) went

-- An update that is applied leaves every value alone whose path is apart from the paths that it
-- writes; a secret that is kept is not written.
apply_update_to_yaml-keeps :
    (q : List String) (u : EditableConfig SecretUpdate) (root : Yaml) {out : Yaml}
    → misses_all q (all_steps u) ≡ true
    → apply_update_to_yaml u root ≡ ok out
    → get_path q out ≡ get_path q root
unfolding apply_update_to_yaml
apply_update_to_yaml-keeps q u root m h = run_steps-misses q (all_steps u) root m h
