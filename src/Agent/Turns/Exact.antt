-- ===== src/Agent/Turns/Exact.antt =====
-- The attempts of a turn of xiaoai-agent/src/agent.rs and what they leave behind.
use xiaoai_agent.Prelude.{
  ℕ, zero, suc, ◌+◌, ◌<◌, ◌≡◌, refl, ap, ◌∙◌, Bool, List, none, some, if◌then◌else◌, arith, subst,
}
use xiaoai_agent.Agent.Speech.{sanitize_speech_text}
use xiaoai_agent.Agent.Turns.{
  AgentControl, AgentRuntime, Attempt, trim, prompt_with_history, note_end, try_attempts,
  attempts_of, push_history, clear_control, finish_turn, run_turn,
}

-- The control behind the first `n` attempts.
abbrev pub noted : ℕ → ℕ → (ℕ → Attempt) → AgentControl → AgentControl
noted zero attempt asks control = control
noted (suc n) attempt asks control =
    noted n (attempt + 1) asks (note_end (asks attempt).ends control)

try-skip :
    (left attempt : ℕ) (asks : ℕ → Attempt) (control : AgentControl)
    → (asks attempt).reply ≡ none
    → try_attempts (suc left) attempt asks control
      ≡ try_attempts left (attempt + 1) asks (note_end (asks attempt).ends control)
unfolding try_attempts
try-skip left attempt asks control h = rw (h, try_attempts) refl

try-answer :
    (left attempt : ℕ) (asks : ℕ → Attempt) (control : AgentControl) (text : List ℕ)
    → (asks attempt).reply ≡ some text
    → try_attempts (suc left) attempt asks control
      ≡ (note_end (asks attempt).ends control, some (trim text))
unfolding try_attempts
try-answer left attempt asks control text h = rw (h, try_attempts) refl

try-first :
    (left attempt i : ℕ) (asks : ℕ → Attempt) (control : AgentControl) (text : List ℕ)
    → i < left
    → ((j : ℕ) → j < i → (asks (attempt + j)).reply ≡ none)
    → (asks (attempt + i)).reply ≡ some text
    → try_attempts left attempt asks control
      ≡ (noted (suc i) attempt asks control, some (trim text))
try-first zero attempt i asks control text h before found = ground arith
try-first (suc left) attempt zero asks control text h before found =
    try-answer left attempt asks control text
      (subst (λ n. (asks n).reply ≡ some text) (omega arith) found)
try-first (suc left) attempt (suc i) asks control text h before found =
    try-skip left attempt asks control
      (subst (λ n. (asks n).reply ≡ none) (omega arith) (before 0 (omega arith)))
    ∙ try-first left (attempt + 1) i asks (note_end (asks attempt).ends control) text (omega arith)
        (λ j less. subst (λ n. (asks n).reply ≡ none) (omega arith) (before (j + 1) (omega arith)))
        (subst (λ n. (asks n).reply ≡ some text) (omega arith) found)

try-none :
    (left attempt : ℕ) (asks : ℕ → Attempt) (control : AgentControl)
    → ((j : ℕ) → j < left → (asks (attempt + j)).reply ≡ none)
    → try_attempts left attempt asks control ≡ (noted left attempt asks control, none)
unfolding try_attempts
try-none zero attempt asks control before = refl
try-none (suc left) attempt asks control before =
    try-skip left attempt asks control
      (subst (λ n. (asks n).reply ≡ none) (omega arith) (before 0 (omega arith)))
    ∙ try-none left (attempt + 1) asks (note_end (asks attempt).ends control)
        (λ j less. subst (λ n. (asks n).reply ≡ none) (omega arith) (before (j + 1) (omega arith)))

-- The outcome of the turn, by the number of attempts that had no answer before the first that had one.
abbrev pub Answered :
    Bool → ℕ → (List ℕ → ℕ → Attempt) → List ℕ → AgentRuntime → ℕ → List ℕ → Type 0
Answered is_hermes retries asks message s i text =
    let prompt = prompt_with_history s.history message in
    let control = noted (suc i) 1 (asks prompt) clear_control in
    let spoken = if is_hermes then sanitize_speech_text (trim text) else trim text in
    run_turn is_hermes retries asks message s ≡ (
      record { history = push_history message spoken s.history; control = control },
      some (record {
        text = spoken;
        should_end = control.should_end;
        end_reason = control.end_reason;
      }),
    )

-- When the model fails `i` times and then answers, and `i` is below the number of attempts, the turn
-- gives that answer, trimmed, and for Hermes without what is not to be spoken; the history grows by the
-- message and the answer, and the conversation ends if a tool of one of these attempts ended it.
pub run_turn-first :
    (is_hermes : Bool) (retries : ℕ) (asks : List ℕ → ℕ → Attempt) (message : List ℕ)
    (s : AgentRuntime) (i : ℕ) (text : List ℕ)
    → i < attempts_of retries
    → ((j : ℕ) → j < i → (asks (prompt_with_history s.history message) (1 + j)).reply ≡ none)
    → (asks (prompt_with_history s.history message) (1 + i)).reply ≡ some text
    → Answered is_hermes retries asks message s i text
unfolding run_turn
run_turn-first is_hermes retries asks message s i text few before found =
    ap (finish_turn is_hermes message s) (
      try-first (attempts_of retries) 1 i (asks (prompt_with_history s.history message))
        clear_control text few before found)

pub run_turn-fails :
    (is_hermes : Bool) (retries : ℕ) (asks : List ℕ → ℕ → Attempt) (message : List ℕ)
    (s : AgentRuntime)
    → ((j : ℕ)
        → j < attempts_of retries
        → (asks (prompt_with_history s.history message) (1 + j)).reply ≡ none)
    → run_turn is_hermes retries asks message s ≡ (
      record s {
        control =
            noted
              (attempts_of retries)
              1
              (asks (prompt_with_history s.history message))
              clear_control;
      },
      none,
    )
unfolding run_turn
run_turn-fails is_hermes retries asks message s before = ap (finish_turn is_hermes message s) (
    try-none (attempts_of retries) 1 (asks (prompt_with_history s.history message)) clear_control
      before)
