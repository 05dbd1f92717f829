-- ===== src/Agent/Turns.antt =====
-- The turns of `AgentRuntime` of xiaoai-agent/src/agent.rs. What the language model does with a prompt
-- is an argument: at each attempt its answer, and whether its tools end the conversation.
pub mod Exact
use xiaoai_agent.Prelude.{
  ℕ, zero, suc, ◌+◌, ◌-◌, ◌^◌, min, Bool, true, false, List, [], ◌∷◌, ◌++◌, Option, none, some,
  if◌then◌else◌,
}
use xiaoai_agent.Agent.Speech.{trim_front, trim_back, sanitize_speech_text}

-- `AgentControl`
pub record AgentControl : Type 0 where
  pub should_end : Bool
  pub end_reason : List ℕ

-- The fields of the runtime that a turn changes; the history pairs roles with texts.
pub record AgentRuntime : Type 0 where
  pub history : List (List ℕ × List ℕ)
  pub control : AgentControl

pub record AgentTurnResult : Type 0 where
  pub text : List ℕ
  pub should_end : Bool
  pub end_reason : List ℕ

-- One request to the model: the reason with which its tools ended the conversation, if they did, and
-- the answer, if there was no error.
pub record Attempt : Type 0 where
  pub ends : Option (List ℕ)
  pub reply : Option (List ℕ)

abbrev pub user_role : List ℕ
user_role = 29992 ∷ 25143 ∷ []

abbrev pub assistant_role : List ℕ
assistant_role = 21161 ∷ 25163 ∷ []

abbrev pub colon : ℕ
colon = 65306

abbrev pub history_heading : List ℕ
history_heading = 26368 ∷ 36817 ∷ 23545 ∷ 35805 ∷ 21382 ∷ 21490 ∷ 65306 ∷ 10 ∷ []

abbrev pub current_heading : List ℕ
current_heading = 24403 ∷ 21069 ∷ 29992 ∷ 25143 ∷ 65306 ∷ []

-- `str::trim`
abbrev pub trim : List ℕ → List ℕ
trim text = trim_back (trim_front text)

abbrev pub history_lines : List (List ℕ × List ℕ) → List ℕ
history_lines [] = []
history_lines ((role, text) ∷ more) = role ++ (colon ∷ (text ++ (10 ∷ history_lines more)))

unfoldable pub prompt_with_history : List (List ℕ × List ℕ) → List ℕ → List ℕ
prompt_with_history [] message = message
prompt_with_history (entry ∷ more) message =
    history_heading ++ (history_lines (entry ∷ more) ++ (current_heading ++ message))

-- `EndConversation` sets the control.
abbrev pub note_end : Option (List ℕ) → AgentControl → AgentControl
note_end none control = control
note_end (some reason) control = record { should_end = true; end_reason = reason }

-- `prompt_once`, once for each of the attempts that are left, until one has an answer.
unfoldable pub try_attempts : ℕ → ℕ → (ℕ → Attempt) → AgentControl → AgentControl × Option (List ℕ)
try_attempts zero attempt asks control = (control, none)
try_attempts (suc left) attempt asks control =
    let noted = note_end (asks attempt).ends control in
    let more = try_attempts left (attempt + 1) asks noted in
    elim (asks attempt).reply [ some text ↦ (noted, some (trim text)) | none ↦ more ]

-- `retries.saturating_add(1)`, of `u32`
abbrev pub attempts_of : ℕ → ℕ
attempts_of retries = min (retries + 1) (2 ^ 32 - 1)

abbrev pub push_history : List ℕ → List ℕ → List (List ℕ × List ℕ) → List (List ℕ × List ℕ)
push_history user assistant history =
    (history ++ ((user_role, user) ∷ [])) ++ ((assistant_role, assistant) ∷ [])

abbrev pub clear_control : AgentControl
clear_control = record { should_end = false; end_reason = [] }

abbrev pub finish_turn :
    Bool
    → List ℕ
    → AgentRuntime
    → AgentControl × Option (List ℕ)
    → AgentRuntime × Option AgentTurnResult
finish_turn is_hermes message s (control, none) = (record s { control = control }, none)
finish_turn is_hermes message s (control, some reply) =
    let text = if is_hermes then sanitize_speech_text reply else reply in
    (
      record { history = push_history message text s.history; control = control },
      some (record {
        text = text;
        should_end = control.should_end;
        end_reason = control.end_reason;
      }),
    )

-- `asks` is the model: what it does with a prompt at an attempt.
unfoldable pub run_turn :
    Bool
    → ℕ
    → (List ℕ → ℕ → Attempt)
    → List ℕ
    → AgentRuntime
    → AgentRuntime × Option AgentTurnResult
unfolding prompt_with_history try_attempts
run_turn is_hermes retries asks message s =
    let prompt = prompt_with_history s.history message in
    finish_turn is_hermes message s
      (try_attempts (attempts_of retries) 1 (asks prompt) clear_control)

abbrev pub reset_session : List ℕ → AgentRuntime → AgentRuntime
reset_session reason s = record {
  history = [];
  control = record { should_end = false; end_reason = reason };
}
