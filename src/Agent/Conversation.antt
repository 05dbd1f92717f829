-- ===== src/Agent/Conversation.antt =====
-- `run_session` of xiaoai-agent/src/main.rs, the conversation of a legacy turn: it listens, has the
-- speech recognised, asks the agent and speaks the answer, until it ends.
pub mod Exchanges
pub mod History
pub mod Silent
use xiaoai_agent.Prelude.{
  ℕ, ◌+◌, Bool, true, false, not, ◌&&◌, List, [], ◌∷◌, ◌++◌, Option, none, some, if◌then◌else◌,
}
use xiaoai_agent.Agent.Turns.{Attempt, AgentRuntime, AgentTurnResult, trim, run_turn, reset_session}

pub data Led : Type 0 where
  led_listening led_thinking led_speaking : Led

-- How `record_utterance` and its streaming variant return.
pub data Capture : Type 0 where
  captured capture_timeout capture_failed : Capture

pub data Effect : Type 0 where
  show_led shut_led : Led → Effect
  acknowledged closed_stream asr_error_prompt llm_error_prompt : Effect
  spoke : List ℕ → Effect

-- What the rest of the program answers in one round: whether the recognition starts and whether it
-- streams, the capture, the text that is recognised, the language model, and whether the loudspeaker
-- speaks.
pub record Round : Type 0 where
  pub stream : Option Bool
  pub capture : Capture
  pub transcript : Option (List ℕ)
  pub asks : List ℕ → ℕ → Attempt
  pub speaks : Bool

-- The runtime and what has been done, the last first.
pub record Conversation : Type 0 where
  pub agent : AgentRuntime
  pub is_first_turn : Bool
  pub effects : List Effect

pub data Next : Type 0 where
  listen_on ended failed : Next

abbrev pub note : Effect → Conversation → Conversation
note e s = record s { effects = e ∷ s.effects }

-- The session ends well, and the agent forgets it.
abbrev pub end_session : List ℕ → Conversation → Conversation × Next
end_session reason s = (record s { agent = reset_session reason s.agent }, ended)

abbrev pub idle_reason : List ℕ
idle_reason =
    115 ∷ 101 ∷ 115 ∷ 115 ∷ 105 ∷ 111 ∷ 110 ∷ 32 ∷ 105 ∷ 100 ∷ 108 ∷ 101 ∷ 32 ∷ 116 ∷ 105 ∷ 109
    ∷ 101 ∷ 111 ∷ 117 ∷ 116 ∷ []

abbrev pub empty_reason : List ℕ
empty_reason =
    101 ∷ 109 ∷ 112 ∷ 116 ∷ 121 ∷ 32 ∷ 65 ∷ 83 ∷ 82 ∷ 32 ∷ 114 ∷ 101 ∷ 115 ∷ 117 ∷ 108 ∷ 116 ∷ []

abbrev pub agent_reason : List ℕ
agent_reason =
    97 ∷ 103 ∷ 101 ∷ 110 ∷ 116 ∷ 32 ∷ 101 ∷ 110 ∷ 100 ∷ 101 ∷ 100 ∷ 32 ∷ 99 ∷ 111 ∷ 110 ∷ 118 ∷ 101
    ∷ 114 ∷ 115 ∷ 97 ∷ 116 ∷ 105 ∷ 111 ∷ 110 ∷ []

abbrev pub is_empty : List ℕ → Bool
is_empty [] = true
is_empty (c ∷ cs) = false

abbrev pub is_blank : List ℕ → Bool
is_blank text = is_empty (trim text)

-- `speak_service_error`
abbrev pub speak_service_error : Effect → Conversation → Conversation
speak_service_error prompt s =
    note prompt (note (show_led led_speaking) (note (shut_led led_thinking) s))

-- The answer of the agent.
unfoldable pub answer : Bool → AgentTurnResult → Conversation → Conversation × Next
answer speaks reply s =
    let t = note (shut_led led_thinking) s in
    let u = note (show_led led_speaking) t in
    let spoken = note (spoke reply.text) u in
    if is_blank reply.text
    then (t, listen_on)
    else if not speaks
    then (u, failed)
    else if reply.should_end
    then end_session agent_reason spoken
    else (spoken, listen_on)

-- The agent's reply, or its error.
abbrev pub reply_next : Bool → Conversation → Option AgentTurnResult → Conversation × Next
reply_next speaks s none = (speak_service_error llm_error_prompt s, failed)
reply_next speaks s (some reply) = answer speaks reply s

-- What was recognised goes to the agent.
unfoldable pub respond : Bool → ℕ → Round → List ℕ → Conversation → Conversation × Next
unfolding run_turn
respond is_hermes retries r transcript s =
    let command = trim transcript in
    let (agent, reply) = run_turn is_hermes retries r.asks command s.agent in
    let next = reply_next r.speaks (record s { agent = agent }) reply in
    if is_blank transcript then end_session empty_reason s else next

abbrev pub recognise : Bool → ℕ → Round → Conversation → Conversation × Next
recognise is_hermes retries r s =
    let t = note (show_led led_thinking) s in
    elim r.transcript [
      | none ↦ (speak_service_error asr_error_prompt t, failed)
      | some transcript ↦ respond is_hermes retries r transcript t
    ]

abbrev pub close_stream : Bool → Conversation → Conversation
close_stream streams s = if streams then note closed_stream s else s

abbrev pub capture_round : Bool → ℕ → Round → Bool → Conversation → Conversation × Next
capture_round is_hermes retries r streams s = elim r.capture [
  | captured ↦ recognise is_hermes retries r s
  | capture_timeout ↦ end_session idle_reason (close_stream streams s)
  | capture_failed ↦ (close_stream streams s, failed)
]

abbrev pub acknowledge : Bool → Conversation → Conversation
acknowledge acknowledges s =
    let t = record s { is_first_turn = false } in
    if s.is_first_turn && acknowledges then note acknowledged t else t

-- One round of the loop.
unfoldable pub round : Bool → ℕ → Bool → Round → Conversation → Conversation × Next
unfolding respond
round is_hermes retries acknowledges r s =
    let t = acknowledge acknowledges (note (show_led led_listening) s) in
    elim r.stream [
      | none ↦ (speak_service_error asr_error_prompt t, failed)
      | some streams ↦ capture_round is_hermes retries r streams t
    ]

-- The loop over the rounds that come.
unfoldable pub run_session : Bool → ℕ → Bool → List Round → Conversation → Conversation × Next
unfolding round
run_session is_hermes retries acknowledges [] s = (s, listen_on)
run_session is_hermes retries acknowledges (r ∷ rounds) s =
    let (t, next) = round is_hermes retries acknowledges r s in
    let on = run_session is_hermes retries acknowledges rounds t in
    elim next [ listen_on ↦ on | ended ↦ (t, ended) | failed ↦ (t, failed) ]

abbrev pub start : AgentRuntime → Conversation
start agent = record { agent = agent; is_first_turn = true; effects = [] }
