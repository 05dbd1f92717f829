-- ===== src/Agent/Conversation/Silent.antt =====
-- An end of the conversation without words in `run_session` of xiaoai-agent/src/main.rs.
use xiaoai_agent.Prelude.{
  ℕ, ◌≡◌, refl, sym, ap, ◌∙◌, Bool, true, false, List, Option, none, some, if◌then◌else◌, arith,
  subst,
}
use xiaoai_agent.Agent.Turns.{
  AgentControl, AgentRuntime, AgentTurnResult, Attempt, trim, prompt_with_history, attempts_of,
  clear_control, finish_turn, try_attempts, run_turn,
}
use xiaoai_agent.Agent.Conversation.{
  Round, Conversation, Next, listen_on, captured, show_led, shut_led, end_session, empty_reason,
  led_listening, led_thinking, is_blank, answer, reply_next, respond, round, acknowledge, note,
}

-- What the blank answer of a turn makes of the round.
abbrev pub OpenEnd : Conversation × Next → Type 0
OpenEnd (s, next) = (next ≡ listen_on) × (s.agent.control.should_end ≡ true)

answer-blank :
    (speaks : Bool) (reply : AgentTurnResult) (s : Conversation)
    → is_blank reply.text ≡ true
    → answer speaks reply s ≡ (note (shut_led led_thinking) s, listen_on)
unfolding answer
answer-blank speaks reply s h = rw (h, answer) refl

finish_turn-control :
    (is_hermes : Bool) (message : List ℕ) (s : AgentRuntime)
    (tried : AgentControl × Option (List ℕ)) (reply : AgentTurnResult)
    → (finish_turn is_hermes message s tried).1 ≡ some reply
    → (finish_turn is_hermes message s tried).0.control.should_end ≡ reply.should_end
finish_turn-control is_hermes message s (control, none) reply h = ground arith
finish_turn-control is_hermes message s (control, some text) reply h =
    ap (λ r. elim r [ none ↦ false | some r ↦ r.should_end ]) h

run_turn-control :
    (is_hermes : Bool) (retries : ℕ) (asks : List ℕ → ℕ → Attempt) (message : List ℕ)
    (s : AgentRuntime) (reply : AgentTurnResult)
    → (run_turn is_hermes retries asks message s).1 ≡ some reply
    → (run_turn is_hermes retries asks message s).0.control.should_end ≡ reply.should_end
unfolding run_turn
run_turn-control is_hermes retries asks message s reply h =
    finish_turn-control is_hermes message s
      (try_attempts (attempts_of retries) 1 (asks (prompt_with_history s.history message))
        clear_control)
      reply h

respond-silent :
    (is_hermes : Bool) (retries : ℕ) (r : Round) (transcript : List ℕ) (s : Conversation)
    (reply : AgentTurnResult)
    → is_blank transcript ≡ false
    → (run_turn is_hermes retries r.asks (trim transcript) s.agent).1 ≡ some reply
    → is_blank reply.text ≡ true
    → reply.should_end ≡ true
    → OpenEnd (respond is_hermes retries r transcript s)
unfolding respond
respond-silent is_hermes retries r transcript s reply heard replied blank ends =
    let (agent, answered) = run_turn is_hermes retries r.asks (trim transcript) s.agent in
    let t : Conversation = record s { agent = agent } in
    let goes_on : respond is_hermes retries r transcript s
        ≡ (note (shut_led led_thinking) t, listen_on) =
      (ap (λ (b : Bool). if b then end_session empty_reason s else reply_next r.speaks t answered)
          heard
        ∙ ap (reply_next r.speaks t) replied
        ∙ answer-blank r.speaks reply t blank) in
    subst OpenEnd (sym goes_on) (
      refl,
      run_turn-control is_hermes retries r.asks (trim transcript) s.agent reply replied ∙ ends,
    )

-- The agent as a round hands it to the model.
abbrev pub listening : Bool → Conversation → Conversation
listening acknowledges s =
    note (show_led led_thinking) (acknowledge acknowledges (note (show_led led_listening) s))

-- When the agent ends the conversation and its answer is blank, as after it was stripped for Hermes,
-- the session listens on all the same, although the end is on record.
pub round-silent_end :
    (is_hermes : Bool) (retries : ℕ) (acknowledges streams : Bool) (r : Round) (transcript : List ℕ)
    (s : Conversation) (reply : AgentTurnResult)
    → is_blank transcript ≡ false
    → (run_turn is_hermes retries r.asks (trim transcript) (listening acknowledges s).agent).1
      ≡ some reply
    → is_blank reply.text ≡ true
    → reply.should_end ≡ true
    → OpenEnd (
        round is_hermes retries acknowledges
          (record r { stream = some streams; capture = captured; transcript = some transcript })
          s)
unfolding round
round-silent_end is_hermes retries acknowledges streams r transcript s reply heard replied blank
      ends =
    respond-silent is_hermes retries
      (record r { stream = some streams; capture = captured; transcript = some transcript })
      transcript (listening acknowledges s) reply heard replied blank ends
