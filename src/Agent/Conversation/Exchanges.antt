-- ===== src/Agent/Conversation/Exchanges.antt =====
-- The exchanges of a conversation of xiaoai-agent/src/main.rs, one round of it.
use xiaoai_agent.Prelude.{
  ℕ, ◌≡◌, refl, sym, ap, ◌∙◌, Bool, true, false, not, ◌&&◌, List, [], ◌∷◌, Option, none, some,
  if◌then◌else◌, Bool-cases, inl, inr, ◌⊎◌, ◌+◌, zero, suc, subst,
}
use xiaoai_agent.Agent.Speech.{sanitize_speech_text}
use xiaoai_agent.Agent.Turns.{
  note_end, AgentControl, AgentRuntime, AgentTurnResult, Attempt, trim, prompt_with_history,
  attempts_of, clear_control, push_history, finish_turn, try_attempts, run_turn,
}
use xiaoai_agent.Agent.Conversation.{
  Effect, spoke, led_listening, led_thinking, show_led, Round, Conversation, Next, listen_on, ended,
  failed, Capture, captured, capture_timeout, capture_failed, is_empty, is_blank, answer,
  reply_next, respond, recognise, capture_round, acknowledge, round, note,
}

-- The history that exchanges leave, the last exchange first.
abbrev pub entries : List (List ℕ × List ℕ) → List (List ℕ × List ℕ)
entries [] = []
entries ((command, reply) ∷ earlier) = push_history command reply (entries earlier)

abbrev pub all_heard : List (List ℕ × List ℕ) → Bool
all_heard [] = true
all_heard ((command, reply) ∷ earlier) = not (is_empty command) && all_heard earlier

-- The answers that are not blank.
abbrev pub replies : List (List ℕ × List ℕ) → List (List ℕ)
replies [] = []
replies ((command, reply) ∷ earlier) =
    if is_blank reply then replies earlier else reply ∷ replies earlier

-- What the loudspeaker spoke of the answers, the last first.
abbrev pub said : List Effect → List (List ℕ)
said [] = []
said (spoke text ∷ effects) = text ∷ said effects
said (e ∷ effects) = said effects

-- What is kept of a text of the model.
abbrev pub spoken_form : Bool → List ℕ → List ℕ
spoken_form is_hermes text = if is_hermes then sanitize_speech_text (trim text) else trim text

-- A command and its answer come from a round: the command is the trimmed transcript, and the answer is
-- what the model gave at some attempt to the command behind the exchanges before it.
abbrev pub IsExchange : Bool → Round → List (List ℕ × List ℕ) → List ℕ → List ℕ → Type 0
IsExchange is_hermes r earlier command reply =
    (transcript : List ℕ) × (r.transcript ≡ some transcript)
    × (command ≡ trim transcript)
    × (i : ℕ) × (text : List ℕ) × ((r.asks (prompt_with_history (entries earlier) command) i).reply
        ≡ some text)
    × (reply ≡ spoken_form is_hermes text)

-- One exchange for each round, both with the last first.
abbrev pub AreExchanges : Bool → List Round → List (List ℕ × List ℕ) → Type 0
AreExchanges is_hermes [] [] = Unit {0}
AreExchanges is_hermes (r ∷ past) ((command, reply) ∷ earlier) =
    IsExchange is_hermes r earlier command reply × AreExchanges is_hermes past earlier
AreExchanges is_hermes _ _ = ⊥

abbrev pub Recorded : Bool → List Round → Conversation → List (List ℕ × List ℕ) → Type 0
Recorded is_hermes past s exchanges =
    (s.agent.history ≡ entries exchanges)
    × (all_heard exchanges ≡ true)
    × AreExchanges is_hermes past exchanges

abbrev pub Faithful : Bool → List Round → Conversation → Type 0
Faithful is_hermes past s =
    (exchanges : List (List ℕ × List ℕ)) × Recorded is_hermes past s exchanges
    × (said s.effects ≡ replies exchanges)

-- What a round makes of the rounds before it.
abbrev pub Outcome : Bool → List Round → Round → Conversation × Next → Type 0
Outcome is_hermes past r (s, listen_on) = Faithful is_hermes (r ∷ past) s
Outcome is_hermes past r (s, ended) = s.agent.history ≡ []
Outcome is_hermes past r (s, failed) =
    (exchanges : List (List ℕ × List ℕ)) × (Recorded is_hermes past s exchanges
      ⊎ Recorded is_hermes (r ∷ past) s exchanges)

-- A reply of a turn, and the history with it.
Replied :
    Bool
    → (List ℕ → ℕ → Attempt)
    → List ℕ
    → AgentRuntime
    → AgentRuntime
    → Option AgentTurnResult
    → Type 0
Replied is_hermes asks message s t none = t.history ≡ s.history
Replied is_hermes asks message s t (some r) =
    (t.history ≡ push_history message r.text s.history)
    × (i : ℕ) × (text : List ℕ) × ((asks (prompt_with_history s.history message) i).reply
        ≡ some text)
    × (r.text ≡ spoken_form is_hermes text)

Tried : (ℕ → Attempt) → Option (List ℕ) → Type 0
Tried asks none = Unit {0}
Tried asks (some reply) =
    (i : ℕ) × (text : List ℕ) × ((asks i).reply ≡ some text) × (reply ≡ trim text)

attempt-Tried :
    (answer : Option (List ℕ)) (attempt : ℕ) (asks : ℕ → Attempt) (noted : AgentControl)
    (more : AgentControl × Option (List ℕ))
    → (asks attempt).reply ≡ answer
    → Tried asks more.1
    → Tried asks
        (elim answer as (λ _. AgentControl × Option (List ℕ)) [
          | some text ↦ (noted, some (trim text))
          | none ↦ more
        ]).1
unfolding Tried
attempt-Tried none attempt asks noted more at h = h
attempt-Tried (some text) attempt asks noted more at h = (attempt, text, at, refl)

try_attempts-Tried :
    (left attempt : ℕ) (asks : ℕ → Attempt) (control : AgentControl)
    → Tried asks (try_attempts left attempt asks control).1
unfolding try_attempts
try_attempts-Tried zero attempt asks control = unfold Tried in tt
try_attempts-Tried (suc left) attempt asks control =
    let noted = note_end (asks attempt).ends control in
    attempt-Tried (asks attempt).reply attempt asks noted
      (try_attempts left (attempt + 1) asks noted) refl
      (try_attempts-Tried left (attempt + 1) asks noted)

finish_turn-Replied :
    (is_hermes : Bool) (asks : List ℕ → ℕ → Attempt) (message : List ℕ) (s : AgentRuntime)
    (tried : AgentControl × Option (List ℕ))
    → Tried (asks (prompt_with_history s.history message)) tried.1
    → let (t, reply) = finish_turn is_hermes message s tried in
      Replied is_hermes asks message s t reply
unfolding Tried Replied
finish_turn-Replied is_hermes asks message s (control, none) h = refl
finish_turn-Replied is_hermes asks message s (control, some reply) (i, text, at, is) =
    (refl, i, text, at, ap (λ x. if is_hermes then sanitize_speech_text x else x) is)

run_turn-Replied :
    (is_hermes : Bool) (retries : ℕ) (asks : List ℕ → ℕ → Attempt) (message : List ℕ)
    (s : AgentRuntime)
    → let (t, reply) = run_turn is_hermes retries asks message s in
      Replied is_hermes asks message s t reply
unfolding run_turn
run_turn-Replied is_hermes retries asks message s =
    finish_turn-Replied is_hermes asks message s
      (try_attempts (attempts_of retries) 1 (asks (prompt_with_history s.history message))
        clear_control)
      (try_attempts-Tried (attempts_of retries) 1 (asks (prompt_with_history s.history message))
        clear_control)

if-Outcome :
    (h : Bool) (past : List Round) (r : Round) (b : Bool) (x y : Conversation × Next)
    → (b ≡ true → Outcome h past r x)
    → (b ≡ false → Outcome h past r y)
    → Outcome h past r (if b then x else y)
if-Outcome h past r true x y f g = f refl
if-Outcome h past r false x y f g = g refl

replies-blank :
    (command reply : List ℕ) (earlier : List (List ℕ × List ℕ)) (b : Bool)
    → is_blank reply ≡ b
    → replies ((command, reply) ∷ earlier)
      ≡ (if b then replies earlier else reply ∷ replies earlier)
replies-blank command reply earlier b h =
    ap (λ (blank : Bool). if blank then replies earlier else reply ∷ replies earlier) h

module _ (is_hermes : Bool) (past : List Round) where
  answer-Outcome :
      (r : Round) (speaks : Bool) (reply : AgentTurnResult) (s : Conversation) (command : List ℕ)
      (earlier : List (List ℕ × List ℕ))
      → Recorded is_hermes (r ∷ past) s ((command, reply.text) ∷ earlier)
      → said s.effects ≡ replies earlier
      → Outcome is_hermes past r (answer speaks reply s)
  unfolding answer
  answer-Outcome r speaks reply s command earlier recorded was =
      let all = (command, reply.text) ∷ earlier in
      if-Outcome is_hermes past r (is_blank reply.text) _ _
        (λ blank. (all, recorded, was ∙ sym (replies-blank command reply.text earlier true blank)))
        (λ some_text.
          if-Outcome is_hermes past r (not speaks) _ _ (λ mute. (all, inr recorded))
            (λ works.
              if-Outcome is_hermes past r reply.should_end _ _ (λ ends. refl)
                (λ goes_on. (
                  all,
                  recorded,
                  ap (reply.text ∷◌) was
                      ∙ sym (replies-blank command reply.text earlier false some_text),
                ))))

  reply-Outcome :
      (r : Round) (transcript : List ℕ) (s : Conversation) (earlier : List (List ℕ × List ℕ))
      (agent : AgentRuntime) (reply : Option AgentTurnResult)
      → r.transcript ≡ some transcript
      → is_blank transcript ≡ false
      → Recorded is_hermes past s earlier
      → said s.effects ≡ replies earlier
      → Replied is_hermes r.asks (trim transcript) s.agent agent reply
      → Outcome is_hermes past r (reply_next r.speaks (record s { agent = agent }) reply)
  unfolding Replied
  reply-Outcome r transcript s earlier agent none at heard recorded was replied =
      (earlier, inl (replied ∙ recorded.0, recorded.1, recorded.2))
  reply-Outcome r transcript s earlier agent (some reply) at heard recorded was
        (history, i, text, answers, is) =
      let command = trim transcript in
      answer-Outcome r r.speaks reply (record s { agent = agent }) command earlier
        (
          history ∙ ap (push_history command reply.text) recorded.0,
          ap (λ b. not b && all_heard earlier) heard ∙ recorded.1,
          (
            (
              transcript,
              at,
              refl,
              i,
              text,
              subst (λ entries. (r.asks (prompt_with_history entries command) i).reply ≡ some text)
                  recorded.0 answers,
              is,
            ),
            recorded.2,
          ),
        )
        was

  respond-Outcome :
      (retries : ℕ) (r : Round) (transcript : List ℕ) (s : Conversation)
      → r.transcript ≡ some transcript
      → Faithful is_hermes past s
      → Outcome is_hermes past r (respond is_hermes retries r transcript s)
  unfolding respond
  respond-Outcome retries r transcript s at (earlier, recorded, was) =
      if-Outcome is_hermes past r (is_blank transcript) _ _ (λ blank. refl)
        (λ heard.
          let (agent, reply) = run_turn is_hermes retries r.asks (trim transcript) s.agent in
          reply-Outcome r transcript s earlier agent reply at heard recorded was
            (run_turn-Replied is_hermes retries r.asks (trim transcript) s.agent))

  recognise-Outcome :
      (retries : ℕ) (r : Round) (transcript : Option (List ℕ)) (s : Conversation)
      → Faithful is_hermes past s
      → Outcome is_hermes past
          (record r { transcript = transcript })
          (recognise is_hermes retries (record r { transcript = transcript }) s)
  recognise-Outcome retries r none s (earlier, recorded, was) = (earlier, inl recorded)
  recognise-Outcome retries r (some transcript) s faithful =
      respond-Outcome retries (record r { transcript = some transcript }) transcript
        (note (show_led led_thinking) s) refl faithful

  capture-Outcome :
      (retries : ℕ) (r : Round) (capture : Capture) (streams : Bool) (s : Conversation)
      → Faithful is_hermes past s
      → Outcome is_hermes past
          (record r { capture = capture })
          (capture_round is_hermes retries (record r { capture = capture }) streams s)
  capture-Outcome retries r captured streams s faithful =
      recognise-Outcome retries (record r { capture = captured }) r.transcript s faithful
  capture-Outcome retries r capture_timeout streams s faithful = refl
  capture-Outcome retries r capture_failed true s (earlier, recorded, was) = (earlier, inl recorded)
  capture-Outcome retries r capture_failed false s (earlier, recorded, was) =
      (earlier, inl recorded)

  acknowledge-Faithful :
      (acknowledges : Bool) (s : Conversation)
      → Faithful is_hermes past s
      → Faithful is_hermes past (acknowledge acknowledges s)
  acknowledge-Faithful acknowledges s (earlier, recorded, was) =
      elim (Bool-cases (s.is_first_turn && acknowledges)) [
        | inl greets ↦ (earlier, rw greets recorded, rw greets was)
        | inr quiet ↦ (earlier, rw quiet recorded, rw quiet was)
      ]

  pub round-Outcome :
      (retries : ℕ) (acknowledges : Bool) (r : Round) (stream : Option Bool) (s : Conversation)
      → Faithful is_hermes past s
      → Outcome is_hermes past
          (record r { stream = stream })
          (round is_hermes retries acknowledges (record r { stream = stream }) s)
  unfolding round
  round-Outcome retries acknowledges r none s faithful =
      let (earlier, recorded, was) =
        acknowledge-Faithful acknowledges (note (show_led led_listening) s) faithful in
      (earlier, inl recorded)
  round-Outcome retries acknowledges r (some streams) s faithful =
      capture-Outcome retries (record r { stream = some streams }) r.capture streams
        (acknowledge acknowledges (note (show_led led_listening) s))
        (acknowledge-Faithful acknowledges (note (show_led led_listening) s) faithful)
