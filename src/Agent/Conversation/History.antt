-- ===== src/Agent/Conversation/History.antt =====
-- The history of a conversation of xiaoai-agent/src/main.rs, and what was spoken.
use xiaoai_agent.Prelude.{ℕ, suc, ◌≡◌, refl, Bool, List, [], ◌∷◌, take, inl, inr}
use xiaoai_agent.Agent.Turns.{AgentControl}
use xiaoai_agent.Agent.Conversation.{
  Round, Conversation, Next, listen_on, ended, failed, round, run_session, start,
}
use xiaoai_agent.Agent.Conversation.Exchanges.{Recorded, Faithful, Outcome, round-Outcome}

-- Rounds onto those before them, the last first.
abbrev pub onto : List Round → List Round → List Round
onto [] past = past
onto (r ∷ rounds) past = onto rounds (r ∷ past)

abbrev pub SessionOutcome : Bool → List Round → List Round → Conversation × Next → Type 0
SessionOutcome is_hermes rounds past (s, listen_on) = Faithful is_hermes (onto rounds past) s
SessionOutcome is_hermes rounds past (s, ended) = s.agent.history ≡ []
SessionOutcome is_hermes rounds past (s, failed) =
    (n : ℕ) × (exchanges : List (List ℕ × List ℕ)) × Recorded is_hermes (onto (take n rounds) past)
      s exchanges

one_more :
    (is_hermes : Bool) (r : Round) (rounds past : List Round) (o : Conversation × Next)
    → SessionOutcome is_hermes rounds (r ∷ past) o
    → SessionOutcome is_hermes (r ∷ rounds) past o
one_more is_hermes r rounds past (s, listen_on) h = h
one_more is_hermes r rounds past (s, ended) h = h
one_more is_hermes r rounds past (s, failed) (n, exchanges, h) = (suc n, exchanges, h)

continue-SessionOutcome :
    (is_hermes : Bool) (retries : ℕ) (acknowledges : Bool) (r : Round) (rounds past : List Round)
    (t : Conversation) (next : Next)
    → Outcome is_hermes past r (t, next)
    → (Faithful is_hermes (r ∷ past) t
        → SessionOutcome is_hermes rounds
            (r ∷ past)
            (run_session is_hermes retries acknowledges rounds t))
    → SessionOutcome is_hermes (r ∷ rounds) past (elim next [
      | listen_on ↦ run_session is_hermes retries acknowledges rounds t
      | ended ↦ (t, ended)
      | failed ↦ (t, failed)
    ])
continue-SessionOutcome is_hermes retries acknowledges r rounds past t listen_on h on =
    one_more is_hermes r rounds past (run_session is_hermes retries acknowledges rounds t) (on h)
continue-SessionOutcome is_hermes retries acknowledges r rounds past t ended h on = h
continue-SessionOutcome is_hermes retries acknowledges r rounds past t failed (exchanges, inl h)
      on =
    (0, exchanges, h)
continue-SessionOutcome is_hermes retries acknowledges r rounds past t failed (exchanges, inr h)
      on =
    (1, exchanges, h)

session-SessionOutcome :
    (is_hermes : Bool) (retries : ℕ) (acknowledges : Bool) (rounds past : List Round)
    (s : Conversation)
    → Faithful is_hermes past s
    → SessionOutcome is_hermes rounds past (run_session is_hermes retries acknowledges rounds s)
unfolding run_session
session-SessionOutcome is_hermes retries acknowledges [] past s faithful = faithful
session-SessionOutcome is_hermes retries acknowledges (r ∷ rounds) past s faithful =
    let (t, next) = round is_hermes retries acknowledges r s in
    continue-SessionOutcome is_hermes retries acknowledges r rounds past t next
      (round-Outcome is_hermes past retries acknowledges r r.stream s faithful)
      (session-SessionOutcome is_hermes retries acknowledges rounds (r ∷ past) t)

-- A session that begins with an empty history and still listens has for its history one exchange for
-- each round: the trimmed transcript of the round, which is not empty, and an answer that the model
-- gave to it behind the exchanges before, as it is kept. The loudspeaker spoke those of the answers
-- that are not blank, in their order, and nothing else of the agent. A session that ended well has
-- forgotten its history; one that failed still has the exchanges of its first rounds.
pub run_session-Outcome :
    (is_hermes : Bool) (retries : ℕ) (acknowledges : Bool) (rounds : List Round)
    (control : AgentControl)
    → SessionOutcome is_hermes rounds [] (
        run_session is_hermes retries acknowledges rounds
          (start (record { history = []; control = control })))
run_session-Outcome is_hermes retries acknowledges rounds control =
    session-SessionOutcome is_hermes retries acknowledges rounds []
      (start (record { history = []; control = control })) ([], (refl, refl, tt), refl)
