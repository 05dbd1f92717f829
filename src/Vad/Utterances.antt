-- ===== src/Vad/Utterances.antt =====
-- What the events of `SpeechCollector` in xiaoai-agent/src/vad.rs promise to the session.
use xiaoai_agent.Prelude.{
  ℕ, ◌≡◌, refl, sym, subst, Bool, true, false, List, [], ◌∷◌, Option, none, some, arith,
}
use xiaoai_agent.Vad.Level.{Float}
use xiaoai_agent.Vad.Chunks.{first_block, push-induction}
use xiaoai_agent.Vad.Collector.{
  CaptureConfig, Collector, SpeechEvent, speech_start, speech_rejected, utterance_event, push,
  push_block, emit, listen, follow, complete, reset_after_utterance,
}

-- The events alternate: a start opens an utterance, its completion or its rejection closes it. The
-- two Booleans say whether speech is on before and after.
abbrev pub Alternating : Bool → List SpeechEvent → Bool → Type 0
Alternating before [] after = before ≡ after
Alternating false (speech_start ∷ events) after = Alternating true events after
Alternating true (speech_rejected ∷ events) after = Alternating false events after
Alternating true (utterance_event u ∷ events) after = Alternating false events after
Alternating _ _ after = ⊥

Alternating-emit :
    (b₀ b₁ b₂ : Bool) (e : Option SpeechEvent) (events : List SpeechEvent)
    → Alternating b₀ (emit e []) b₁
    → Alternating b₁ events b₂
    → Alternating b₀ (emit e events) b₂
Alternating-emit b₀ b₁ b₂ none events h t = subst (λ b. Alternating b events b₂) (sym h) t
Alternating-emit false b₁ b₂ (some speech_start) events h t =
    subst (λ b. Alternating b events b₂) (sym h) t
Alternating-emit true b₁ b₂ (some speech_rejected) events h t =
    subst (λ b. Alternating b events b₂) (sym h) t
Alternating-emit true b₁ b₂ (some (utterance_event u)) events h t =
    subst (λ b. Alternating b events b₂) (sym h) t
Alternating-emit false b₁ b₂ (some speech_rejected) events h t = elim h [ ]
Alternating-emit false b₁ b₂ (some (utterance_event u)) events h t = elim h [ ]
Alternating-emit true b₁ b₂ (some speech_start) events h t = elim h [ ]

module _ (f : Float) (c : CaptureConfig f) where
  push_block-Alternating :
      (now : ℕ) (block : List ℕ) (s : Collector)
      → let r = push_block f c now block s in Alternating s.in_speech (emit r.1 []) r.0.in_speech
  unfolding push_block listen follow complete reset_after_utterance
  push_block-Alternating now block s = ground arith

  -- The events of one `push` alternate, starting from whether speech was on and ending at whether it
  -- still is: no utterance without a start before it, no second start before the first one is closed.
  pub push-Alternating :
      (now : ℕ) (bytes : List ℕ) (s : Collector)
      → let (t, events) = push f c now bytes s in Alternating s.in_speech events t.in_speech
  unfolding first_block
  push-Alternating now bytes s =
      push-induction f c (λ t events u. Alternating t.in_speech events u.in_speech) now (λ t. refl)
        (λ t u events full h. Alternating-emit _ _ _ _ events (push_block-Alternating now _ _) h)
        bytes s
