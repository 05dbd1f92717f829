-- ===== src/Session/Machine/Paths.antt =====
-- Which states a session can still reach, over any requests, refused ones included.
use xiaoai_agent.Prelude.{
  ◌≡◌, refl, ◌≢◌, ◌⊎◌, inl, inr, List, [], ◌∷◌, arith, true, false, Bool, sym,
}
use mathlib.Core.List.{Memᴰ}
use xiaoai_agent.Session.Machine.{
  SessionState, ready, capturing, responding, cancelling, shutting_down, closed, moved, refused,
  invalid, valid, transition, transition_ok,
}

-- The requests of a session one after the other, each refusal ignored.
unfoldable pub requests : SessionState → List SessionState → SessionState
unfolding transition_ok
requests s [] = s
requests s (to ∷ rest) = requests (transition_ok s to) rest

-- A request either lands exactly on its target, and then only from the same state or over a listed
-- pair, or is refused with the two states named, and then the machine stays where it was.
pub transition_exact :
    (s to : SessionState)
    → ((transition s to ≡ moved to) × (transition_ok s to ≡ to) × ((s ≡ to) ⊎ (valid s to ≡ true)))
      ⊎ ((transition s to ≡ refused (invalid s to)) × (transition_ok s to ≡ s) × (s ≢ to))
unfolding transition transition_ok
transition_exact s to = ground arith

-- `Closed` is final: no sequence of requests leaves it.
pub closed_final : (tos : List SessionState) → requests closed tos ≡ closed
unfolding requests transition_ok
closed_final [] = refl
closed_final (to ∷ tos) = ground (arith, closed_final tos)

abbrev pub is_ending : SessionState → Bool
is_ending shutting_down = true
is_ending closed = true
is_ending _ = false

step_ending : (s to : SessionState) → is_ending s ≡ true → is_ending (transition_ok s to) ≡ true
unfolding transition_ok
step_ending s to h = ground arith

-- A session that is shutting down is past recovery: whatever is requested, it stays
-- `ShuttingDown` or becomes `Closed`.
pub ending_final :
    (s : SessionState) (tos : List SessionState)
    → is_ending s ≡ true
    → is_ending (requests s tos) ≡ true
unfolding requests
ending_final s [] h = h
ending_final s (to ∷ tos) h = ending_final (transition_ok s to) tos (step_ending s to h)

-- The states in which the session holds the conversation.
abbrev pub is_conversing : SessionState → Bool
is_conversing ready = true
is_conversing capturing = true
is_conversing responding = true
is_conversing cancelling = true
is_conversing _ = false

step_conversing :
    (s to : SessionState)
    → is_conversing s ≡ false
    → (to ≡ ready) ⊎ (is_conversing (transition_ok s to) ≡ false)
unfolding transition_ok
step_conversing s to h = ground arith

-- The microphone and the playback states are entered only over `Ready`: from a state outside the
-- conversation, a list of requests that ends inside it has asked for `Ready`.
pub conversing_needs_ready :
    (s : SessionState) (tos : List SessionState)
    → is_conversing s ≡ false
    → is_conversing (requests s tos) ≡ true
    → Memᴰ ready tos
unfolding requests
conversing_needs_ready s [] h l = cc
conversing_needs_ready s (to ∷ tos) h l = elim (step_conversing s to h) [
  | inl p ↦ Memᴰ.head (sym p)
  | inr q ↦ Memᴰ.tail (conversing_needs_ready (transition_ok s to) tos q l)
]
