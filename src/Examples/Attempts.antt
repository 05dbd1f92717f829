-- ===== src/Examples/Attempts.antt =====
-- The attempts of a session, the player handle and the state machine:
-- xiaoai-agent/src/qwen_voice/webrtc_session.rs and xiaoai-agent/src/qwen_voice.rs.
use xiaoai_agent.Prelude.{ℕ, ◌⊎◌, ◌+◌, ◌≤◌, ◌≡◌, refl, true, false, not, ◌&&◌, List, [], ◌∷◌}
use xiaoai_agent.Session.Machine.{ready, connecting, capturing, transition_ok}
use xiaoai_agent.Session.Machine.Paths.{requests, is_conversing}
use xiaoai_agent.Session.Player.{sent, gate_passed}
use xiaoai_agent.Session.Player.Gate.{
  Handle, Action, tries, goes_on, shuts_gate, clears, acts, interrupt_silences,
}
use xiaoai_agent.Session.Reconnect.{Attempt, activated, activation_failed, Ran, run_once, run}
use xiaoai_agent.Session.Reconnect.Attempts.{
  final, warm_failure, teardown_but_for_activation, no_reconnect_after_effects,
}
use xiaoai_agent.Examples.SessionRuns.{speaker}

-- An attempt whose connection is lost in the conversation, behind a started tool.
abbrev lost : Attempt
lost = record {
  cancelled_before = false;
  contract_ok = true;
  setup_running = true;
  connected = true;
  session_updated = true;
  activation = activated;
  loop_requests = [];
  loop_ok = false;
  teardown_ok = true;
  tools_idle = true;
  effects_observed = true;
  backoff_cancelled = false;
}

abbrev cold : Attempt
cold = record lost { activation = activation_failed; effects_observed = false }

abbrev before : Ran
before = record { machine = connecting; acquired = false; torn_down = false; attempts = 0 }

no_reconnect_after_effects_example : (final (run (λ i. lost))).attempts ≤ 0 + 1
no_reconnect_after_effects_example = no_reconnect_after_effects (λ i. lost) 0 refl

cold_acquires : (final (run_once cold before)).acquired ≡ true
unfolding run_once
cold_acquires = refl

teardown_but_for_activation_example :
    (final (run_once cold before)).torn_down
    ≡ not (cold.session_updated && warm_failure cold.activation)
teardown_but_for_activation_example = teardown_but_for_activation cold before refl cold_acquires

-- The decoder is past the gate with a block.
abbrev decoding : Handle
decoding = record { player = speaker; decoder = gate_passed (1 ∷ []); interrupting = false }

-- The clear of the interruption comes first, then the block, then a new call.
abbrev late_block : List Action
late_block =
    clears ∷ goes_on sent ∷ goes_on sent ∷ tries (2 ∷ []) ∷ goes_on sent ∷ goes_on sent ∷ []

interrupt_silences_example :
    ((acts (shuts_gate ∷ late_block) decoding).player.queue ≡ [])
    ⊎ ((bytes : List ℕ) × (decoding.decoder ≡ gate_passed bytes)
        × ((acts (shuts_gate ∷ late_block) decoding).player.queue ≡ bytes ∷ []))
interrupt_silences_example = interrupt_silences late_block decoding refl refl

-- The block enters behind the clear that was to drop it; the block of the new call does not.
late_block_enters :
    ((acts (shuts_gate ∷ late_block) decoding).player.queue ≡ (1 ∷ []) ∷ [])
    × ((acts (shuts_gate ∷ clears ∷ []) decoding).player.clear_generation ≡ 1)
unfolding acts
late_block_enters = (refl, refl)

warm_up : is_conversing (requests connecting (ready ∷ capturing ∷ [])) ≡ true
unfolding requests transition_ok
warm_up = refl
