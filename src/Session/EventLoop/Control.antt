-- ===== src/Session/EventLoop/Control.antt =====
-- The session state under the loop of xiaoai-agent/src/qwen_voice/webrtc_session.rs: the states in
-- which it listens, cancellation and interruption.
use xiaoai_agent.Prelude.{
  ℕ, ◌+◌, Bool, true, false, ◌≡◌, refl, String, List, [], ◌∷◌, arith, Option, none, some,
  if◌then◌else◌, ◌⊎◌, inl, inr, Bool-cases, length,
}
use xiaoai_agent.Prelude.Keys.{keys}
use xiaoai_agent.Session.Machine.{
  SessionState, ready, capturing, responding, shutting_down, same_state,
}
use xiaoai_agent.Session.Player.{Player, interrupt_playback}
use xiaoai_agent.Session.Wire.{
  ClientEvent, response_cancel, function_call_output, tool_budget_exhausted as refusal,
  RealtimeResponse, ServerEvent, response_function_call_arguments_done, response_done,
  TransportEvent, data_event, connection, audio_error, peer_other, peer_failed, peer_closed,
}
use xiaoai_agent.Session.LoopState.{
  Loop, Config, Outcome, going, ended, broken, ◌>>=◌, loop_start, bad_transition, post,
  tool_budget_exhausted,
}
use xiaoai_agent.Session.ServerEvents.{
  on_response_done, on_done_with_calls, dispatch_calls, refuse_budget, refuse_calls, check_calls,
  DoneCall, done_calls, ends_conversation,
}
use xiaoai_agent.Session.EventLoop.{
  Wake, cancel_changed, drain_elapsed, tool_finished, transport, cancels, cancel_response, is_some,
  on_server_event, on_transport, refresh, turn, Reach, start, next,
}

-- The machine while the loop goes round.
abbrev listens : SessionState → Bool
listens ready = true
listens capturing = true
listens responding = true
listens _ = false

-- A part of a turn that leaves the machine to listen, and fails on no transition.
abbrev pub Smooth : Outcome → Type 0
Smooth (going s) = listens s.machine ≡ true
Smooth (ended s) = s.machine ≡ shutting_down
Smooth (broken (bad_transition e) s) = ⊥
Smooth (broken _ s) = Unit {0}

abbrev pub Listening : Loop → Type 0
Listening s = listens s.machine ≡ true

check_calls-Smooth :
    (ids : List String) (cs : List DoneCall) (s : Loop)
    → Listening s
    → Smooth (check_calls ids cs s)
unfolding check_calls
check_calls-Smooth ids [] s h = h
check_calls-Smooth ids (c ∷ cs) s h = ground (arith, check_calls-Smooth (c.call_id ∷ ids) cs s h)

Smooth-bind :
    (o : Outcome) (k : Loop → Outcome)
    → Smooth o
    → ((s : Loop) → Listening s → Smooth (k s))
    → Smooth (o >>= k)
Smooth-bind (going s) k h rest = rest s h
Smooth-bind (ended s) k h rest = h
Smooth-bind (broken e s) k h rest = h

refuse_calls-Smooth :
    (delivered : ClientEvent → Bool) (ids : List String) (s : Loop)
    → Listening s
    → Smooth (refuse_calls delivered ids s)
unfolding refuse_calls
refuse_calls-Smooth delivered [] s h = h
refuse_calls-Smooth delivered (id ∷ ids) s h =
    ground (arith, refuse_calls-Smooth delivered ids (post (function_call_output id refusal) s) h)

refuse-Smooth :
    (c : Config) (now : ℕ) (delivered : ClientEvent → Bool) (s : Loop)
    → Listening s
    → Smooth (refuse_budget c now delivered s)
unfolding refuse_budget
refuse-Smooth c now delivered s h =
    let s' : Loop = record s { budget_refusals = s.budget_refusals + 1; response_calls = [] } in
    ground (arith, refuse_calls-Smooth delivered (keys s.response_calls) s' h)

dispatch-Smooth :
    (c : Config) (now : ℕ) (delivered : ClientEvent → Bool) (s : Loop)
    → Listening s
    → Smooth (dispatch_calls c now delivered s)
dispatch-Smooth c now delivered s h =
    unfold dispatch_calls in
    elim (Bool-cases
      (tool_budget_exhausted c s.tool_iterations s.tool_calls (length s.response_calls))) [
        | inl e ↦ rw e (refuse-Smooth c now delivered s h)
        | inr e ↦ rw e h
      ]

done_with_calls-Smooth :
    (c : Config) (now : ℕ) (delivered : ClientEvent → Bool) (calls : List DoneCall) (s : Loop)
    → Listening s
    → Smooth (on_done_with_calls c now delivered calls s)
unfolding on_done_with_calls
done_with_calls-Smooth c now delivered calls s h =
    let s' : Loop = if ends_conversation calls then record s { end_after_response = true } else s in
    let rest =
      Smooth-bind (check_calls [] calls s') (dispatch_calls c now delivered)
        (check_calls-Smooth [] calls s' (ground arith)) (dispatch-Smooth c now delivered) in
    ground (arith, rest)

response_done-Smooth :
    (c : Config) (now : ℕ) (delivered : ClientEvent → Bool) (r : RealtimeResponse) (s : Loop)
    → Listening s
    → Smooth (on_response_done c now delivered r s)
unfolding on_response_done
response_done-Smooth c now delivered r s h =
    ground (arith, done_with_calls-Smooth c now delivered (done_calls 0 r.output) s)

server-Smooth :
    (c : Config) (now : ℕ) (delivered : ClientEvent → Bool) (event : ServerEvent) (s : Loop)
    → Listening s
    → Smooth (on_server_event c now delivered event s)
unfolding on_server_event
server-Smooth c now delivered (response_function_call_arguments_done call) s h = ground arith
server-Smooth c now delivered (response_done r) s h = response_done-Smooth c now delivered r s h
server-Smooth c now delivered event s h = ground arith

transport-Smooth :
    (c : Config) (now : ℕ) (delivered : ClientEvent → Bool) (event : Option TransportEvent)
    (s : Loop)
    → Listening s
    → Smooth (on_transport c now delivered event s)
unfolding on_transport
transport-Smooth c now delivered (some (data_event (some event))) s h =
    server-Smooth c now delivered event (refresh c now s) (ground arith)
transport-Smooth c now delivered (some (data_event none)) s h = tt
transport-Smooth c now delivered (some (connection peer_other)) s h = h
transport-Smooth c now delivered (some (connection peer_failed)) s h = tt
transport-Smooth c now delivered (some (connection peer_closed)) s h = tt
transport-Smooth c now delivered (some (audio_error message)) s h = tt
transport-Smooth c now delivered none s h = tt

-- The playback drain that elapses in `Capturing`.
abbrev pub IsDrainWhileCapturing : Wake → Loop → Type 0
IsDrainWhileCapturing drain_elapsed s = (s.machine ≡ capturing) × (s.end_after_response ≡ false)
IsDrainWhileCapturing _ s = ⊥

pub turn-Smooth :
    (c : Config) (now : ℕ) (delivered : ClientEvent → Bool) (wake : Wake) (s : Loop)
    → Listening s
    → IsDrainWhileCapturing wake s ⊎ Smooth (turn c now delivered wake s)
unfolding turn
turn-Smooth c now delivered (transport event) s h = inr (transport-Smooth c now delivered event s h)
turn-Smooth c now delivered drain_elapsed s h = ground arith
turn-Smooth c now delivered (tool_finished id output) s h = inr (ground arith)
turn-Smooth c now delivered wake s h = inr (ground arith)

Smooth-going : (o : Outcome) {t : Loop} → Smooth o → o ≡ going t → Listening t
Smooth-going (going s) h e = ground arith
Smooth-going (ended s) h e = cc
Smooth-going (broken x s) h e = cc

turn-Listening :
    (c : Config) (now : ℕ) (delivered : ClientEvent → Bool) (wake : Wake) (s : Loop) {t : Loop}
    → Listening s
    → turn c now delivered wake s ≡ going t
    → Listening t
turn-Listening c now delivered drain_elapsed s h e = unfold turn in ground arith
turn-Listening c now delivered (cancel_changed x) s h e = unfold turn in ground arith
turn-Listening c now delivered wake s h e = elim (turn-Smooth c now delivered wake s h) [
  | inl d ↦ absurd d
  | inr smooth ↦ Smooth-going (turn c now delivered wake s) smooth e
]

reach-Listening : (c : Config) (s₀ : Loop) {s : Loop} → Listening s₀ → Reach c s₀ s → Listening s
reach-Listening c s₀ h start = h
reach-Listening c s₀ h (next {s} now delivered wake before can step) =
    turn-Listening c now delivered wake s (reach-Listening c s₀ h before) step

pub session-Listening :
    (c : Config) (begin : ℕ) (player : Player) {s : Loop}
    → Reach c (loop_start c begin player) s
    → Listening s
session-Listening c begin player r =
    reach-Listening c (loop_start c begin player) (unfold loop_start in refl) r

-- Cancellation always ends the session at once: from every state of a session the turn returns
-- `Ok(())` with the machine in `ShuttingDown`, sends at most the cancellation of the response that
-- was active, and starts no tool.
pub cancel_shuts_down :
    (c : Config) (begin : ℕ) (player : Player) (s : Loop) (now : ℕ) (delivered : ClientEvent → Bool)
    (changed : Option Bool)
    → Reach c (loop_start c begin player) s
    → cancels changed ≡ true
    → turn c now delivered (cancel_changed changed) s
      ≡ ended (record s {
        machine = shutting_down;
        active_response = none;
        effects = (cancel_response s.active_response s).effects;
      })
unfolding turn
cancel_shuts_down c begin player s now delivered changed r e =
    let h = session-Listening c begin player r in ground arith

-- The state behind an interruption of `responding`, and of the two other states.
cut_off : Loop → Loop
cut_off s = record s {
  machine = capturing;
  active_response = none;
  response_calls = [];
  response_deadline = none;
  effects = (if is_some s.active_response then post (response_cancel none) s else s).effects;
}

interrupted : Config → ℕ → Loop → Loop
unfolding cut_off interrupt_playback
interrupted c now s =
    let t : Loop = record s {
      player = interrupt_playback s.player;
      drain_deadline = none;
      session_idle_deadline = some (now + c.idle_timeout);
    } in
    if same_state s.machine responding then cut_off t else record t { machine = capturing }
