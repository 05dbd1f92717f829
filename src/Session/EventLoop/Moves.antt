-- ===== src/Session/EventLoop/Moves.antt =====
-- The state machine over the turns of the loop of xiaoai-agent/src/qwen_voice/webrtc_session.rs.
use xiaoai_agent.Prelude.{
  ℕ, ◌+◌, Bool, true, false, ◌≡◌, refl, sym, String, List, [], ◌∷◌, arith, Option, none, some,
  if◌then◌else◌, ◌⊎◌, inl, inr, Bool-cases, length,
}
use xiaoai_agent.Prelude.Keys.{keys}
use xiaoai_agent.Session.Machine.{SessionState, capturing, shutting_down, valid}
use xiaoai_agent.Session.Player.{Player}
use xiaoai_agent.Session.Wire.{
  ClientEvent, function_call_output, tool_budget_exhausted as refusal, RealtimeResponse,
  ServerEvent, response_function_call_arguments_done, response_done, TransportEvent, data_event,
  connection, audio_error, peer_other, peer_failed, peer_closed,
}
use xiaoai_agent.Session.LoopState.{
  Loop, Config, Outcome, going, ended, broken, ◌>>=◌, loop_start, bad_transition, post,
  tool_budget_exhausted,
}
use xiaoai_agent.Session.ServerEvents.{
  on_response_done, on_done_with_calls, dispatch_calls, refuse_budget, refuse_calls, check_calls,
  DoneCall, done_calls, ends_conversation,
}
use xiaoai_agent.Session.EventLoop.{
  Wake, drain_elapsed, tool_finished, transport, on_server_event, on_transport, refresh, turn,
  Reach,
}
use xiaoai_agent.Session.EventLoop.Control.{
  Listening, session-Listening, turn-Smooth, IsDrainWhileCapturing, Smooth,
}

-- The machine stays, or moves over a pair that the source lists.
abbrev pub IsMove : SessionState → SessionState → Type 0
IsMove from to = (to ≡ from) ⊎ (valid from to ≡ true)

-- The machine behind a part of a turn, when it was `m` before.
abbrev pub Moves : SessionState → Outcome → Type 0
Moves m (going s) = IsMove m s.machine
Moves m _ = Unit {0}

abbrev Stays : SessionState → Outcome → Type 0
Stays m (going s) = s.machine ≡ m
Stays m _ = Unit {0}

Stays-Moves : (m : SessionState) (o : Outcome) → Stays m o → Moves m o
Stays-Moves m (going s) h = inl h
Stays-Moves m (ended s) h = tt
Stays-Moves m (broken e s) h = tt

check_calls-Stays :
    (ids : List String) (cs : List DoneCall) (s : Loop) → Stays s.machine (check_calls ids cs s)
unfolding check_calls
check_calls-Stays ids [] s = refl
check_calls-Stays ids (c ∷ cs) s = ground (arith, check_calls-Stays (c.call_id ∷ ids) cs s)

refuse_calls-Stays :
    (delivered : ClientEvent → Bool) (ids : List String) (s : Loop)
    → Stays s.machine (refuse_calls delivered ids s)
unfolding refuse_calls
refuse_calls-Stays delivered [] s = refl
refuse_calls-Stays delivered (id ∷ ids) s =
    ground (arith, refuse_calls-Stays delivered ids (post (function_call_output id refusal) s))

refuse-Stays :
    (c : Config) (now : ℕ) (delivered : ClientEvent → Bool) (s : Loop)
    → Stays s.machine (refuse_budget c now delivered s)
unfolding refuse_budget
refuse-Stays c now delivered s =
    let s' : Loop = record s { budget_refusals = s.budget_refusals + 1; response_calls = [] } in
    ground (arith, refuse_calls-Stays delivered (keys s.response_calls) s')

dispatch-Stays :
    (c : Config) (now : ℕ) (delivered : ClientEvent → Bool) (s : Loop)
    → Stays s.machine (dispatch_calls c now delivered s)
dispatch-Stays c now delivered s =
    unfold dispatch_calls in
    elim (Bool-cases
      (tool_budget_exhausted c s.tool_iterations s.tool_calls (length s.response_calls))) [
        | inl e ↦ rw e (refuse-Stays c now delivered s)
        | inr e ↦ rw e refl
      ]

Stays-bind :
    (m : SessionState) (o : Outcome) (k : Loop → Outcome)
    → Stays m o
    → ((s : Loop) → Stays s.machine (k s))
    → Stays m (o >>= k)
Stays-bind m (going s) k h rest = rw (sym h) (rest s)
Stays-bind m (ended s) k h rest = tt
Stays-bind m (broken e s) k h rest = tt

done_with_calls-Stays :
    (c : Config) (now : ℕ) (delivered : ClientEvent → Bool) (calls : List DoneCall) (s : Loop)
    → Stays s.machine (on_done_with_calls c now delivered calls s)
unfolding on_done_with_calls
done_with_calls-Stays c now delivered calls s =
    let s' : Loop = if ends_conversation calls then record s { end_after_response = true } else s in
    let rest =
      Stays-bind s'.machine (check_calls [] calls s') (dispatch_calls c now delivered)
        (check_calls-Stays [] calls s') (dispatch-Stays c now delivered) in
    ground (arith, rest)

response_done-Moves :
    (c : Config) (now : ℕ) (delivered : ClientEvent → Bool) (r : RealtimeResponse) (s : Loop)
    → Listening s
    → Moves s.machine (on_response_done c now delivered r s)
unfolding on_response_done
response_done-Moves c now delivered r s h =
    ground (arith, done_with_calls-Stays c now delivered (done_calls 0 r.output) s)

server-Moves :
    (c : Config) (now : ℕ) (delivered : ClientEvent → Bool) (event : ServerEvent) (s : Loop)
    → Listening s
    → Moves s.machine (on_server_event c now delivered event s)
unfolding on_server_event
server-Moves c now delivered (response_function_call_arguments_done call) s h = ground arith
server-Moves c now delivered (response_done r) s h = response_done-Moves c now delivered r s h
server-Moves c now delivered event s h = ground arith

transport-Moves :
    (c : Config) (now : ℕ) (delivered : ClientEvent → Bool) (event : Option TransportEvent)
    (s : Loop)
    → Listening s
    → Moves s.machine (on_transport c now delivered event s)
unfolding on_transport
transport-Moves c now delivered (some (data_event (some event))) s h =
    ground (arith, server-Moves c now delivered event (refresh c now s))
transport-Moves c now delivered (some (data_event none)) s h = tt
transport-Moves c now delivered (some (connection peer_other)) s h = inl refl
transport-Moves c now delivered (some (connection peer_failed)) s h = tt
transport-Moves c now delivered (some (connection peer_closed)) s h = tt
transport-Moves c now delivered (some (audio_error message)) s h = tt
transport-Moves c now delivered none s h = tt

turn-Moves :
    (c : Config) (now : ℕ) (delivered : ClientEvent → Bool) (wake : Wake) (s : Loop)
    → Listening s
    → Moves s.machine (turn c now delivered wake s)
unfolding turn
turn-Moves c now delivered (transport event) s h = transport-Moves c now delivered event s h
turn-Moves c now delivered drain_elapsed s h = ground arith
turn-Moves c now delivered (tool_finished id output) s h = ground arith
turn-Moves c now delivered wake s h = ground arith

-- What a turn makes of the session's machine, by its outcome.
abbrev pub Turned : Wake → Loop → Outcome → Type 0
Turned wake s (going t) = IsMove s.machine t.machine
Turned wake s (ended t) = t.machine ≡ shutting_down
Turned wake s (broken (bad_transition e) t) =
    (wake ≡ drain_elapsed) × (s.machine ≡ capturing) × (s.end_after_response ≡ false)
Turned wake s (broken _ t) = Unit {0}

Moves-Turned :
    (wake : Wake) (s : Loop) (o : Outcome) → Moves s.machine o → Smooth o → Turned wake s o
Moves-Turned wake s (going t) m h = m
Moves-Turned wake s (ended t) m h = h
Moves-Turned wake s (broken (bad_transition e) t) m h = absurd h
Moves-Turned wake s (broken x t) m h = ground arith

drain-Turned :
    (c : Config) (now : ℕ) (delivered : ClientEvent → Bool) (s : Loop)
    → IsDrainWhileCapturing drain_elapsed s
    → Turned drain_elapsed s (turn c now delivered drain_elapsed s)
unfolding turn
drain-Turned c now delivered s d = ground arith

-- In every reachable state of a session, whichever branch of the loop fires: a turn behind which the
-- loop goes on leaves the machine where it is or moves it over a listed pair; a turn that ends the
-- session well leaves it in `ShuttingDown`; and a turn fails on a refused transition only if the
-- playback drain elapses while the machine is `Capturing` and the conversation is not to end.
pub session_turn-Turned :
    (c : Config) (begin : ℕ) (player : Player) (s : Loop) (now : ℕ) (delivered : ClientEvent → Bool)
    (wake : Wake)
    → Reach c (loop_start c begin player) s
    → Turned wake s (turn c now delivered wake s)
session_turn-Turned c begin player s now delivered wake r =
    let listening = session-Listening c begin player r in
    elim (turn-Smooth c now delivered wake s listening) [
      | inl d ↦ at_drain wake d
      | inr smooth ↦
          Moves-Turned wake s (turn c now delivered wake s)
            (turn-Moves c now delivered wake s listening) smooth
    ]
  where
    at_drain : (w : Wake) → IsDrainWhileCapturing w s → Turned w s (turn c now delivered w s)
    at_drain drain_elapsed d = drain-Turned c now delivered s d
    at_drain w d = absurd d
