-- ===== src/Session/EventLoop.antt =====
-- `run_event_loop` of xiaoai-agent/src/qwen_voice/webrtc_session.rs: one turn of the biased
-- `select!` as a function of the branch that fired, and its runs as a relation.
-- The tokio primitives, the DataChannel and the tools answer through the arguments of a turn.
pub mod Once
pub mod Budget
pub mod Control
pub mod Moves
pub mod Tail
pub mod Answers
use xiaoai_agent.Prelude.{
  ℕ, ◌+◌, String, Bool, true, false, not, ◌&&◌, ◌≡◌, List, [], ◌∷◌, Option, none, some,
  if◌then◌else◌, leb, str_eq,
}
use xiaoai_agent.Prelude.Keys.{contains}
use xiaoai_agent.Session.Machine.{
  SessionState, ready, capturing, cancelling, shutting_down, responding, same_state,
}
use xiaoai_agent.Session.Player.{Player, interrupt_playback}
use xiaoai_agent.Session.Wire.{
  ServerEvent, session_updated, response_created, response_done, input_audio_speech_started,
  input_audio_speech_stopped, response_audio_delta, response_audio_done,
  response_audio_transcript_delta, response_audio_transcript_done,
  response_function_call_arguments_done, error, unknown, PeerState, peer_failed, peer_closed,
  peer_other, TransportEvent, data_event, connection, audio_error, ClientEvent, response_cancel,
  function_call_output, tool_output, response_create,
}
use xiaoai_agent.Session.LoopState.{
  Loop, Config, LoopError, Outcome, going, ended, broken, ◌>>=◌, ensure, go_to, post, send,
  loop_start, response_timeout, capture_stopped, channel_closed, connection_closed, iteration_limit,
  bad_decode, websocket_audio, audio_failed, realtime_error,
}
use xiaoai_agent.Session.ServerEvents.{
  webrtc_audio_quiet_period, is_empty, on_arguments_done, on_response_done, on_response_created,
  on_speech_started,
}

-- The branches of the `select!`. A watch channel reports an error or its new value; the capture
-- task can only end in failure; a finished tool brings its call id and output.
pub data Wake : Type 0 where
  cancel_changed : Option Bool → Wake
  interrupt_changed : Bool → Wake
  audio_activity : Bool → Wake
  drain_elapsed session_idle_elapsed response_elapsed captured : Wake
  tool_finished : String → String → Wake
  transport : Option TransportEvent → Wake

-- `changed.is_err() || *cancel_rx.borrow()`
abbrev pub cancels : Option Bool → Bool
cancels none = true
cancels (some value) = value

abbrev pub is_some {ℓ} : {A : Type ℓ} → Option A → Bool
is_some none = false
is_some (some a) = true

abbrev pub elapsed : ℕ → Option ℕ → Bool
elapsed now none = false
elapsed now (some deadline) = leb deadline now

-- Which branches can fire: their `if` guards and their timers.
unfoldable pub enabled : ℕ → Wake → Loop → Bool
enabled now (audio_activity changed) s = is_some s.drain_deadline
enabled now drain_elapsed s = elapsed now s.drain_deadline
enabled now session_idle_elapsed s = elapsed now s.session_idle_deadline
enabled now response_elapsed s = elapsed now s.response_deadline
enabled now captured s = not s.capture_joined
enabled now (tool_finished id output) s = contains id s.pending_tools
enabled now _ s = true

abbrev pub cancel_response : Option String → Loop → Loop
cancel_response none s = s
cancel_response (some id) s = post (response_cancel (some id)) s

unfoldable pub on_cancel : Option Bool → Loop → Outcome
unfolding go_to
on_cancel changed s =
    if cancels changed
    then (do
      s ← go_to cancelling s
      s ← going (cancel_response s.active_response (record s { active_response = none }))
      s ← go_to shutting_down s
      ended s)
    else going s

unfoldable pub on_interrupt : Config → ℕ → Bool → Loop → Outcome
unfolding go_to interrupt_playback
on_interrupt c now false s = going s
on_interrupt c now true s = do
  s ← going (record s {
    player = interrupt_playback s.player;
    drain_deadline = none;
    session_idle_deadline = some (now + c.idle_timeout);
  })
  if same_state s.machine responding
      then (do
        s ← going (if is_some s.active_response then post (response_cancel none) s else s)
        go_to capturing
            (record s { active_response = none; response_calls = []; response_deadline = none }))
      else if same_state s.machine ready
      then go_to capturing s
      else going s

unfoldable pub on_audio_activity : ℕ → Bool → Loop → Outcome
on_audio_activity now changed s =
    going
      (if changed then record s { drain_deadline = some (now + webrtc_audio_quiet_period) } else s)

unfoldable pub on_drain_elapsed : Config → ℕ → Loop → Outcome
unfolding go_to
on_drain_elapsed c now s = do
  s ← going (record s { drain_deadline = none })
  if s.end_after_response then (do s ← go_to shutting_down s; ended s) else do
    s ← go_to ready s
    going (record s { session_idle_deadline = some (now + c.idle_timeout) })

unfoldable pub on_session_idle : Loop → Outcome
unfolding go_to
on_session_idle s = do s ← go_to shutting_down s; ended s

-- One future leaves the set of pending ones.
abbrev pub remove_one : String → List String → List String
remove_one x [] = []
remove_one x (y ∷ ys) = if str_eq x y then ys else y ∷ remove_one x ys

unfoldable pub on_tool_finished :
    Config → ℕ → (ClientEvent → Bool) → String → String → Loop → Outcome
on_tool_finished c now delivered id output s = do
  s ←
      send delivered (function_call_output id (tool_output output))
        (record s { pending_tools = remove_one id s.pending_tools })
  if s.waiting_for_tools && is_empty s.pending_tools
      then (do
        s ← ensure (leb s.tool_iterations c.max_iterations) iteration_limit s
        s ← send delivered response_create s
        going (record s {
          waiting_for_tools = false;
          active_response = none;
          response_deadline = some (now + c.event_timeout);
        }))
      else going s

abbrev pub refresh : Config → ℕ → Loop → Loop
refresh c now s =
    if is_some s.response_deadline
    then record s { response_deadline = some (now + c.event_timeout) }
    else s

unfoldable pub on_server_event : Config → ℕ → (ClientEvent → Bool) → ServerEvent → Loop → Outcome
unfolding on_arguments_done on_response_done on_response_created on_speech_started
on_server_event c now delivered (response_function_call_arguments_done call) s =
    on_arguments_done call s
on_server_event c now delivered (response_done r) s = on_response_done c now delivered r s
on_server_event c now delivered response_audio_delta s = broken websocket_audio s
on_server_event c now delivered (response_audio_transcript_done id) s =
    going (record s { active_response = some id })
on_server_event c now delivered (error message) s = broken (realtime_error message) s
on_server_event c now delivered (response_created id) s = on_response_created c now id s
on_server_event c now delivered input_audio_speech_started s = on_speech_started s
on_server_event c now delivered input_audio_speech_stopped s =
    going (record s { response_deadline = some (now + c.event_timeout) })
on_server_event c now delivered (unknown event_type) s = going s
on_server_event c now delivered _ s = going s

unfoldable pub on_transport :
    Config → ℕ → (ClientEvent → Bool) → Option TransportEvent → Loop → Outcome
unfolding on_server_event
on_transport c now delivered none s = broken channel_closed s
on_transport c now delivered (some (connection peer_failed)) s = broken connection_closed s
on_transport c now delivered (some (connection peer_closed)) s = broken connection_closed s
on_transport c now delivered (some (connection peer_other)) s = going s
on_transport c now delivered (some (audio_error message)) s = broken (audio_failed message) s
on_transport c now delivered (some (data_event none)) s = broken bad_decode (refresh c now s)
on_transport c now delivered (some (data_event (some event))) s =
    on_server_event c now delivered event (refresh c now s)

-- One turn of the loop, at the time `now`, on the branch that fired.
unfoldable pub turn : Config → ℕ → (ClientEvent → Bool) → Wake → Loop → Outcome
unfolding on_cancel on_interrupt on_audio_activity on_drain_elapsed on_session_idle on_tool_finished
    on_transport
turn c now delivered (cancel_changed changed) s = on_cancel changed s
turn c now delivered (interrupt_changed changed) s = on_interrupt c now changed s
turn c now delivered (audio_activity changed) s = on_audio_activity now changed s
turn c now delivered drain_elapsed s = on_drain_elapsed c now s
turn c now delivered session_idle_elapsed s = on_session_idle s
turn c now delivered response_elapsed s = broken response_timeout s
turn c now delivered captured s = broken capture_stopped (record s { capture_joined = true })
turn c now delivered (tool_finished id output) s = on_tool_finished c now delivered id output s
turn c now delivered (transport event) s = on_transport c now delivered event s

-- The states between two turns of a session, over any clock, any branches that can fire, and any
-- answers of the DataChannel.
pub data Reach (c : Config) (s₀ : Loop) : Loop → Type 0 where
  start : Reach c s₀ s₀
  next :
      {s t : Loop} (now : ℕ) (delivered : ClientEvent → Bool) (wake : Wake)
      → Reach c s₀ s
      → enabled now wake s ≡ true
      → turn c now delivered wake s ≡ going t
      → Reach c s₀ t
