-- ===== src/Session/EventLoop/Tail.antt =====
-- The audio tail of a response against a cancellation by the server, in `run_event_loop` of
-- xiaoai-agent/src/qwen_voice/webrtc_session.rs.
use xiaoai_agent.Prelude.{ℕ, ◌≤◌, Bool, true, false, ◌≡◌, [], arith, none, some, str_eq}
use xiaoai_agent.Session.Machine.{ready, capturing, responding, invalid}
use xiaoai_agent.Session.Wire.{ClientEvent, RealtimeResponse, response_done, data_event, canceled}
use xiaoai_agent.Session.LoopState.{Loop, Config, going, broken, bad_transition, none_or_eq}
use xiaoai_agent.Session.EventLoop.{drain_elapsed, transport, enabled, turn}

-- A response that the server cancels while the audio tail of the one before it still plays leaves
-- the machine in `Capturing` with the drain pending; when the drain then elapses, the session fails
-- on the transition from `Capturing` to `Ready`, unless the conversation is about to end. This holds
-- for every state in `Responding` with a pending drain whose active response is the cancelled one
-- or none, at any later time.
pub canceled_tail_breaks_session :
    (c : Config) (s : Loop) (deadline now later : ℕ) (delivered : ClientEvent → Bool)
    (r : RealtimeResponse)
    → s.machine ≡ responding
    → s.drain_deadline ≡ some deadline
    → s.end_after_response ≡ false
    → r.status ≡ canceled
    → none_or_eq str_eq s.active_response r.id ≡ true
    → deadline ≤ later
    → (t u : Loop) × (turn c now delivered
          (transport (some (data_event (some (response_done r)))))
          s
        ≡ going t)
      × (enabled later drain_elapsed t ≡ true)
      × (turn c later delivered drain_elapsed t
          ≡ broken (bad_transition (invalid capturing ready)) u)
unfolding turn enabled
canceled_tail_breaks_session c s deadline now later delivered r m d e k a l =
    let t : Loop = record s {
      machine = capturing;
      active_response = none;
      response_calls = [];
      response_deadline = none;
    } in
    (t, record t { drain_deadline = none }, ground arith, ground arith, ground arith)
