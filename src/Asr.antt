-- ===== src/Asr.antt =====
-- `run_realtime_stream` of xiaoai-agent/src/asr.rs, the task between a streaming session and the
-- WebSocket of the speech recognition. A text is the list of its code points.
pub mod Answers
use xiaoai_agent.Prelude.{
  ℕ, Bool, true, false, List, [], ◌∷◌, ◌++◌, Option, none, some, if◌then◌else◌,
}
use xiaoai_agent.Agent.Turns.{trim}
use xiaoai_agent.Agent.Conversation.{is_blank}

pub data RealtimeStreamCommand : Type 0 where
  append : List ℕ → RealtimeStreamCommand
  clear commit close : RealtimeStreamCommand

-- What is read from the WebSocket: the events by their types, with the text that `as_str` finds, JSON
-- that cannot be parsed, an error, and frames that are not text.
pub data Message : Type 0 where
  completed delta : Option (List ℕ) → Message
  error_event failed_event other_event invalid_json read_error close_frame other_frame : Message

-- What the `select` of the loop meets: a command, with whether it can be sent, no more commands, a
-- message, or the end of the messages.
pub data Input : Type 0 where
  command : RealtimeStreamCommand → Bool → Input
  dropped : Input
  message : Message → Input
  messages_end : Input

pub data Failure : Type 0 where
  send_failed ended_early read_failed closed_early bad_json reported transcription_failed : Failure

pub data Transcript : Type 0 where
  ok : List ℕ → Transcript
  err : Failure → Transcript

-- The locals of the loop, the result that was sent, and the commands that were sent, the last first.
pub record Stream : Type 0 where
  pub last_delta : List ℕ
  pub result : Option Transcript
  pub sent : List RealtimeStreamCommand
  pub is_closed : Bool

pub data Status : Type 0 where
  running stopped : Stream → Status

-- Only the first result is sent.
abbrev pub send_realtime_result : Transcript → Stream → Stream
send_realtime_result t s = record s {
  result = elim s.result [ none ↦ some t | some sent ↦ some sent ];
}

abbrev pub close_socket : Stream → Stream
close_socket s = record s { is_closed = true }

abbrev pub send_realtime_event : RealtimeStreamCommand → Bool → Stream → Status
send_realtime_event c works s =
    if works
    then running (record s { sent = c ∷ s.sent })
    else stopped (send_realtime_result (err send_failed) s)

unfoldable pub on_command : RealtimeStreamCommand → Bool → Stream → Status
on_command (append audio) works s = send_realtime_event (append audio) works s
on_command clear works s = send_realtime_event clear works (record s { last_delta = [] })
on_command commit works s = send_realtime_event commit works s
on_command close works s = stopped (close_socket s)

abbrev pub text_or_empty : Option (List ℕ) → List ℕ
text_or_empty none = []
text_or_empty (some text) = text

abbrev pub fail : Failure → Stream → Status
fail f s = stopped (send_realtime_result (err f) s)

unfoldable pub on_message : Message → Stream → Status
on_message (completed transcript) s =
    stopped (close_socket (send_realtime_result (ok (trim (text_or_empty transcript))) s))
on_message (delta text) s = running (record s { last_delta = s.last_delta ++ text_or_empty text })
on_message error_event s = fail reported s
on_message failed_event s = fail transcription_failed s
on_message other_event s = running s
on_message invalid_json s = fail bad_json s
on_message read_error s = fail read_failed s
on_message close_frame s = fail closed_early s
on_message other_frame s = running s

-- What was heard so far is the transcript, if it is not blank.
unfoldable pub on_end : Stream → Status
on_end s =
    if is_blank s.last_delta
    then fail ended_early s
    else stopped (send_realtime_result (ok (trim s.last_delta)) s)

unfoldable pub on_input : Input → Stream → Status
unfolding on_command on_message on_end
on_input (command c works) s = on_command c works s
on_input dropped s = stopped (close_socket s)
on_input (message m) s = on_message m s
on_input messages_end s = on_end s

unfoldable pub run_realtime_stream : List Input → Stream → Status
unfolding on_input
run_realtime_stream [] s = running s
run_realtime_stream (i ∷ inputs) s = elim (on_input i s) [
  | running t ↦ run_realtime_stream inputs t
  | stopped t ↦ stopped t
]

abbrev pub open_stream : Stream
open_stream = record { last_delta = []; result = none; sent = []; is_closed = false }
