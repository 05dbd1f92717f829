-- ===== src/Session/Wire.antt =====
-- What crosses the `txt` DataChannel, as far as the event loop reads it (`ServerEvent`,
-- `ClientEvent` and their parts in xiaoai-agent/src/qwen_realtime.rs), and what the transport
-- reports (`TransportEvent` of xiaoai-agent/src/qwen_voice/webrtc_session.rs).
use xiaoai_agent.Prelude.{ℕ, String, List, Option}

pub data ResponseStatus : Type 0 where
  completed canceled failed incomplete : ResponseStatus

pub data OutputItem : Type 0 where
  message : OutputItem
  -- id, status, call_id, name, arguments
  function_call : String → ResponseStatus → String → String → String → OutputItem

pub record RealtimeResponse : Type 0 where
  pub id : String
  pub status : ResponseStatus
  pub output : List OutputItem

-- `ResponseFunctionCallArgumentsDoneEvent`
pub record ArgumentsDone : Type 0 where
  pub response_id : String
  pub item_id : String
  pub output_index : ℕ
  pub call_id : String
  pub name : String
  pub arguments : String

pub data ServerEvent : Type 0 where
  session_updated : ServerEvent
  response_created : String → ServerEvent
  response_done : RealtimeResponse → ServerEvent
  input_audio_speech_started : ServerEvent
  input_audio_speech_stopped : ServerEvent
  response_audio_delta : ServerEvent
  response_audio_done : ServerEvent
  response_audio_transcript_delta : ServerEvent
  response_audio_transcript_done : String → ServerEvent
  response_function_call_arguments_done : ArgumentsDone → ServerEvent
  error : String → ServerEvent
  unknown : String → ServerEvent

-- The connection states of webrtc-rs, the four others as one.
pub data PeerState : Type 0 where
  peer_failed peer_closed peer_other : PeerState

-- `data_event` carries what `serde_json` made of the text, `none` where it does not decode.
pub data TransportEvent : Type 0 where
  data_event : Option ServerEvent → TransportEvent
  connection : PeerState → TransportEvent
  audio_error : String → TransportEvent

-- The output of a tool, or the structured error of the exhausted budget.
pub data CallOutput : Type 0 where
  tool_output : String → CallOutput
  tool_budget_exhausted : CallOutput

pub data ClientEvent : Type 0 where
  response_cancel : Option String → ClientEvent
  function_call_output : String → CallOutput → ClientEvent
  response_create : ClientEvent
