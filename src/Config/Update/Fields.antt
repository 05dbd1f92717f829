-- ===== src/Config/Update/Fields.antt =====
-- `EditableConfig` of xiaoai-agent/src/web/config_store.rs with its groups of fields. A floating-point
-- number is the 64-bit pattern of its value, that of the one `f32` field too.
use xiaoai_agent.Prelude.{ℕ, Bool, String, List}

abbrev pub F64 : Type 0
F64 = ℕ

pub record RuntimeFields : Type 0 where
  pub acknowledge_text : List String
  pub session_idle_timeout_s : F64

pub record QwenFields (S : Type 0) : Type 0 where
  pub url : String
  pub api_key : S
  pub model : String
  pub voice : String
  pub turn_detection_threshold : F64
  pub turn_detection_silence_duration_ms : ℕ
  pub connect_timeout_s : F64
  pub event_timeout_s : F64
  pub tool_timeout_s : F64
  pub max_tool_calls : ℕ
  pub max_tool_iterations : ℕ

pub record VoiceFields (S : Type 0) : Type 0 where
  pub runtime : String
  pub qwen : QwenFields S

pub record OpenAiAsrFields (S : Type 0) : Type 0 where
  pub base_url : String
  pub api_key : S
  pub model : String
  pub language : String
  pub prompt : String
  pub timeout_s : F64
  pub retries : ℕ

pub record RealtimeAsrFields (S : Type 0) : Type 0 where
  pub base_url : String
  pub api_key : S
  pub model : String
  pub target_sample_rate : ℕ
  pub chunk_ms : ℕ
  pub timeout_s : F64
  pub retries : ℕ

pub record AsrFields (S : Type 0) : Type 0 where
  pub provider : String
  pub open_ai : OpenAiAsrFields S
  pub openai_realtime : RealtimeAsrFields S

pub record LlmFields (S : Type 0) : Type 0 where
  pub base_url : String
  pub api_key : S
  pub model : String
  pub timeout_s : F64
  pub max_tokens : ℕ
  pub retries : ℕ
  pub temperature : F64

pub record WeatherFields (S : Type 0) : Type 0 where
  pub qweather_url : S
  pub default_location : String
  pub ip_lookup_url : String
  pub timeout_s : F64

pub record WebSearchFields (S : Type 0) : Type 0 where
  pub enabled : Bool
  pub tavily_url : String
  pub api_key : S
  pub timeout_s : F64
  pub max_results : ℕ
  pub search_depth : String

pub record AgentFields (S : Type 0) : Type 0 where
  pub timezone : String
  pub weather : WeatherFields S
  pub web_search : WebSearchFields S
  pub custom_instructions : String

pub record HomeAssistantFields (S : Type 0) : Type 0 where
  pub enabled : Bool
  pub url : String
  pub token : S
  pub timeout_s : F64

pub record NavidromeFields (S : Type 0) : Type 0 where
  pub base_url : String
  pub username : String
  pub password : S
  pub api_version : String
  pub timeout_s : F64

pub record NeteaseFields (S : Type 0) : Type 0 where
  pub api_base_url : String
  pub login_mode : String
  pub account : String
  pub phone : String
  pub password : S
  pub md5_password : S
  pub default_level : String
  pub timeout_s : F64
  pub login_on_start : Bool

pub record MusicFields (S : Type 0) : Type 0 where
  pub enabled : Bool
  pub provider : String
  pub interruption_mode : String
  pub navidrome : NavidromeFields S
  pub netease : NeteaseFields S

pub record AirPlayFields (S : Type 0) : Type 0 where
  pub enabled : Bool
  pub name : String
  pub port : ℕ
  pub password : S
  pub interruption_mode : String
  pub duck_gain : F64

pub record EditableConfig (S : Type 0) : Type 0 where
  pub runtime : RuntimeFields
  pub voice : VoiceFields S
  pub asr : AsrFields S
  pub llm : LlmFields S
  pub agent : AgentFields S
  pub home_assistant : HomeAssistantFields S
  pub music : MusicFields S
  pub airplay : AirPlayFields S
  pub led_enabled : Bool
