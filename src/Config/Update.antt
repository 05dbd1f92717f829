-- ===== src/Config/Update.antt =====
-- `apply_update_to_yaml` of xiaoai-agent/src/web/config_store.rs: the list of its writes, and the run
-- that stops at the first error.
pub mod Fields
pub mod Layout
pub mod Whitelist
pub mod Applied
use xiaoai_agent.Prelude.{
  ◌≡◌, refl, ◌⊎◌, inl, inr, ℕ, Bool, List, [], ◌∷◌, ◌++◌, Option, none, some, String, str_eq,
  if◌then◌else◌, leb, ◌||◌, ltb,
}
use xiaoai_agent.Prelude.Texts.{trim, char_count, join_dots}
use xiaoai_agent.Config.Yaml.{
  Yaml, boolean, integer, float, string, sequence, Items, no_items, item, set_at,
}
use xiaoai_agent.Config.Secret.{SecretMode, SecretUpdate, keep, replace, clear}
use xiaoai_agent.Config.Update.Fields.{EditableConfig}

pub data ConfigStoreError : Type 0 where
  restart_in_progress : ConfigStoreError
  field_error : String → String → ConfigStoreError
  validation : Option String → String → ConfigStoreError
  io_error yaml_error : ConfigStoreError

pub data Result (A : Type 0) : Type 0 where
  ok : A → Result A
  err : ConfigStoreError → Result A

pub Result-cases :
    {A : Type 0} (r : Result A) → ((e : ConfigStoreError) × (r ≡ err e)) ⊎ ((a : A) × (r ≡ ok a))
Result-cases (ok a) = inr (a, refl)
Result-cases (err e) = inl (e, refl)

-- One line of the source: `set!` of a value, or `apply_secret`.
pub data Step : Type 0 where
  set : List String → Yaml → Step
  secret : List String → SecretUpdate → Step

abbrev pub texts : List String → Items
texts [] = no_items
texts (s ∷ rest) = item (string s) (texts rest)

abbrev pub max_secret_chars : ℕ
max_secret_chars = 4096

unfoldable pub set_yaml : List String → Yaml → Yaml → Result Yaml
unfolding set_at
set_yaml path value root = elim (set_at path value root) [
  | none ↦ err (field_error (join_dots path) "parent is not a YAML mapping")
  | some out ↦ ok out
]

abbrev pub or_empty : Option String → String
or_empty none = ""
or_empty (some s) = s

-- The secret is trimmed before its mode is looked at.
unfoldable pub apply_mode : List String → SecretMode → String → Yaml → Result Yaml
unfolding set_yaml
apply_mode path keep value root = ok root
apply_mode path clear value root = set_yaml path (string "") root
apply_mode path replace value root =
    if str_eq value "" || ltb max_secret_chars (char_count value)
    then err (field_error (join_dots path) "replacement secret must contain 1 to 4096 characters")
    else set_yaml path (string value) root

unfoldable pub apply_secret : List String → SecretUpdate → Yaml → Result Yaml
unfolding apply_mode trim
apply_secret path update root = apply_mode path update.mode (trim (or_empty update.value)) root

unfoldable pub run_step : Step → Yaml → Result Yaml
unfolding set_yaml apply_secret
run_step (set path value) root = set_yaml path value root
run_step (secret path update) root = apply_secret path update root

-- `?` behind each line.
unfoldable pub run_steps : List Step → Yaml → Result Yaml
unfolding run_step
run_steps [] root = ok root
run_steps (step ∷ steps) root = elim (run_step step root) [
  | err e ↦ err e
  | ok out ↦ run_steps steps out
]

abbrev pub runtime_steps : EditableConfig SecretUpdate → List Step
runtime_steps u =
    set ("runtime" ∷ "acknowledge_text" ∷ []) (sequence (texts u.runtime.acknowledge_text))
    ∷ set ("runtime" ∷ "session_idle_timeout_s" ∷ []) (float u.runtime.session_idle_timeout_s)
    ∷ []

abbrev pub voice_steps : EditableConfig SecretUpdate → List Step
voice_steps u =
    set ("voice" ∷ "runtime" ∷ []) (string u.voice.runtime)
    ∷ set ("voice" ∷ "qwen" ∷ "url" ∷ []) (string u.voice.qwen.url)
    ∷ set ("voice" ∷ "qwen" ∷ "model" ∷ []) (string u.voice.qwen.model)
    ∷ set ("voice" ∷ "qwen" ∷ "voice" ∷ []) (string u.voice.qwen.voice)
    ∷ set ("voice" ∷ "qwen" ∷ "turn_detection_threshold" ∷ [])
        (float u.voice.qwen.turn_detection_threshold)
    ∷ set ("voice" ∷ "qwen" ∷ "turn_detection_silence_duration_ms" ∷ [])
        (integer u.voice.qwen.turn_detection_silence_duration_ms)
    ∷ set ("voice" ∷ "qwen" ∷ "connect_timeout_s" ∷ []) (float u.voice.qwen.connect_timeout_s)
    ∷ set ("voice" ∷ "qwen" ∷ "event_timeout_s" ∷ []) (float u.voice.qwen.event_timeout_s)
    ∷ set ("voice" ∷ "qwen" ∷ "tool_timeout_s" ∷ []) (float u.voice.qwen.tool_timeout_s)
    ∷ set ("voice" ∷ "qwen" ∷ "max_tool_calls" ∷ []) (integer u.voice.qwen.max_tool_calls)
    ∷ set ("voice" ∷ "qwen" ∷ "max_tool_iterations" ∷ []) (integer u.voice.qwen.max_tool_iterations)
    ∷ secret ("voice" ∷ "qwen" ∷ "api_key" ∷ []) u.voice.qwen.api_key
    ∷ []

abbrev pub asr_steps : EditableConfig SecretUpdate → List Step
asr_steps u =
    set ("asr" ∷ "provider" ∷ []) (string u.asr.provider)
    ∷ set ("asr" ∷ "open_ai" ∷ "base_url" ∷ []) (string u.asr.open_ai.base_url)
    ∷ set ("asr" ∷ "open_ai" ∷ "model" ∷ []) (string u.asr.open_ai.model)
    ∷ set ("asr" ∷ "open_ai" ∷ "language" ∷ []) (string u.asr.open_ai.language)
    ∷ set ("asr" ∷ "open_ai" ∷ "prompt" ∷ []) (string u.asr.open_ai.prompt)
    ∷ set ("asr" ∷ "open_ai" ∷ "timeout_s" ∷ []) (float u.asr.open_ai.timeout_s)
    ∷ set ("asr" ∷ "open_ai" ∷ "retries" ∷ []) (integer u.asr.open_ai.retries)
    ∷ secret ("asr" ∷ "open_ai" ∷ "api_key" ∷ []) u.asr.open_ai.api_key
    ∷ set ("asr" ∷ "openai_realtime" ∷ "base_url" ∷ []) (string u.asr.openai_realtime.base_url)
    ∷ set ("asr" ∷ "openai_realtime" ∷ "model" ∷ []) (string u.asr.openai_realtime.model)
    ∷ set ("asr" ∷ "openai_realtime" ∷ "target_sample_rate" ∷ [])
        (integer u.asr.openai_realtime.target_sample_rate)
    ∷ set ("asr" ∷ "openai_realtime" ∷ "chunk_ms" ∷ []) (integer u.asr.openai_realtime.chunk_ms)
    ∷ set ("asr" ∷ "openai_realtime" ∷ "timeout_s" ∷ []) (float u.asr.openai_realtime.timeout_s)
    ∷ set ("asr" ∷ "openai_realtime" ∷ "retries" ∷ []) (integer u.asr.openai_realtime.retries)
    ∷ secret ("asr" ∷ "openai_realtime" ∷ "api_key" ∷ []) u.asr.openai_realtime.api_key
    ∷ []

abbrev pub llm_steps : EditableConfig SecretUpdate → List Step
llm_steps u =
    set ("llm" ∷ "base_url" ∷ []) (string u.llm.base_url)
    ∷ set ("llm" ∷ "model" ∷ []) (string u.llm.model)
    ∷ set ("llm" ∷ "timeout_s" ∷ []) (float u.llm.timeout_s)
    ∷ set ("llm" ∷ "max_tokens" ∷ []) (integer u.llm.max_tokens)
    ∷ set ("llm" ∷ "retries" ∷ []) (integer u.llm.retries)
    ∷ set ("llm" ∷ "temperature" ∷ []) (float u.llm.temperature)
    ∷ secret ("llm" ∷ "api_key" ∷ []) u.llm.api_key
    ∷ []

abbrev pub agent_steps : EditableConfig SecretUpdate → List Step
agent_steps u =
    set ("agent" ∷ "timezone" ∷ []) (string u.agent.timezone)
    ∷ set ("agent" ∷ "custom_instructions" ∷ []) (string u.agent.custom_instructions)
    ∷ secret ("agent" ∷ "weather" ∷ "qweather_url" ∷ []) u.agent.weather.qweather_url
    ∷ set ("agent" ∷ "weather" ∷ "default_location" ∷ []) (string u.agent.weather.default_location)
    ∷ set ("agent" ∷ "weather" ∷ "ip_lookup_url" ∷ []) (string u.agent.weather.ip_lookup_url)
    ∷ set ("agent" ∷ "weather" ∷ "timeout_s" ∷ []) (float u.agent.weather.timeout_s)
    ∷ set ("agent" ∷ "web_search" ∷ "enabled" ∷ []) (boolean u.agent.web_search.enabled)
    ∷ set ("agent" ∷ "web_search" ∷ "tavily_url" ∷ []) (string u.agent.web_search.tavily_url)
    ∷ set ("agent" ∷ "web_search" ∷ "timeout_s" ∷ []) (float u.agent.web_search.timeout_s)
    ∷ set ("agent" ∷ "web_search" ∷ "max_results" ∷ []) (integer u.agent.web_search.max_results)
    ∷ set ("agent" ∷ "web_search" ∷ "search_depth" ∷ []) (string u.agent.web_search.search_depth)
    ∷ secret ("agent" ∷ "web_search" ∷ "api_key" ∷ []) u.agent.web_search.api_key
    ∷ []

abbrev pub home_assistant_steps : EditableConfig SecretUpdate → List Step
home_assistant_steps u =
    set ("mcp" ∷ "home_assistant" ∷ "enabled" ∷ []) (boolean u.home_assistant.enabled)
    ∷ set ("mcp" ∷ "home_assistant" ∷ "url" ∷ []) (string u.home_assistant.url)
    ∷ set ("mcp" ∷ "home_assistant" ∷ "timeout_s" ∷ []) (float u.home_assistant.timeout_s)
    ∷ secret ("mcp" ∷ "home_assistant" ∷ "token" ∷ []) u.home_assistant.token
    ∷ []

abbrev pub music_steps : EditableConfig SecretUpdate → List Step
music_steps u =
    set ("music" ∷ "enabled" ∷ []) (boolean u.music.enabled)
    ∷ set ("music" ∷ "provider" ∷ []) (string u.music.provider)
    ∷ set ("music" ∷ "interruption" ∷ "mode" ∷ []) (string u.music.interruption_mode)
    ∷ set ("music" ∷ "navidrome" ∷ "base_url" ∷ []) (string u.music.navidrome.base_url)
    ∷ set ("music" ∷ "navidrome" ∷ "username" ∷ []) (string u.music.navidrome.username)
    ∷ set ("music" ∷ "navidrome" ∷ "api_version" ∷ []) (string u.music.navidrome.api_version)
    ∷ set ("music" ∷ "navidrome" ∷ "timeout_s" ∷ []) (float u.music.navidrome.timeout_s)
    ∷ secret ("music" ∷ "navidrome" ∷ "password" ∷ []) u.music.navidrome.password
    ∷ set ("music" ∷ "netease" ∷ "api_base_url" ∷ []) (string u.music.netease.api_base_url)
    ∷ set ("music" ∷ "netease" ∷ "login_mode" ∷ []) (string u.music.netease.login_mode)
    ∷ set ("music" ∷ "netease" ∷ "account" ∷ []) (string u.music.netease.account)
    ∷ set ("music" ∷ "netease" ∷ "phone" ∷ []) (string u.music.netease.phone)
    ∷ set ("music" ∷ "netease" ∷ "default_level" ∷ []) (string u.music.netease.default_level)
    ∷ set ("music" ∷ "netease" ∷ "timeout_s" ∷ []) (float u.music.netease.timeout_s)
    ∷ set ("music" ∷ "netease" ∷ "login_on_start" ∷ []) (boolean u.music.netease.login_on_start)
    ∷ secret ("music" ∷ "netease" ∷ "password" ∷ []) u.music.netease.password
    ∷ secret ("music" ∷ "netease" ∷ "md5_password" ∷ []) u.music.netease.md5_password
    ∷ []

abbrev pub airplay_steps : EditableConfig SecretUpdate → List Step
airplay_steps u =
    set ("airplay" ∷ "enabled" ∷ []) (boolean u.airplay.enabled)
    ∷ set ("airplay" ∷ "name" ∷ []) (string u.airplay.name)
    ∷ set ("airplay" ∷ "port" ∷ []) (integer u.airplay.port)
    ∷ set ("airplay" ∷ "interruption" ∷ "mode" ∷ []) (string u.airplay.interruption_mode)
    ∷ set ("airplay" ∷ "interruption" ∷ "duck_gain" ∷ []) (float u.airplay.duck_gain)
    ∷ secret ("airplay" ∷ "password" ∷ []) u.airplay.password
    ∷ []

abbrev pub device_steps : EditableConfig SecretUpdate → List Step
device_steps u = set ("device" ∷ "led_enabled" ∷ []) (boolean u.led_enabled) ∷ []

abbrev pub all_steps : EditableConfig SecretUpdate → List Step
all_steps u =
    runtime_steps u
    ++ voice_steps u
    ++ asr_steps u
    ++ llm_steps u
    ++ agent_steps u
    ++ home_assistant_steps u
    ++ music_steps u
    ++ airplay_steps u
    ++ device_steps u

unfoldable pub apply_update_to_yaml : EditableConfig SecretUpdate → Yaml → Result Yaml
unfolding run_steps
apply_update_to_yaml u root = run_steps (all_steps u) root
