-- ===== src/Config/Update/Layout.antt =====
-- The fields of `EditableConfig` of xiaoai-agent/src/web/config_store.rs, by the section of the
-- configuration file in which agent.example.yaml has them.
use xiaoai_agent.Prelude.{Bool, ℕ, List, [], ◌∷◌, ◌++◌, String}
use xiaoai_agent.Config.Yaml.{boolean, integer, float, string, sequence}
use xiaoai_agent.Config.Secret.{SecretUpdate}
use xiaoai_agent.Config.Update.Fields.{F64, EditableConfig}
use xiaoai_agent.Config.Update.{Step, set, secret, texts}

-- The keys of one section, each with the value that it holds.
abbrev pub section : List String → List Step → List Step
section path [] = []
section path (set key v ∷ rest) = set (path ++ key) v ∷ section path rest
section path (secret key s ∷ rest) = secret (path ++ key) s ∷ section path rest

abbrev text_key : String → String → Step
text_key key s = set (key ∷ []) (string s)

abbrev switch_key : String → Bool → Step
switch_key key b = set (key ∷ []) (boolean b)

abbrev count_key : String → ℕ → Step
count_key key n = set (key ∷ []) (integer n)

abbrev number_key : String → F64 → Step
number_key key x = set (key ∷ []) (float x)

abbrev texts_key : String → List String → Step
texts_key key l = set (key ∷ []) (sequence (texts l))

abbrev secret_key : String → SecretUpdate → Step
secret_key key s = secret (key ∷ []) s

abbrev pub layout : EditableConfig SecretUpdate → List Step
layout u =
    section ("runtime" ∷ []) (
      texts_key "acknowledge_text" u.runtime.acknowledge_text
      ∷ number_key "session_idle_timeout_s" u.runtime.session_idle_timeout_s
      ∷ [])
    ++ section ("voice" ∷ []) (text_key "runtime" u.voice.runtime ∷ [])
    ++ section ("voice" ∷ "qwen" ∷ []) (
        text_key "url" u.voice.qwen.url
        ∷ text_key "model" u.voice.qwen.model
        ∷ text_key "voice" u.voice.qwen.voice
        ∷ number_key "turn_detection_threshold" u.voice.qwen.turn_detection_threshold
        ∷ count_key "turn_detection_silence_duration_ms"
            u.voice.qwen.turn_detection_silence_duration_ms
        ∷ number_key "connect_timeout_s" u.voice.qwen.connect_timeout_s
        ∷ number_key "event_timeout_s" u.voice.qwen.event_timeout_s
        ∷ number_key "tool_timeout_s" u.voice.qwen.tool_timeout_s
        ∷ count_key "max_tool_calls" u.voice.qwen.max_tool_calls
        ∷ count_key "max_tool_iterations" u.voice.qwen.max_tool_iterations
        ∷ secret_key "api_key" u.voice.qwen.api_key
        ∷ [])
    ++ section ("asr" ∷ []) (text_key "provider" u.asr.provider ∷ [])
    ++ section ("asr" ∷ "open_ai" ∷ []) (
        text_key "base_url" u.asr.open_ai.base_url
        ∷ text_key "model" u.asr.open_ai.model
        ∷ text_key "language" u.asr.open_ai.language
        ∷ text_key "prompt" u.asr.open_ai.prompt
        ∷ number_key "timeout_s" u.asr.open_ai.timeout_s
        ∷ count_key "retries" u.asr.open_ai.retries
        ∷ secret_key "api_key" u.asr.open_ai.api_key
        ∷ [])
    ++ section ("asr" ∷ "openai_realtime" ∷ []) (
        text_key "base_url" u.asr.openai_realtime.base_url
        ∷ text_key "model" u.asr.openai_realtime.model
        ∷ count_key "target_sample_rate" u.asr.openai_realtime.target_sample_rate
        ∷ count_key "chunk_ms" u.asr.openai_realtime.chunk_ms
        ∷ number_key "timeout_s" u.asr.openai_realtime.timeout_s
        ∷ count_key "retries" u.asr.openai_realtime.retries
        ∷ secret_key "api_key" u.asr.openai_realtime.api_key
        ∷ [])
    ++ section ("llm" ∷ []) (
        text_key "base_url" u.llm.base_url
        ∷ text_key "model" u.llm.model
        ∷ number_key "timeout_s" u.llm.timeout_s
        ∷ count_key "max_tokens" u.llm.max_tokens
        ∷ count_key "retries" u.llm.retries
        ∷ number_key "temperature" u.llm.temperature
        ∷ secret_key "api_key" u.llm.api_key
        ∷ [])
    ++ section ("agent" ∷ []) (
        text_key "timezone" u.agent.timezone
        ∷ text_key "custom_instructions" u.agent.custom_instructions
        ∷ [])
    ++ section ("agent" ∷ "weather" ∷ []) (
        secret_key "qweather_url" u.agent.weather.qweather_url
        ∷ text_key "default_location" u.agent.weather.default_location
        ∷ text_key "ip_lookup_url" u.agent.weather.ip_lookup_url
        ∷ number_key "timeout_s" u.agent.weather.timeout_s
        ∷ [])
    ++ section ("agent" ∷ "web_search" ∷ []) (
        switch_key "enabled" u.agent.web_search.enabled
        ∷ text_key "tavily_url" u.agent.web_search.tavily_url
        ∷ number_key "timeout_s" u.agent.web_search.timeout_s
        ∷ count_key "max_results" u.agent.web_search.max_results
        ∷ text_key "search_depth" u.agent.web_search.search_depth
        ∷ secret_key "api_key" u.agent.web_search.api_key
        ∷ [])
    ++ section ("mcp" ∷ "home_assistant" ∷ []) (
        switch_key "enabled" u.home_assistant.enabled
        ∷ text_key "url" u.home_assistant.url
        ∷ number_key "timeout_s" u.home_assistant.timeout_s
        ∷ secret_key "token" u.home_assistant.token
        ∷ [])
    ++ section ("music" ∷ [])
        (switch_key "enabled" u.music.enabled ∷ text_key "provider" u.music.provider ∷ [])
    ++ section ("music" ∷ "interruption" ∷ []) (text_key "mode" u.music.interruption_mode ∷ [])
    ++ section ("music" ∷ "navidrome" ∷ []) (
        text_key "base_url" u.music.navidrome.base_url
        ∷ text_key "username" u.music.navidrome.username
        ∷ text_key "api_version" u.music.navidrome.api_version
        ∷ number_key "timeout_s" u.music.navidrome.timeout_s
        ∷ secret_key "password" u.music.navidrome.password
        ∷ [])
    ++ section ("music" ∷ "netease" ∷ []) (
        text_key "api_base_url" u.music.netease.api_base_url
        ∷ text_key "login_mode" u.music.netease.login_mode
        ∷ text_key "account" u.music.netease.account
        ∷ text_key "phone" u.music.netease.phone
        ∷ text_key "default_level" u.music.netease.default_level
        ∷ number_key "timeout_s" u.music.netease.timeout_s
        ∷ switch_key "login_on_start" u.music.netease.login_on_start
        ∷ secret_key "password" u.music.netease.password
        ∷ secret_key "md5_password" u.music.netease.md5_password
        ∷ [])
    ++ section ("airplay" ∷ []) (
        switch_key "enabled" u.airplay.enabled
        ∷ text_key "name" u.airplay.name
        ∷ count_key "port" u.airplay.port
        ∷ [])
    ++ section ("airplay" ∷ "interruption" ∷ []) (
        text_key "mode" u.airplay.interruption_mode
        ∷ number_key "duck_gain" u.airplay.duck_gain
        ∷ [])
    ++ section ("airplay" ∷ []) (secret_key "password" u.airplay.password ∷ [])
    ++ section ("device" ∷ []) (switch_key "led_enabled" u.led_enabled ∷ [])
