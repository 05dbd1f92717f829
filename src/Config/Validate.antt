-- ===== src/Config/Validate.antt =====
-- `validate_update` of xiaoai-agent/src/web/config_store.rs, its tests as a list in the order of the
-- source. A floating-point number is its 64-bit pattern.
pub mod Bounds
pub mod Exact
use xiaoai_agent.Prelude.{
  ℕ, ◌*◌, ◌+◌, ◌^◌, ◌%◌, ◌/◌, Bool, true, false, not, ◌&&◌, ◌||◌, List, [], ◌∷◌, ◌++◌, map, String,
  str_eq, ◌==◌, leb, if◌then◌else◌,
}
use xiaoai_agent.Prelude.Texts.{char_count}
use xiaoai_agent.Config.Secret.{SecretUpdate}
use xiaoai_agent.Config.Update.Fields.{EditableConfig}
use xiaoai_agent.Config.Update.{Result, ok, err, field_error, max_secret_chars}

-- One `if` of the source with the error behind it.
pub record Check : Type 0 where
  pub field : String
  pub message : String
  pub passes : Bool

abbrev pub check : String → String → Bool → Check
check f m b = record { field = f; message = m; passes = b }

abbrev pub one_bits : ℕ
one_bits = 1023 * 2 ^ 52

-- `f64::is_finite`: the exponent is not all ones.
abbrev pub is_finite : ℕ → Bool
is_finite bits = not ((bits / 2 ^ 52) % 2048 == 2047)

-- `value <= 0.0` of a finite value: a sign, or nothing at all.
abbrev pub is_not_positive : ℕ → Bool
is_not_positive bits = leb (2 ^ 63) bits || (bits == 0)

-- `(-1.0..=1.0).contains(..)`
abbrev pub in_unit_ball : ℕ → Bool
in_unit_ball bits = leb (bits % 2 ^ 63) one_bits

-- `(0.0..=1.0).contains(..)`: the negative zero is equal to zero.
abbrev pub in_unit_interval : ℕ → Bool
in_unit_interval bits = leb bits one_bits || (bits == 2 ^ 63)

abbrev pub in_range : ℕ → ℕ → ℕ → Bool
in_range low high n = leb low n && leb n high

abbrev pub one_of : String → List String → Bool
one_of s [] = false
one_of s (t ∷ ts) = str_eq s t || one_of s ts

abbrev pub validate_positive_timeout : String → ℕ → Check
validate_positive_timeout field value =
    check field "must be finite and greater than zero"
      (is_finite value && not (is_not_positive value))

abbrev pub validate_string : String → String → Check
validate_string field value =
    check field "must not exceed 4096 characters" (leb (char_count value) max_secret_chars)

abbrev pub choice_checks : EditableConfig SecretUpdate → List Check
choice_checks u =
    check "voice.runtime" "must be legacy, native_qwen, or hermes"
      (one_of u.voice.runtime ("legacy" ∷ "native_qwen" ∷ "hermes" ∷ []))
    ∷ check "asr.provider" "unsupported ASR provider"
        (one_of u.asr.provider ("open_ai" ∷ "openai_realtime" ∷ "xiaomi_aivs" ∷ []))
    ∷ check "music.provider" "must be navidrome or netease"
        (one_of u.music.provider ("navidrome" ∷ "netease" ∷ []))
    ∷ []

abbrev pub turn_checks : EditableConfig SecretUpdate → List Check
turn_checks u =
    validate_positive_timeout "runtime.session_idle_timeout_s" u.runtime.session_idle_timeout_s
    ∷ check "voice.qwen.turn_detection_threshold" "must be between -1 and 1" (
        is_finite u.voice.qwen.turn_detection_threshold
        && in_unit_ball u.voice.qwen.turn_detection_threshold)
    ∷ check "voice.qwen.turn_detection_silence_duration_ms" "must be between 200 and 6000"
        (in_range 200 6000 u.voice.qwen.turn_detection_silence_duration_ms)
    ∷ []

abbrev pub timeout_checks : EditableConfig SecretUpdate → List Check
timeout_checks u =
    validate_positive_timeout "voice.qwen.connect_timeout_s" u.voice.qwen.connect_timeout_s
    ∷ validate_positive_timeout "voice.qwen.event_timeout_s" u.voice.qwen.event_timeout_s
    ∷ validate_positive_timeout "voice.qwen.tool_timeout_s" u.voice.qwen.tool_timeout_s
    ∷ validate_positive_timeout "asr.open_ai.timeout_s" u.asr.open_ai.timeout_s
    ∷ validate_positive_timeout "asr.openai_realtime.timeout_s" u.asr.openai_realtime.timeout_s
    ∷ validate_positive_timeout "llm.timeout_s" u.llm.timeout_s
    ∷ validate_positive_timeout "agent.weather.timeout_s" u.agent.weather.timeout_s
    ∷ validate_positive_timeout "agent.web_search.timeout_s" u.agent.web_search.timeout_s
    ∷ validate_positive_timeout "mcp.home_assistant.timeout_s" u.home_assistant.timeout_s
    ∷ validate_positive_timeout "music.navidrome.timeout_s" u.music.navidrome.timeout_s
    ∷ validate_positive_timeout "music.netease.timeout_s" u.music.netease.timeout_s
    ∷ []

abbrev pub number_checks : EditableConfig SecretUpdate → List Check
number_checks u =
    check "agent.web_search.max_results" "must be between 1 and 10"
      (in_range 1 10 u.agent.web_search.max_results)
    ∷ check "airplay.port" "must be greater than zero" (not (u.airplay.port == 0))
    ∷ check "airplay.interruption.duck_gain" "must be finite and between 0 and 1"
        (is_finite u.airplay.duck_gain && in_unit_interval u.airplay.duck_gain)
    ∷ []

abbrev pub acknowledge_check : String → Check
acknowledge_check value = validate_string "runtime.acknowledge_text" value

abbrev pub named_texts : EditableConfig SecretUpdate → List (String × String)
named_texts u =
    ("voice.runtime", u.voice.runtime)
    ∷ ("voice.qwen.url", u.voice.qwen.url)
    ∷ ("voice.qwen.model", u.voice.qwen.model)
    ∷ ("voice.qwen.voice", u.voice.qwen.voice)
    ∷ ("asr.provider", u.asr.provider)
    ∷ ("asr.open_ai.base_url", u.asr.open_ai.base_url)
    ∷ ("asr.open_ai.model", u.asr.open_ai.model)
    ∷ ("asr.open_ai.language", u.asr.open_ai.language)
    ∷ ("asr.open_ai.prompt", u.asr.open_ai.prompt)
    ∷ ("asr.openai_realtime.base_url", u.asr.openai_realtime.base_url)
    ∷ ("asr.openai_realtime.model", u.asr.openai_realtime.model)
    ∷ ("llm.base_url", u.llm.base_url)
    ∷ ("llm.model", u.llm.model)
    ∷ ("agent.timezone", u.agent.timezone)
    ∷ ("agent.custom_instructions", u.agent.custom_instructions)
    ∷ ("agent.weather.default_location", u.agent.weather.default_location)
    ∷ ("agent.weather.ip_lookup_url", u.agent.weather.ip_lookup_url)
    ∷ ("agent.web_search.tavily_url", u.agent.web_search.tavily_url)
    ∷ ("agent.web_search.search_depth", u.agent.web_search.search_depth)
    ∷ ("mcp.home_assistant.url", u.home_assistant.url)
    ∷ ("music.provider", u.music.provider)
    ∷ ("music.interruption.mode", u.music.interruption_mode)
    ∷ ("music.navidrome.base_url", u.music.navidrome.base_url)
    ∷ ("music.navidrome.username", u.music.navidrome.username)
    ∷ ("music.navidrome.api_version", u.music.navidrome.api_version)
    ∷ ("music.netease.api_base_url", u.music.netease.api_base_url)
    ∷ ("music.netease.login_mode", u.music.netease.login_mode)
    ∷ ("music.netease.account", u.music.netease.account)
    ∷ ("music.netease.phone", u.music.netease.phone)
    ∷ ("music.netease.default_level", u.music.netease.default_level)
    ∷ ("airplay.name", u.airplay.name)
    ∷ ("airplay.interruption.mode", u.airplay.interruption_mode)
    ∷ []

abbrev pub named_check : String × String → Check
named_check (field, value) = validate_string field value

abbrev pub all_checks : EditableConfig SecretUpdate → List Check
all_checks u =
    choice_checks u
    ++ turn_checks u
    ++ timeout_checks u
    ++ number_checks u
    ++ map acknowledge_check u.runtime.acknowledge_text
    ++ map named_check (named_texts u)

-- The first test that fails ends it.
unfoldable pub run_checks : List Check → Result (Unit {0})
run_checks [] = ok tt
run_checks (c ∷ cs) = if c.passes then run_checks cs else err (field_error c.field c.message)

unfoldable pub validate_update : EditableConfig SecretUpdate → Result (Unit {0})
unfolding run_checks
validate_update u = run_checks (all_checks u)
