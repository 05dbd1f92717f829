-- ===== src/Config/Validate/Exact.antt =====
-- What `validate_update` of xiaoai-agent/src/web/config_store.rs accepts.
use xiaoai_agent.Prelude.{◌≤◌, ◌≡◌, refl, List, ◌++◌, map, ◌⊎◌}
use xiaoai_agent.Config.Secret.{SecretUpdate}
use xiaoai_agent.Config.Update.Fields.{EditableConfig}
use xiaoai_agent.Config.Validate.{
  Check, acknowledge_check, named_texts, named_check, choice_checks, turn_checks, timeout_checks,
  number_checks, all_checks,
}
use xiaoai_agent.Config.Validate.Bounds.{
  Positive, InUnitBall, InUnitInterval, AllShort, AllNamedShort,
}

pub record Valid (u : EditableConfig SecretUpdate) : Type 0 where
  pub runtime :
      (u.voice.runtime ≡ "legacy")
      ⊎ ((u.voice.runtime ≡ "native_qwen") ⊎ (u.voice.runtime ≡ "hermes"))
  pub asr :
      (u.asr.provider ≡ "open_ai")
      ⊎ ((u.asr.provider ≡ "openai_realtime") ⊎ (u.asr.provider ≡ "xiaomi_aivs"))
  pub music : (u.music.provider ≡ "navidrome") ⊎ (u.music.provider ≡ "netease")
  pub idle : Positive u.runtime.session_idle_timeout_s
  pub threshold : InUnitBall u.voice.qwen.turn_detection_threshold
  pub silence :
      (200 ≤ u.voice.qwen.turn_detection_silence_duration_ms)
      × (u.voice.qwen.turn_detection_silence_duration_ms ≤ 6000)
  pub connect : Positive u.voice.qwen.connect_timeout_s
  pub event : Positive u.voice.qwen.event_timeout_s
  pub tool : Positive u.voice.qwen.tool_timeout_s
  pub open_ai : Positive u.asr.open_ai.timeout_s
  pub realtime : Positive u.asr.openai_realtime.timeout_s
  pub llm : Positive u.llm.timeout_s
  pub weather : Positive u.agent.weather.timeout_s
  pub search_time : Positive u.agent.web_search.timeout_s
  pub home : Positive u.home_assistant.timeout_s
  pub navidrome : Positive u.music.navidrome.timeout_s
  pub netease : Positive u.music.netease.timeout_s
  pub results : (1 ≤ u.agent.web_search.max_results) × (u.agent.web_search.max_results ≤ 10)
  pub port : 1 ≤ u.airplay.port
  pub duck : InUnitInterval u.airplay.duck_gain
  pub acknowledge : AllShort u.runtime.acknowledge_text
  pub texts : AllNamedShort (named_texts u)

-- The tests before the texts.
abbrev first_checks : EditableConfig SecretUpdate → List Check
first_checks u = choice_checks u ++ turn_checks u ++ timeout_checks u ++ number_checks u

all_checks-split :
    (u : EditableConfig SecretUpdate)
    → all_checks u
      ≡ first_checks u
        ++ (map acknowledge_check u.runtime.acknowledge_text ++ map named_check (named_texts u))
all_checks-split u = refl
