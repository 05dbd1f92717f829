-- ===== src/Examples/Keywords.antt =====
-- Runs of the keyword monitor: xiaoai-agent/src/monitor/kws.rs.
use xiaoai_agent.Prelude.{◌≡◌, ◌≢◌, refl, List, [], ◌∷◌, none, some, arith}
use xiaoai_agent.Prelude.Int.{pos}
use xiaoai_agent.Monitor.Vpm.{
  RuntimeConfig, Frame, Feed, VpmWakeEvent, frame_bytes, sample_format_code, arecord_format,
  feed_start, feed_vpm_audio,
}
use xiaoai_agent.Monitor.Debounce.{Spaced, Stamped, feed_vpm_audio-paced}
use xiaoai_agent.Monitor.InitBlock.{Addresses}

abbrev monitor : RuntimeConfig
monitor = record {
  kws_sample_rate = 16000;
  kws_channels = 3;
  kws_bits_per_sample = 32;
  kws_frame_ms = 20;
  kws_ref_channel_index = 2;
}

frame_size : frame_bytes monitor ≡ some 3840
unfolding frame_bytes
frame_size = refl

recorded : arecord_format 24 ≢ none
unfolding arecord_format
recorded = λ e. ground arith

abbrev heard : VpmWakeEvent
heard = record { keyword = "XIAOAITONGXUE"; kind = "WAKEUP_REAL"; value = pos 1 }

-- The second event comes 100 ms behind the first one.
abbrev heard_twice : List Frame
heard_twice =
    record { now = 5000; commands = []; events = heard ∷ [] }
    ∷ record { now = 5100; commands = pos 6 ∷ []; events = heard ∷ heard ∷ [] }
    ∷ []

after_frames : Feed
after_frames = record {
  frames = 2;
  last_event = 5000;
  statuses = pos 6 ∷ [];
  stamps = (20, 1) ∷ (0, 0) ∷ [];
  updates = (5000, "XIAOAITONGXUE") ∷ [];
}

feeds : feed_vpm_audio monitor heard_twice (feed_start 4000) ≡ some after_frames
unfolding feed_vpm_audio feed_start after_frames
feeds = refl

feed_vpm_audio-paced_example :
    Spaced after_frames.updates × Stamped 20 after_frames.frames after_frames.stamps
feed_vpm_audio-paced_example = feed_vpm_audio-paced monitor heard_twice 4000 after_frames feeds

abbrev addresses : Addresses
addresses = record {
  config_path = 4096;
  log_callback = 8192;
  event_callback = 8196;
  wakeup_data_callback = 8200;
  asr_data_callback = 8204;
  voip_data_callback = 8208;
  stat_callback = 8212;
  target_score_bits = 1050253722;
}

format_of_32 : sample_format_code 32 ≡ some 3
unfolding sample_format_code
format_of_32 = refl
