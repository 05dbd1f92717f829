-- ===== src/Capture/Paired.antt =====
-- The loops of xiaoai-agent/src/capture.rs over the detector of xiaoai-agent/src/vad.rs.
use xiaoai_agent.Prelude.{ℕ, ◌+◌, ◌≤◌, ◌≡◌, max, Bool, false, if◌then◌else◌}
use xiaoai_agent.Capture.{
  Listening, utterance, timed_out, stopped, callback_failed, Result, listening, done,
}

abbrev pub open_count : Bool → ℕ
open_count in_speech = if in_speech then 1 else 0

-- The flag of the loop agrees with the detector, and every start but an open one was rejected.
abbrev pub IsPaired : Listening → Type 0
IsPaired s =
    (s.speech_started ≡ s.collector.in_speech)
    × (s.starts ≡ s.rejections + open_count s.speech_started)

-- What a run of the loop with this idle timeout may come to.
abbrev pub Paired : ℕ → Result → Type 0
Paired idle_timeout (listening s) = IsPaired s
Paired idle_timeout (done (utterance pcm) s) = s.starts ≡ s.rejections + 1
Paired idle_timeout (done timed_out s) =
    (s.collector.in_speech ≡ false)
    × (s.starts ≡ s.rejections)
    × (s.idle_since + max idle_timeout 1000 ≤ s.now)
Paired idle_timeout (done stopped s) = IsPaired s
Paired idle_timeout (done callback_failed s) = s.starts ≡ s.rejections + open_count s.speech_started
