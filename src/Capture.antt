-- ===== src/Capture.antt =====
-- The loops of xiaoai-agent/src/capture.rs that wait for one utterance. Times are milliseconds; what
-- arrives, and whether the callbacks work, are arguments.
pub mod Paired
use xiaoai_agent.Prelude.{
  ℕ, zero, suc, ◌+◌, max, Bool, true, false, not, ◌&&◌, List, [], ◌∷◌, leb, if◌then◌else◌,
}
use xiaoai_agent.Vad.Level.{Float}
use xiaoai_agent.Vad.Collector.{
  CaptureConfig, Collector, SpeechEvent, speech_start, speech_rejected, utterance_event, new, push,
}

-- The locals of the loop, with the time at which the idle timer was set, the chunks that were handed to
-- `on_audio_chunk`, the last first, and how often speech began and was rejected.
pub record Listening : Type 0 where
  pub collector : Collector
  pub speech_started : Bool
  pub idle_since : ℕ
  pub now : ℕ
  pub chunks : List (List ℕ)
  pub starts : ℕ
  pub rejections : ℕ

-- What the `select` of the loop meets: the timer, or what the channel answers. With audio come two
-- tests: whether `on_audio_chunk` and whether `on_speech_rejected` work this time.
pub data Input : Type 0 where
  timer : ℕ → Input
  audio : ℕ → List ℕ → Bool → Bool → Input
  lagged closed : Input

pub data Outcome : Type 0 where
  utterance : List ℕ → Outcome
  timed_out stopped callback_failed : Outcome

pub data Result : Type 0 where
  listening : Listening → Result
  done : Outcome → Listening → Result

abbrev pub min_idle : ℕ
min_idle = 1000

-- The loop over the events of a chunk. Without streaming no callback is told of a rejection.
unfoldable pub handle_events : Bool → Bool → List SpeechEvent → Listening → Result
handle_events streams works [] s = listening s
handle_events streams works (speech_start ∷ events) s =
    handle_events streams works events (record s { speech_started = true; starts = s.starts + 1 })
handle_events streams works (speech_rejected ∷ events) s =
    let t = record s { speech_started = false; rejections = s.rejections + 1 } in
    let rest = handle_events streams works events (record t { idle_since = s.now }) in
    if streams && not works then done callback_failed t else rest
handle_events streams works (utterance_event pcm ∷ events) s = done (utterance pcm) s

module _ (f : Float) (c : CaptureConfig f) (streams : Bool) (idle_timeout : ℕ) where
  unfoldable pub on_audio : ℕ → List ℕ → Bool → Bool → Listening → Result
  unfolding handle_events
  on_audio now bytes takes works s =
      let t = record s { now = now; chunks = if streams then bytes ∷ s.chunks else s.chunks } in
      let (collector, events) = push f c now bytes t.collector in
      let next = handle_events streams works events (record t { collector = collector }) in
      if streams && not takes then done callback_failed t else next

  unfoldable pub on_timer : ℕ → Listening → Result
  on_timer now s =
      if not s.speech_started && leb (s.idle_since + max idle_timeout min_idle) now
      then done timed_out (record s { now = now })
      else listening s

  unfoldable pub on_input : Input → Listening → Result
  unfolding on_audio on_timer
  on_input (timer now) s = on_timer now s
  on_input (audio now bytes takes works) s = on_audio now bytes takes works s
  on_input lagged s = listening s
  on_input closed s = done stopped s

  unfoldable pub collect_utterance : List Input → Listening → Result
  unfolding on_input
  collect_utterance [] s = listening s
  collect_utterance (i ∷ inputs) s = elim (on_input i s) [
    | listening t ↦ collect_utterance inputs t
    | done outcome t ↦ done outcome t
  ]

abbrev pub start : ℕ → Listening
start now = record {
  collector = new;
  speech_started = false;
  idle_since = now;
  now = now;
  chunks = [];
  starts = 0;
  rejections = 0;
}
