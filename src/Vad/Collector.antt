-- ===== src/Vad/Collector.antt =====
-- `SpeechCollector` of xiaoai-agent/src/vad.rs. Level logging is left out; the clock is an argument.
use xiaoai_agent.Prelude.{
  ℕ, zero, suc, ◌+◌, ◌-◌, ◌*◌, ◌/◌, ◌<◌, max, Bool, true, false, not, ◌&&◌, List, [], ◌∷◌, ◌++◌,
  Option, none, some, if◌then◌else◌, ltb, leb, length, take, drop,
}
use xiaoai_agent.Vad.Level.{Float, apply_gain, rms_norm}

pub data SpeechEvent : Type 0 where
  speech_start speech_rejected : SpeechEvent
  utterance_event : List ℕ → SpeechEvent

-- The part of `CaptureConfig` that the collector reads. The two durations that the source converts
-- from seconds in floating point are given in milliseconds. A sample rate of 0, at which the source
-- would divide by zero, is excluded.
pub record CaptureConfig (f : Float) : Type 0 where
  pub sample_rate : ℕ
  pub block_ms : ℕ
  pub pre_roll_ms : ℕ
  pub silence_ms : ℕ
  pub min_speech_ms : ℕ
  pub max_utterance_ms : ℕ
  pub cooldown_ms : ℕ
  pub threshold : f.F
  pub mic_gain : f.F
  pub rate_pos : 0 < sample_rate

abbrev pub bytes_per_sample : ℕ
bytes_per_sample = 2

abbrev pub div_ceil : ℕ → ℕ → ℕ
div_ceil a b = (a + b - 1) / b

-- The fields of the collector that change.
pub record Collector : Type 0 where
  pub pending : List ℕ
  pub pre_roll : List (List ℕ)
  pub utterance : List ℕ
  pub in_speech : Bool
  pub voiced_ms : ℕ
  pub silence_run_ms : ℕ
  pub utterance_ms : ℕ
  pub last_completed : Option ℕ

unfoldable pub new : Collector
new = record {
  pending = [];
  pre_roll = [];
  utterance = [];
  in_speech = false;
  voiced_ms = 0;
  silence_run_ms = 0;
  utterance_ms = 0;
  last_completed = none;
}

abbrev pub concat : List (List ℕ) → List ℕ
concat [] = []
concat (b ∷ bs) = b ++ concat bs

-- `while pre_roll.len() > bound { pre_roll.pop_front(); }`
abbrev pub keep_last {ℓ} : {A : Type ℓ} → ℕ → List A → List A
keep_last bound xs = drop (length xs - bound) xs

abbrev pub cooling : ℕ → ℕ → Option ℕ → Bool
cooling now cooldown none = false
cooling now cooldown (some completed) = ltb (now - completed) cooldown

abbrev pub emit : Option SpeechEvent → List SpeechEvent → List SpeechEvent
emit none events = events
emit (some e) events = e ∷ events

-- The state with a block inside speech.
abbrev pub spoken : ℕ → Bool → List ℕ → Collector → Collector
spoken ms voice block s = record s {
  utterance = s.utterance ++ block;
  utterance_ms = s.utterance_ms + ms;
  voiced_ms = if voice then s.voiced_ms + ms else s.voiced_ms;
  silence_run_ms = if voice then 0 else s.silence_run_ms + ms;
}

module _ (f : Float) (c : CaptureConfig f) where
  -- `SpeechCollector::new`
  unfoldable pub block_ms_of : ℕ
  block_ms_of = max c.block_ms 10

  unfoldable pub block_bytes : ℕ
  unfolding block_ms_of
  block_bytes = max (c.sample_rate * block_ms_of / 1000) 1 * bytes_per_sample

  unfoldable pub pre_roll_blocks : ℕ
  unfolding block_ms_of
  pre_roll_blocks = max (div_ceil (max c.pre_roll_ms block_ms_of) block_ms_of) 1

  -- The length of a block in milliseconds.
  unfoldable pub duration : List ℕ → ℕ
  duration block = length block * 1000 / (c.sample_rate * bytes_per_sample)

  unfoldable pub is_voice : List ℕ → Bool
  is_voice block = f.at_least (rms_norm f block) c.threshold

  unfoldable pub reset_after_utterance : ℕ → Collector → Collector
  reset_after_utterance now s = record s {
    pre_roll = [];
    in_speech = false;
    voiced_ms = 0;
    silence_run_ms = 0;
    utterance_ms = 0;
    last_completed = some now;
  }

  -- A block outside speech.
  unfoldable pub listen : ℕ → Bool → List ℕ → Collector → Collector × Option SpeechEvent
  unfolding pre_roll_blocks
  listen ms voice block s =
      let roll = keep_last pre_roll_blocks (s.pre_roll ++ block ∷ []) in
      let t = record s { pre_roll = roll } in
      if voice
      then (
        record t {
          in_speech = true;
          utterance = concat roll;
          voiced_ms = ms;
          silence_run_ms = 0;
          utterance_ms = ms * length roll;
        },
        some speech_start,
      )
      else (t, none)

  -- The end of an utterance.
  unfoldable pub complete : ℕ → Collector → Collector × Option SpeechEvent
  unfolding reset_after_utterance
  complete now s =
      let t = reset_after_utterance now (record s { utterance = [] }) in
      if ltb s.voiced_ms c.min_speech_ms
      then (t, some speech_rejected)
      else (t, some (utterance_event s.utterance))

  -- A block inside speech.
  unfoldable pub follow : ℕ → ℕ → Bool → List ℕ → Collector → Collector × Option SpeechEvent
  unfolding complete
  follow now ms voice block s =
      let t = spoken ms voice block s in
      if ltb t.silence_run_ms c.silence_ms && ltb t.utterance_ms c.max_utterance_ms
      then (t, none)
      else complete now t

  unfoldable pub push_block : ℕ → List ℕ → Collector → Collector × Option SpeechEvent
  unfolding listen follow
  push_block now raw s =
      let block = apply_gain f c.mic_gain raw in
      let ms = duration block in
      let voice = is_voice block in
      if not s.in_speech && cooling now c.cooldown_ms s.last_completed
      then (s, none)
      else if s.in_speech
      then follow now ms voice block s
      else listen ms voice block s

  -- The loop of `push`, on fuel: `drain(..block_bytes)` takes the first block off `pending`.
  unfoldable pub drain_blocks : ℕ → ℕ → Collector → Collector × List SpeechEvent
  unfolding block_bytes
  drain_blocks zero now s = (s, [])
  drain_blocks (suc fuel) now s =
      let block = take block_bytes s.pending in
      let (t, event) = push_block now block (record s { pending = drop block_bytes s.pending }) in
      let (u, events) = drain_blocks fuel now t in
      if leb block_bytes (length s.pending) then (u, emit event events) else (s, [])

  unfoldable pub push : ℕ → List ℕ → Collector → Collector × List SpeechEvent
  unfolding drain_blocks
  push now bytes s =
      let t = record s { pending = s.pending ++ bytes } in drain_blocks (length t.pending) now t
