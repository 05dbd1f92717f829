-- ===== src/Monitor/Vpm.antt =====
-- The frames and the events of the keyword monitor in xiaoai-agent/src/monitor/kws.rs. The library
-- libvpm, the recorder process and the clock are arguments: the time of a frame, and the commands and
-- the events that wait behind it.
use xiaoai_agent.Prelude.{
  ℕ, zero, suc, ◌+◌, ◌-◌, ◌*◌, ◌/◌, ◌^◌, ◌≤◌, ◌<◌, ◌≡◌, ◌≢◌, ◌⊎◌, List, [], ◌∷◌, ◌++◌, Option, none,
  some, String, arith, if◌then◌else◌, ltb, leb, ◌==◌,
}
use xiaoai_agent.Prelude.Int.{ℤ, pos, negsuc}

-- The part of the configuration that the frames depend on.
pub record RuntimeConfig : Type 0 where
  pub kws_sample_rate : ℕ
  pub kws_channels : ℕ
  pub kws_bits_per_sample : ℕ
  pub kws_frame_ms : ℕ
  pub kws_ref_channel_index : ℕ

infixl 5 ◌>>=◌
abbrev pub ◌>>=◌ {ℓ κ} : {A : Type ℓ} {B : Type κ} → Option A → (A → Option B) → Option B
none >>= k = none
some a >>= k = k a

abbrev pub checked_mul : ℕ → ℕ → ℕ → Option ℕ
checked_mul bits a b = if ltb (a * b) (2 ^ bits) then some (a * b) else none

abbrev pub positive : ℕ → Option ℕ
positive zero = none
positive (suc n) = some (suc n)

unfoldable pub frame_bytes : RuntimeConfig → Option ℕ
frame_bytes c = do
  bytes_per_sample ← positive (c.kws_bits_per_sample / 8)
  samples ← checked_mul 32 c.kws_sample_rate c.kws_frame_ms
  sized ← checked_mul 32 (samples / 1000) c.kws_channels
  checked_mul 32 sized bytes_per_sample

unfoldable pub sample_format_code : ℕ → Option ℕ
sample_format_code bits =
    if bits == 16
    then some 0
    else if bits == 8
    then some 1
    else if bits == 24
    then some 2
    else if bits == 32
    then some 3
    else none

-- What `spawn_arecord` passes as the format.
unfoldable pub arecord_format : ℕ → Option String
arecord_format bits =
    if bits == 16
    then some "S16_LE"
    else if bits == 24
    then some "S24_LE"
    else if bits == 32
    then some "S32_LE"
    else none

pub record VpmWakeEvent : Type 0 where
  pub keyword : String
  pub kind : String
  pub value : ℤ

-- The callbacks of the library: what they send to the channel of the events.
unfoldable pub vpm_event_callback : ℤ → ℤ → List VpmWakeEvent
vpm_event_callback event value = elim event [
  | pos n ↦
      if n == 0
      then record { keyword = "XIAOAITONGXUE"; kind = "WAKEUP_REAL"; value = value } ∷ []
      else []
  | negsuc n ↦ []
]

unfoldable pub vpm_wakeup_data_callback : ℤ → List VpmWakeEvent
vpm_wakeup_data_callback local_word = elim local_word [
  | pos n ↦
      if n == 0
      then record { keyword = "XIAOAITONGXUE"; kind = "WAKEUP_DATA"; value = pos n } ∷ []
      else []
  | negsuc n ↦ []
]

unfoldable pub drain_first_event : List VpmWakeEvent → Option VpmWakeEvent
drain_first_event [] = none
drain_first_event (event ∷ events) = some event

abbrev pub event_debounce : ℕ
event_debounce = 1200

-- One round of the loop of `feed_vpm_audio`.
pub record Frame : Type 0 where
  pub now : ℕ
  pub commands : List ℤ
  pub events : List VpmWakeEvent

-- `updates` lists the keywords that went to `on_update`, with their times, newest first; `stamps` are
-- the `start_time_ms` and `data_frame_number` that `vpm_process` has been given, newest first.
pub record Feed : Type 0 where
  pub frames : ℕ
  pub last_event : ℕ
  pub statuses : List ℤ
  pub stamps : List (ℕ × ℕ)
  pub updates : List (ℕ × String)

unfoldable pub feed_start : ℕ → Feed
feed_start now = record {
  frames = 0;
  last_event = if leb event_debounce now then now - event_debounce else now;
  statuses = [];
  stamps = [];
  updates = [];
}

-- `Instant::elapsed` stops at 0.
unfoldable pub on_event : ℕ → Option VpmWakeEvent → Feed → Feed
on_event now none s = s
on_event now (some event) s =
    if ltb (now - s.last_event) event_debounce
    then s
    else record s { last_event = now; updates = (now, event.keyword) ∷ s.updates }

unfoldable pub feed_frame : RuntimeConfig → Frame → Feed → Option Feed
unfolding on_event drain_first_event
feed_frame c frame s = do
  start_time_ms ← checked_mul 64 s.frames c.kws_frame_ms
  some (
      on_event frame.now (drain_first_event frame.events) (record s {
        frames = s.frames + 1;
        statuses = s.statuses ++ frame.commands;
        stamps = (start_time_ms, s.frames) ∷ s.stamps;
      }))

-- The loop, until a time stamp overflows.
unfoldable pub feed_vpm_audio : RuntimeConfig → List Frame → Feed → Option Feed
unfolding feed_frame
feed_vpm_audio c [] s = some s
feed_vpm_audio c (frame ∷ rest) s = do s ← feed_frame c frame s; feed_vpm_audio c rest s

-- The size of a frame is the product that it stands for, below 2^32, or one of the checks refuses it:
-- the samples have less than eight bits, or a product on the way does not fit in 32 bits.
pub frame_bytes-exact :
    (c : RuntimeConfig)
    → let samples = c.kws_sample_rate * c.kws_frame_ms in
      let sized = samples / 1000 * c.kws_channels in
      let bytes = sized * (c.kws_bits_per_sample / 8) in
      ((frame_bytes c ≡ some bytes) × (8 ≤ c.kws_bits_per_sample) × (bytes < 2 ^ 32))
      ⊎ ((frame_bytes c ≡ none)
          × ((c.kws_bits_per_sample < 8)
              ⊎ ((2 ^ 32 ≤ samples) ⊎ ((2 ^ 32 ≤ sized) ⊎ (2 ^ 32 ≤ bytes)))))
unfolding frame_bytes
frame_bytes-exact c = ground arith

-- The library has a code for every width that the recorder accepts.
pub arecord_format-code : (bits : ℕ) → arecord_format bits ≢ none → sample_format_code bits ≢ none
unfolding arecord_format sample_format_code
arecord_format-code bits h = ground arith
