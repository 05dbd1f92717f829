-- ===== src/Examples/Sound.antt =====
-- Runs of the microphone's conversion, of the speech collector and of a capture:
-- xiaoai-agent/src/qwen_voice/webrtc_session.rs, xiaoai-agent/src/vad.rs and
-- xiaoai-agent/src/capture.rs.
use xiaoai_agent.Prelude.{ℕ, ◌+◌, ◌*◌, ◌≡◌, refl, true, List, [], ◌∷◌, ◌++◌, none, arith, leb}
use xiaoai_agent.Prelude.Int.{ℤ, pos, negsuc, ◌+ℤ◌, ◌*ℤ◌, ◌-ℤ◌}
use xiaoai_agent.Audio.Bytes.{i16_from_le_bytes, samples, AllI16, bytes_of}
use xiaoai_agent.Audio.Upsample.{interpolated, enqueue_upsampled_pcm, flush_upsampled_pcm}
use xiaoai_agent.Audio.Stream.{Upsampled, chunks-Upsampled}
use xiaoai_agent.Vad.Level.{Float, rms_norm, apply_gain}
use xiaoai_agent.Vad.Collector.{
  CaptureConfig, new, push, push_block, is_voice, block_bytes, pre_roll_blocks,
}
use xiaoai_agent.Vad.Chunks.{push-append}
use xiaoai_agent.Vad.Durations.{IsCoherent, LongEnough, full_ms, new-IsCoherent, push-IsCoherent}
use xiaoai_agent.Capture.Paired.{Paired}

-- From -6 to 6 over -2 and 2.
interpolates :
    (interpolated (negsuc 5) (pos 6) 1 ≡ negsuc 1) × (interpolated (negsuc 5) (pos 6) 2 ≡ pos 2)
unfolding interpolated ◌+ℤ◌ ◌*ℤ◌ ◌-ℤ◌
interpolates = (refl, refl)

abbrev quiet_start : List ℤ
quiet_start = pos 0 ∷ pos 9 ∷ []

abbrev loud_end : List ℤ
loud_end = negsuc 5 ∷ pos 32767 ∷ []

quiet_start-AllI16 : AllI16 quiet_start
quiet_start-AllI16 = (omega arith, (omega arith, tt))

loud_end-AllI16 : AllI16 loud_end
loud_end-AllI16 = (omega arith, (omega arith, tt))

chunks-Upsampled_example :
    Upsampled
      (quiet_start ++ loud_end)
      (flush_upsampled_pcm (
        enqueue_upsampled_pcm
          (enqueue_upsampled_pcm ([], none) (bytes_of quiet_start))
          (bytes_of loud_end))).0
chunks-Upsampled_example = chunks-Upsampled quiet_start loud_end quiet_start-AllI16 loud_end-AllI16

-- Numbers in the place of `f64`: the level of a block is the sum of the squares of its samples.
abbrev numbers : Float
numbers = record {
  F = ℕ;
  of_int = λ z. elim z [ pos n ↦ n | negsuc n ↦ n + 1 ];
  of_nat = λ n. n;
  add = λ a b. a + b;
  mul = λ a b. a * b;
  div = λ a b. a;
  sqrt = λ a. a;
  full_scale = 1;
  near_one = λ a. true;
  round_i16 = λ n. pos n;
  at_least = λ a b. leb b a;
}

-- Blocks of 10 ms: ten samples, twenty bytes.
abbrev capture : CaptureConfig numbers
capture = record {
  sample_rate = 1000;
  block_ms = 10;
  pre_roll_ms = 20;
  silence_ms = 20;
  min_speech_ms = 10;
  max_utterance_ms = 1000;
  cooldown_ms = 50;
  threshold = 4;
  mic_gain = 1;
  rate_pos = omega arith;
}

abbrev loud : List ℕ
loud = 2 ∷ 0 ∷ 0 ∷ 0 ∷ 0 ∷ 0 ∷ 0 ∷ 0 ∷ 0 ∷ 0 ∷ 0 ∷ 0 ∷ 0 ∷ 0 ∷ 0 ∷ 0 ∷ 0 ∷ 0 ∷ 0 ∷ 0 ∷ []

push-append_example : push numbers capture 0 (loud ++ loud) new ≡ (
    let (t, events) = push numbers capture 0 loud new in
    let (u, more) = push numbers capture 0 loud t in (u, events ++ more))
push-append_example = push-append numbers capture 0 loud loud new

push-IsCoherent_example :
    let (t, events) = push numbers capture 0 loud new in
    IsCoherent
      (is_voice numbers capture)
      (block_bytes numbers capture)
      (full_ms numbers capture)
      (pre_roll_blocks numbers capture)
      t
    × LongEnough
        (is_voice numbers capture)
        (block_bytes numbers capture)
        (full_ms numbers capture)
        10
        events
push-IsCoherent_example =
    push-IsCoherent numbers capture 0 loud new (new-IsCoherent numbers capture)

-- One loud block starts an utterance.
starts : (push numbers capture 0 loud new).0.in_speech ≡ true
unfolding push new push_block is_voice rms_norm samples apply_gain i16_from_le_bytes
starts = refl
