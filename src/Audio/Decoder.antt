-- ===== src/Audio/Decoder.antt =====
-- The decisions of `run_opus_decoder` and the mixing of `queue_decoded_pcm` in
-- xiaoai-agent/src/qwen_voice/webrtc_session.rs. The decoder itself is not modelled: what a packet
-- decodes to is a list of samples.
use xiaoai_agent.Prelude.{
  ℕ, ◌+◌, ◌-◌, ◌%◌, ◌≤◌, ◌<◌, ◌≡◌, ◌⊎◌, ◌||◌, List, [], ◌∷◌, Option, none, some, arith, min,
  if◌then◌else◌, leb, ◌==◌,
}
use xiaoai_agent.Prelude.Int.{ℤ, pos, negsuc, ◌+ℤ◌}
use xiaoai_agent.Audio.Bytes.{IsI16}
use xiaoai_agent.Audio.Upsample.{div_i32, as_i16}

-- What the loop does with a packet: skip it, or conceal some lost ones and decode it.
pub data PacketStep : Type 0 where
  skip : PacketStep
  decode : ℕ → PacketStep

-- `wrapping_sub` of `u16`
abbrev pub wrapping_sub : ℕ → ℕ → ℕ
wrapping_sub a b = (a + 65536 - b) % 65536

unfoldable pub on_packet : Option ℕ → ℕ → PacketStep
on_packet none sequence = decode 0
on_packet (some previous) sequence =
    let delta = wrapping_sub sequence previous in
    if (delta == 0) || leb 32768 delta then skip else decode (min (delta - 1) 3)

ahead :
    (previous lost : ℕ)
    → previous < 65536
    → lost < 32767
    → wrapping_sub ((previous + 1 + lost) % 65536) previous ≡ lost + 1
ahead previous lost hp hl = omega arith

behind :
    (previous back : ℕ)
    → previous < 65536
    → back < 32769
    → (wrapping_sub ((previous + 65536 - back) % 65536) previous ≡ 0)
      ⊎ (32768 ≤ wrapping_sub ((previous + 65536 - back) % 65536) previous)
behind previous back hp hb = omega arith

-- With `lost` packets missing, fewer than half of the sequence space, the next one is decoded and
-- exactly the missing ones, three at most, are concealed; a packet that the stream has passed by less
-- than half of the space, the last one included, is skipped. Both hold across the wrap of the counter.
on_packet-order :
    (previous lost back : ℕ)
    → previous < 65536
    → lost < 32767
    → back < 32769
    → (on_packet (some previous) ((previous + 1 + lost) % 65536) ≡ decode (min lost 3))
      × (on_packet (some previous) ((previous + 65536 - back) % 65536) ≡ skip)
unfolding on_packet
on_packet-order previous lost back hp hl hb =
    (ground (arith, ahead previous lost hp hl), ground (arith, behind previous back hp hb))

-- The average of the two channels of a frame; one channel is copied.
unfoldable pub mixed : ℤ → ℤ → ℤ
unfolding ◌+ℤ◌
mixed left right = as_i16 (div_i32 (left +ℤ right) 2)

unfoldable pub mix : List ℤ → List ℤ
unfolding mixed
mix (left ∷ right ∷ frames) = mixed left right ∷ mix frames
mix _ = []

-- The average of two samples is a sample: the cast to `i16` loses nothing.
pub mixed-exact :
    (left right : ℤ) → IsI16 left → IsI16 right → mixed left right ≡ div_i32 (left +ℤ right) 2
unfolding mixed ◌+ℤ◌
mixed-exact (pos l) (pos r) hl hr = ground arith
mixed-exact (pos l) (negsuc r) hl hr = ground arith
mixed-exact (negsuc l) (pos r) hl hr = ground arith
mixed-exact (negsuc l) (negsuc r) hl hr = ground arith
