-- ===== src/Audio/Upsample.antt =====
-- The conversion of 16 kHz microphone samples to 48 kHz in
-- xiaoai-agent/src/qwen_voice/webrtc_session.rs: `enqueue_upsampled_pcm`, `flush_upsampled_pcm`,
-- `trim_stale_input` and the frame that a tick of `run_opus_encoder` takes.
use xiaoai_agent.Prelude.{
  ℕ, suc, ◌+◌, ◌-◌, ◌*◌, ◌/◌, ◌≤◌, ◌≡◌, ◌⊎◌, inl, inr, refl, List, [], ◌∷◌, ◌++◌, Option, none,
  some, arith, length, take, drop, length-append, length-drop, length-take, replicate,
  length-replicate,
}
use xiaoai_agent.Prelude.Int.{
  ℤ, pos, negsuc, pos_part, neg_part, sub_ℕ, ◌+ℤ◌, ◌-ℤ◌, ◌*ℤ◌, ◌≤ℤ◌, int_laws,
}
use xiaoai_agent.Audio.Bytes.{i16_from_le_bytes, signed16, bits16, IsI16}

-- `/` of `i32` by a positive number: towards zero.
abbrev pub div_i32 : ℤ → ℕ → ℤ
div_i32 a k = sub_ℕ (pos_part a / k) (neg_part a / k)

-- `as i16`
abbrev pub as_i16 : ℤ → ℤ
as_i16 z = signed16 (bits16 z)

abbrev pub factor : ℕ
factor = 3

-- `prior + delta * phase / OPUS_UPSAMPLE_FACTOR` in `i32`, where it fits.
unfoldable pub blend : ℤ → ℤ → ℕ → ℤ
blend prior current phase = prior +ℤ div_i32 ((current -ℤ prior) *ℤ pos phase) factor

unfoldable pub interpolated : ℤ → ℤ → ℕ → ℤ
unfolding blend
interpolated prior current phase = as_i16 (blend prior current phase)

-- The body for one sample: what is pushed, given the sample before.
unfoldable pub upsample_one : Option ℤ → ℤ → List ℤ
unfolding interpolated
upsample_one none current = []
upsample_one (some prior) current =
    interpolated prior current 0 ∷ interpolated prior current 1 ∷ interpolated prior current 2 ∷ []

-- The output queue with its newest sample last, and the sample before.
unfoldable pub enqueue_upsampled_pcm : List ℤ × Option ℤ → List ℕ → List ℤ × Option ℤ
unfolding upsample_one i16_from_le_bytes
enqueue_upsampled_pcm (output, previous) (b₀ ∷ b₁ ∷ bytes) =
    let current = i16_from_le_bytes b₀ b₁ in
    enqueue_upsampled_pcm (output ++ upsample_one previous current, some current) bytes
enqueue_upsampled_pcm state bytes = state

unfoldable pub flush_upsampled_pcm : List ℤ × Option ℤ → List ℤ × Option ℤ
flush_upsampled_pcm (output, none) = (output, none)
flush_upsampled_pcm (output, some last) = (output ++ replicate factor last, none)

abbrev pub max_buffered : ℕ
max_buffered = 9600

unfoldable pub trim_stale_input : List ℤ → List ℤ × ℕ
trim_stale_input samples = let stale = length samples - max_buffered in (drop stale samples, stale)

abbrev pub frame_samples : ℕ
frame_samples = 960

-- The frame of a tick, silent where samples are missing, and the samples left.
unfoldable pub take_frame : List ℤ → List ℤ × List ℤ
take_frame samples = (
  take frame_samples samples ++ replicate (frame_samples - length samples) (pos 0),
  drop frame_samples samples,
)

abbrev pub Between : ℤ → ℤ → ℤ → Type 0
Between a b v = ((a ≤ℤ v) × (v ≤ℤ b)) ⊎ ((b ≤ℤ v) × (v ≤ℤ a))

-- A third of a difference, once or twice, has its sign and is not larger.
thirds :
    (d : ℤ)
    → Between (pos 0) d (div_i32 (d *ℤ pos 0) 3)
      × Between (pos 0) d (div_i32 (d *ℤ pos 1) 3)
      × Between (pos 0) d (div_i32 (d *ℤ pos 2) 3)
unfolding ◌*ℤ◌
thirds (pos n) = ground arith
thirds (negsuc n) = ground arith

add-Between : (a b v : ℤ) → Between (pos 0) (b -ℤ a) v → Between a b (a +ℤ v)
add-Between a b v (inl h) = inl (omega int_laws, omega int_laws)
add-Between a b v (inr h) = inr (omega int_laws, omega int_laws)

pub blend-Between :
    (prior current : ℤ)
    → Between prior current (blend prior current 0)
      × Between prior current (blend prior current 1)
      × Between prior current (blend prior current 2)
unfolding blend
blend-Between prior current =
    let (h₀, h₁, h₂) = thirds (current -ℤ prior) in
    (add-Between prior current _ h₀, add-Between prior current _ h₁, add-Between prior current _ h₂)

pub as_i16-inside : (a b v : ℤ) → IsI16 a → IsI16 b → Between a b v → as_i16 v ≡ v
as_i16-inside (pos a) (pos b) (pos n) ha hb h = ground arith
as_i16-inside (pos a) (negsuc b) (pos n) ha hb h = ground arith
as_i16-inside (negsuc a) (pos b) (pos n) ha hb h = ground arith
as_i16-inside (negsuc a) (negsuc b) (pos n) ha hb h = ground arith
as_i16-inside (pos a) (pos b) (negsuc n) ha hb h = ground arith
as_i16-inside (pos a) (negsuc b) (negsuc n) ha hb h = ground arith
as_i16-inside (negsuc a) (pos b) (negsuc n) ha hb h = ground arith
as_i16-inside (negsuc a) (negsuc b) (negsuc n) ha hb h = ground arith

-- Between two samples of the microphone, the cast of the source loses nothing and the three samples
-- pushed lie between the two, so that the conversion never overshoots.
interpolated-Between :
    (prior current : ℤ)
    → IsI16 prior
    → IsI16 current
    → Between prior current (interpolated prior current 0)
      × Between prior current (interpolated prior current 1)
      × Between prior current (interpolated prior current 2)
unfolding interpolated
interpolated-Between prior current hp hc =
    let (h₀, h₁, h₂) = blend-Between prior current in
    (
      rw (as_i16-inside prior current _ hp hc h₀) h₀,
      rw (as_i16-inside prior current _ hp hc h₁) h₁,
      rw (as_i16-inside prior current _ hp hc h₂) h₂,
    )

-- A frame always has its 960 samples, and frame and rest hold what was buffered, padded with silence.
pub take_frame-length :
    (samples : List ℤ)
    → (length (take_frame samples).0 ≡ frame_samples)
      × (length (take_frame samples).1 ≡ length samples - frame_samples)
unfolding take_frame
take_frame-length samples =
    let k = frame_samples in
    let gap = replicate (k - length samples) (pos 0) in
    (
      omega (
        arith,
        length-append (take k samples) gap,
        length-take k samples,
        length-replicate (k - length samples) (pos 0),
      ),
      length-drop k samples,
    )

-- After the trim at most 9600 samples wait, 200 ms; it drops from the front and counts what it drops.
pub trim_stale_input-bound :
    (samples : List ℤ)
    → let (kept, dropped) = trim_stale_input samples in
      (length kept ≤ max_buffered)
      × (dropped + length kept ≡ length samples)
      × (kept ≡ drop dropped samples)
unfolding trim_stale_input
trim_stale_input-bound samples =
    let size = length-drop (length samples - max_buffered) samples in
    (omega (arith, size), omega (arith, size), refl)

-- Frames may be cut anywhere between samples: enqueuing one chunk of whole samples and then another is
-- enqueuing both at once.
pub enqueue-append :
    (pcm more : List ℕ) (n : ℕ) (state : List ℤ × Option ℤ)
    → length pcm ≡ 2 * n
    → enqueue_upsampled_pcm state (pcm ++ more)
      ≡ enqueue_upsampled_pcm (enqueue_upsampled_pcm state pcm) more
unfolding enqueue_upsampled_pcm
enqueue-append [] more n (output, previous) e = refl
enqueue-append (b ∷ []) more n (output, previous) e = ground arith
enqueue-append (b₀ ∷ b₁ ∷ pcm) more n (output, previous) e =
    enqueue-append pcm more (n - 1) _ (omega (arith, e))

-- After the first sample each one adds three, and there always is a sample before.
enqueue-length :
    (pcm : List ℕ) (n : ℕ) (output : List ℤ) (prior : ℤ)
    → length pcm ≡ 2 * n
    → let (out, previous) = enqueue_upsampled_pcm (output, some prior) pcm in
      (length out ≡ length output + 3 * n) × ((last : ℤ) × (previous ≡ some last))
unfolding enqueue_upsampled_pcm upsample_one
enqueue-length [] n output prior e = (omega (arith, e), (prior, refl))
enqueue-length (b ∷ []) n output prior e = ground arith
enqueue-length (b₀ ∷ b₁ ∷ pcm) n output prior e =
    let current = i16_from_le_bytes b₀ b₁ in
    let new = upsample_one (some prior) current in
    let (h, (last, g)) = enqueue-length pcm (n - 1) (output ++ new) current (omega (arith, e)) in
    (omega (arith, h, e, length-append output new), (last, g))

flush-length :
    (out : List ℤ) (previous : Option ℤ) (last : ℤ)
    → previous ≡ some last
    → length (flush_upsampled_pcm (out, previous)).0 ≡ length out + 3
unfolding flush_upsampled_pcm
flush-length out none last e = ground arith
flush-length out (some prior) last e = omega (arith, length-append out (replicate factor prior))

-- A stream of `n + 1` samples from a fresh start, and the flush at its end, leave exactly `3 * (n + 1)`
-- samples.
pub flush-enqueue-length :
    (b₀ b₁ : ℕ) (pcm : List ℕ) (n : ℕ)
    → length pcm ≡ 2 * n
    → length (flush_upsampled_pcm (enqueue_upsampled_pcm ([], none) (b₀ ∷ b₁ ∷ pcm))).0 ≡ 3 * suc n
unfolding enqueue_upsampled_pcm flush_upsampled_pcm
flush-enqueue-length b₀ b₁ pcm n e =
    let (h, (last, g)) = enqueue-length pcm n [] (i16_from_le_bytes b₀ b₁) e in
    omega (
      arith,
      h,
      flush-length (enqueue_upsampled_pcm ([], some (i16_from_le_bytes b₀ b₁)) pcm).0
          (enqueue_upsampled_pcm ([], some (i16_from_le_bytes b₀ b₁)) pcm).1 last g,
    )
