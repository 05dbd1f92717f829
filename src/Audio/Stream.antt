-- ===== src/Audio/Stream.antt =====
-- A stream of samples through `enqueue_upsampled_pcm` and `flush_upsampled_pcm` of
-- xiaoai-agent/src/qwen_voice/webrtc_session.rs, in chunks.
use mathlib.Core.List.{append_assoc}
use xiaoai_agent.Prelude.{
  ℕ, suc, ◌*◌, ◌/◌, ◌≡◌, refl, ap, ◌∙◌, sym, inl, inr, List, [], ◌∷◌, ◌++◌, Option, none, some,
  arith, length,
}
use xiaoai_agent.Prelude.Int.{
  ℤ, pos, negsuc, pos_part, neg_part, sub_ℕ, ◌+ℤ◌, ◌-ℤ◌, ◌*ℤ◌, ◌≤ℤ◌, int_laws,
}
use xiaoai_agent.Audio.Bytes.{
  i16_to_le_bytes, IsI16, AllI16, bytes_of, i16_round_trip, length-bytes_of,
}
use xiaoai_agent.Audio.Upsample.{
  div_i32, Between, blend, interpolated, upsample_one, enqueue_upsampled_pcm, flush_upsampled_pcm,
  enqueue-append, blend-Between, as_i16-inside,
}

-- Two integers that differ by at most 2.
abbrev pub Close : ℤ → ℤ → Type 0
Close a b = (a ≤ℤ b +ℤ pos 2) × (b ≤ℤ a +ℤ pos 2)

-- The two samples at the thirds of the way from `x` to `y`, in order and less than one step off.
abbrev pub Thirds : ℤ → ℤ → ℤ → ℤ → Type 0
Thirds x y b c =
    Between x y b
    × Between b y c
    × Close (b +ℤ b +ℤ b) (x +ℤ x +ℤ y)
    × Close (c +ℤ c +ℤ c) (x +ℤ y +ℤ y)

-- What a stream of samples becomes at three times the rate: each sample and the two thirds of the
-- way to the next, and the last one three times.
pub data Upsampled : List ℤ → List ℤ → Type 0 where
  no_samples : Upsampled [] []
  last_sample : (x : ℤ) → Upsampled (x ∷ []) (x ∷ x ∷ x ∷ [])
  next_sample :
      (x y b c : ℤ) (xs out : List ℤ)
      → Thirds x y b c
      → Upsampled (y ∷ xs) out
      → Upsampled (x ∷ y ∷ xs) (x ∷ b ∷ c ∷ out)

-- Once or twice a third of a difference, towards zero, by its sign.
div-pos :
    (n : ℕ)
    → (div_i32 (pos n *ℤ pos 1) 3 ≡ pos (n / 3)) × (div_i32 (pos n *ℤ pos 2) 3 ≡ pos (n * 2 / 3))
unfolding ◌*ℤ◌
div-pos n = (ground arith, ground arith)

div-negsuc :
    (n : ℕ)
    → (div_i32 (negsuc n *ℤ pos 1) 3 ≡ sub_ℕ 0 (suc n / 3))
      × (div_i32 (negsuc n *ℤ pos 2) 3 ≡ sub_ℕ 0 (suc n * 2 / 3))
unfolding ◌*ℤ◌
div-negsuc n = (ground arith, ground arith)

sub_zero : (n : ℕ) → (pos_part (sub_ℕ 0 n) ≡ 0) × (neg_part (sub_ℕ 0 n) ≡ n)
sub_zero n = (ground arith, ground arith)

abbrev DivThirds : ℤ → ℤ → ℤ → Type 0
DivThirds d b c = Between b d c × Close (b +ℤ b +ℤ b) d × Close (c +ℤ c +ℤ c) (d +ℤ d)

div-Thirds : (d : ℤ) → DivThirds d (div_i32 (d *ℤ pos 1) 3) (div_i32 (d *ℤ pos 2) 3)
div-Thirds (pos n) =
    let (e, g) = div-pos n in
    rw (e, g)
      (
        inl (omega int_laws, omega int_laws),
        (omega int_laws, omega int_laws),
        (omega int_laws, omega int_laws),
      )
div-Thirds (negsuc n) =
    let (e, g) = div-negsuc n in
    let (z, p) = sub_zero (suc n / 3) in
    let (z', p') = sub_zero (suc n * 2 / 3) in
    rw (e, g)
      (
        inr (omega int_laws, omega int_laws),
        (omega int_laws, omega int_laws),
        (omega int_laws, omega int_laws),
      )

-- The cast to `i16` loses nothing between two samples.
interpolated-blend :
    (x y : ℤ)
    → IsI16 x
    → IsI16 y
    → (interpolated x y 1 ≡ blend x y 1) × (interpolated x y 2 ≡ blend x y 2)
unfolding interpolated
interpolated-blend x y hx hy =
    let (h₀, h₁, h₂) = blend-Between x y in
    (as_i16-inside x y _ hx hy h₁, as_i16-inside x y _ hx hy h₂)

blend-zero : (x y : ℤ) → blend x y 0 ≡ x
unfolding blend ◌*ℤ◌ ◌+ℤ◌
blend-zero x y = ground arith

add-Thirds :
    (x y b c : ℤ) → Between x y (x +ℤ b) → DivThirds (y -ℤ x) b c → Thirds x y (x +ℤ b) (x +ℤ c)
add-Thirds x y b c h (inl g, (l₁, m₁), (l₂, m₂)) = (
  h,
  inl (omega int_laws, omega int_laws),
  (omega int_laws, omega int_laws),
  (omega int_laws, omega int_laws),
)
add-Thirds x y b c h (inr g, (l₁, m₁), (l₂, m₂)) = (
  h,
  inr (omega int_laws, omega int_laws),
  (omega int_laws, omega int_laws),
  (omega int_laws, omega int_laws),
)

blend-Thirds : (x y : ℤ) → Thirds x y (blend x y 1) (blend x y 2)
unfolding blend
blend-Thirds x y =
    let (h₀, h₁, h₂) = blend-Between x y in add-Thirds x y _ _ h₁ (div-Thirds (y -ℤ x))

interpolated-Thirds :
    (x y : ℤ) → IsI16 x → IsI16 y → Thirds x y (interpolated x y 1) (interpolated x y 2)
interpolated-Thirds x y hx hy =
    let (e₁, e₂) = interpolated-blend x y hx hy in rw (e₁, e₂) (blend-Thirds x y)

interpolated-first : (x y : ℤ) → IsI16 x → IsI16 y → interpolated x y 0 ≡ x
unfolding interpolated
interpolated-first x y hx hy =
    let (h₀, h₁, h₂) = blend-Between x y in as_i16-inside x y _ hx hy h₀ ∙ blend-zero x y

enqueue-byte_pair :
    (z : ℤ) (bytes : List ℕ) (output : List ℤ) (previous : Option ℤ)
    → IsI16 z
    → enqueue_upsampled_pcm (output, previous) (i16_to_le_bytes z ++ bytes)
      ≡ enqueue_upsampled_pcm (output ++ upsample_one previous z, some z) bytes
unfolding enqueue_upsampled_pcm i16_to_le_bytes
enqueue-byte_pair z bytes output previous h =
    ap (λ w. enqueue_upsampled_pcm (output ++ upsample_one previous w, some w) bytes)
      (i16_round_trip z h)

-- Behind the sample `x` the rest of a stream adds what it is to become.
stream-behind :
    (x : ℤ) (zs output : List ℤ)
    → IsI16 x
    → AllI16 zs
    → (out : List ℤ) × ((flush_upsampled_pcm
          (enqueue_upsampled_pcm (output, some x) (bytes_of zs))).0
        ≡ output ++ out)
      × Upsampled (x ∷ zs) out
unfolding bytes_of enqueue_upsampled_pcm flush_upsampled_pcm upsample_one
stream-behind x [] output hx h = (x ∷ x ∷ x ∷ [], refl, last_sample x)
stream-behind x (z ∷ zs) output hx h =
    let b = interpolated x z 1 in
    let c = interpolated x z 2 in
    let (out, e, u) = stream-behind z zs (output ++ upsample_one (some x) z) h.0 h.1 in
    (
      x ∷ b ∷ c ∷ out,
      ap (λ state. (flush_upsampled_pcm state).0)
            (enqueue-byte_pair z (bytes_of zs) output (some x) h.0)
          ∙ e
          ∙ append_assoc output _ out
          ∙ ap (λ w. output ++ (w ∷ b ∷ c ∷ out)) (interpolated-first x z hx h.0),
      next_sample x z b c zs out (interpolated-Thirds x z hx h.0) u,
    )

stream-Upsampled :
    (zs : List ℤ)
    → AllI16 zs
    → Upsampled zs (flush_upsampled_pcm (enqueue_upsampled_pcm ([], none) (bytes_of zs))).0
unfolding bytes_of enqueue_upsampled_pcm flush_upsampled_pcm upsample_one
stream-Upsampled [] h = no_samples
stream-Upsampled (z ∷ zs) h =
    let (out, e, u) = stream-behind z zs [] h.0 h.1 in
    rw (enqueue-byte_pair z (bytes_of zs) [] none h.0, e) u

AllI16-append : (xs ys : List ℤ) → AllI16 xs → AllI16 ys → AllI16 (xs ++ ys)
AllI16-append [] ys h k = k
AllI16-append (x ∷ xs) ys h k = (h.0, AllI16-append xs ys h.1 k)

bytes_of-append : (xs ys : List ℤ) → bytes_of (xs ++ ys) ≡ bytes_of xs ++ bytes_of ys
unfolding bytes_of
bytes_of-append [] ys = refl
bytes_of-append (x ∷ xs) ys =
    ap (i16_to_le_bytes x ++◌) (bytes_of-append xs ys)
    ∙ sym (append_assoc (i16_to_le_bytes x) (bytes_of xs) (bytes_of ys))

-- A fresh stream of 16-bit samples that comes in two chunks of whole samples, and is flushed at its end,
-- leaves each sample followed by the two thirds of the way to the next, in order and less than one
-- step off, and the last sample three times, wherever it was cut.
pub chunks-Upsampled :
    (xs ys : List ℤ)
    → AllI16 xs
    → AllI16 ys
    → Upsampled
        (xs ++ ys)
        (flush_upsampled_pcm
          (enqueue_upsampled_pcm (enqueue_upsampled_pcm ([], none) (bytes_of xs)) (bytes_of ys))).0
chunks-Upsampled xs ys h k =
    rw
      (
        sym (
            enqueue-append (bytes_of xs) (bytes_of ys) (length xs) ([], none) (length-bytes_of xs)),
        sym (bytes_of-append xs ys),
      )
      (stream-Upsampled (xs ++ ys) (AllI16-append xs ys h k))
