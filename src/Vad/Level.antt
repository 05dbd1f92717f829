-- ===== src/Vad/Level.antt =====
-- The gain and the level of a block: `apply_gain` and `rms_norm` of xiaoai-agent/src/vad.rs, over
-- floating-point operations that are not modelled.
use xiaoai_agent.Prelude.{ℕ, ◌≡◌, refl, Bool, List, [], ◌∷◌, ◌++◌, arith, if◌then◌else◌, length}
use xiaoai_agent.Prelude.Int.{ℤ}
use xiaoai_agent.Audio.Bytes.{i16_from_le_bytes, i16_to_le_bytes, samples}

-- `f64` with what the collector asks of it. `round_i16` rounds, clamps to the range of `i16` and
-- casts; `near_one` is `(gain - 1.0).abs() < f64::EPSILON`.
pub record Float : Type 1 where
  pub F : Type 0
  pub of_int : ℤ → F
  pub of_nat : ℕ → F
  pub add : F → F → F
  pub mul : F → F → F
  pub div : F → F → F
  pub sqrt : F → F
  pub full_scale : F
  pub near_one : F → Bool
  pub round_i16 : F → ℤ
  pub at_least : F → F → Bool

module _ (f : Float) where
  open f use {F, of_int, of_nat, add, mul, div, sqrt, full_scale, near_one, round_i16}

  -- The loop over `chunks_exact_mut(2)`; an odd byte at the end stays.
  scale : F → List ℕ → List ℕ
  scale gain (b₀ ∷ b₁ ∷ bytes) =
      i16_to_le_bytes (round_i16 (mul (of_int (i16_from_le_bytes b₀ b₁)) gain)) ++ scale gain bytes
  scale gain bytes = bytes

  unfoldable pub apply_gain : F → List ℕ → List ℕ
  unfolding scale
  apply_gain gain block = if near_one gain then block else scale gain block

  -- The sum runs from the left, since floating-point addition is not associative.
  sum_squares : F → List ℤ → F
  sum_squares acc [] = acc
  sum_squares acc (z ∷ zs) = sum_squares (add acc (mul (of_int z) (of_int z))) zs

  mean_root : List ℤ → F
  mean_root [] = of_nat 0
  mean_root (z ∷ zs) =
      div (sqrt (div (sum_squares (of_nat 0) (z ∷ zs)) (of_nat (length (z ∷ zs))))) full_scale

  unfoldable pub rms_norm : List ℕ → F
  unfolding mean_root sum_squares
  rms_norm block = mean_root (samples block)

  -- The gain keeps the number of bytes, whatever the floating-point operations do.
  length-scale : (gain : F) (block : List ℕ) → length (scale gain block) ≡ length block
  unfolding scale i16_to_le_bytes
  length-scale gain [] = refl
  length-scale gain (b ∷ []) = refl
  length-scale gain (b₀ ∷ b₁ ∷ bytes) = omega (arith, length-scale gain bytes)

  pub length-apply_gain :
      (gain : F) (block : List ℕ) → length (apply_gain gain block) ≡ length block
  unfolding apply_gain
  length-apply_gain gain block = ground (arith, length-scale gain block)
