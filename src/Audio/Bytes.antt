-- ===== src/Audio/Bytes.antt =====
-- Little-endian 16-bit samples. A byte is a number below 256, an `i16` an integer in its range.
use xiaoai_agent.Prelude.{
  ℕ, ◌+◌, ◌-◌, ◌*◌, ◌/◌, ◌%◌, ◌<◌, ◌≡◌, refl, List, [], ◌∷◌, ◌++◌, arith, ltb, if◌then◌else◌,
  length,
}
use xiaoai_agent.Prelude.Int.{ℤ, pos, negsuc}

-- The integer of a 16-bit pattern.
abbrev pub signed16 : ℕ → ℤ
signed16 n = if ltb n 32768 then pos n else negsuc (65535 - n)

-- `as i16`: the low sixteen bits.
abbrev pub bits16 : ℤ → ℕ
bits16 (pos n) = n % 65536
bits16 (negsuc n) = 65535 - n % 65536

unfoldable pub i16_from_le_bytes : ℕ → ℕ → ℤ
i16_from_le_bytes b₀ b₁ = signed16 (b₀ + 256 * b₁)

unfoldable pub i16_to_le_bytes : ℤ → List ℕ
i16_to_le_bytes z = (bits16 z % 256) ∷ (bits16 z / 256) ∷ []

-- An integer in the range of `i16`.
abbrev pub IsI16 : ℤ → Type 0
IsI16 (pos n) = n < 32768
IsI16 (negsuc n) = n < 32768

-- The samples of a byte slice; `chunks_exact(2)` leaves an odd byte out.
unfoldable pub samples : List ℕ → List ℤ
samples (b₀ ∷ b₁ ∷ bytes) = i16_from_le_bytes b₀ b₁ ∷ samples bytes
samples _ = []

unfoldable pub bytes_of : List ℤ → List ℕ
bytes_of [] = []
bytes_of (z ∷ zs) = i16_to_le_bytes z ++ bytes_of zs

pub i16_round_trip : (z : ℤ) → IsI16 z → i16_from_le_bytes (bits16 z % 256) (bits16 z / 256) ≡ z
unfolding i16_from_le_bytes
i16_round_trip (pos n) h = ground arith
i16_round_trip (negsuc n) h = ground arith

abbrev pub AllI16 : List ℤ → Type 0
AllI16 [] = Unit {0}
AllI16 (z ∷ zs) = IsI16 z × AllI16 zs

-- Samples in range come back from their bytes.
pub samples-bytes_of : (zs : List ℤ) → AllI16 zs → samples (bytes_of zs) ≡ zs
unfolding samples bytes_of i16_to_le_bytes
samples-bytes_of [] h = refl
samples-bytes_of (z ∷ zs) h = ground (arith, i16_round_trip z h.0, samples-bytes_of zs h.1)

pub length-bytes_of : (zs : List ℤ) → length (bytes_of zs) ≡ 2 * length zs
unfolding bytes_of i16_to_le_bytes
length-bytes_of [] = omega arith
length-bytes_of (z ∷ zs) = omega (arith, length-bytes_of zs)
