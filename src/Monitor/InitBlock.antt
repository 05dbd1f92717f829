-- ===== src/Monitor/InitBlock.antt =====
-- The block of settings that `run_vpm_monitor` in xiaoai-agent/src/monitor/kws.rs hands to `vpm_init`.
-- Numbers are stored with the low byte first, as on the ARM target.
use xiaoai_agent.Prelude.{
  ℕ, ◌+◌, ◌/◌, ◌%◌, ◌≤◌, ◌<◌, ◌≡◌, refl, sym, ap, ◌∙◌, ◌⊎◌, inl, List, [], ◌∷◌, Option, none, some,
  arith, if◌then◌else◌, leb, length, set, get_elem?, length-set, get_elem?-set_self,
  get_elem?-set_ne, replicate, length-replicate, subst,
}
use xiaoai_agent.Monitor.Vpm.{RuntimeConfig, sample_format_code, ◌>>=◌}

-- `to_ne_bytes`
abbrev pub u32_bytes : ℕ → List ℕ
u32_bytes v = v % 256 ∷ v / 256 % 256 ∷ v / 65536 % 256 ∷ v / 16777216 % 256 ∷ []

-- `copy_from_slice` at an offset.
abbrev pub copy : List ℕ → ℕ → List ℕ → List ℕ
copy buf offset [] = buf
copy buf offset (b ∷ bytes) = copy (set buf offset b) (offset + 1) bytes

unfoldable pub write_u32 : ℕ → ℕ → List ℕ → Option (List ℕ)
write_u32 offset value buf =
    if leb (offset + 4) (length buf) then some (copy buf offset (u32_bytes value)) else none

-- Writes one after the other, each with `?`.
unfoldable pub write_all : List (ℕ × ℕ) → List ℕ → Option (List ℕ)
unfolding write_u32
write_all [] buf = some buf
write_all ((offset, value) ∷ writes) buf = write_u32 offset value buf >>= write_all writes

-- The addresses that the source passes to `write_ptr`, each below 2^32 on the 32-bit target, and the
-- bits of the score 0.3.
pub record Addresses : Type 0 where
  pub config_path : ℕ
  pub log_callback : ℕ
  pub event_callback : ℕ
  pub wakeup_data_callback : ℕ
  pub asr_data_callback : ℕ
  pub voip_data_callback : ℕ
  pub stat_callback : ℕ
  pub target_score_bits : ℕ

unfoldable pub init_writes : Addresses → RuntimeConfig → ℕ → List (ℕ × ℕ)
init_writes a c format =
    (388, a.config_path)
    ∷ (392, 1448103248)
    ∷ (396, a.log_callback)
    ∷ (400, a.event_callback)
    ∷ (404, a.wakeup_data_callback)
    ∷ (408, a.asr_data_callback)
    ∷ (412, a.voip_data_callback)
    ∷ (424, a.stat_callback)
    ∷ (316, c.kws_sample_rate)
    ∷ (320, c.kws_channels)
    ∷ (324, c.kws_frame_ms)
    ∷ (328, format)
    ∷ (332, 16000)
    ∷ (336, 1)
    ∷ (344, 0)
    ∷ (348, c.kws_ref_channel_index)
    ∷ (352, 600)
    ∷ (356, 600)
    ∷ (360, 6000)
    ∷ (364, 400)
    ∷ (368, 1)
    ∷ (372, 1)
    ∷ (376, 1)
    ∷ (380, a.target_score_bits)
    ∷ (384, 1)
    ∷ []

abbrev pub init_size : ℕ
init_size = 432

unfoldable pub init_block : Addresses → RuntimeConfig → Option (List ℕ)
unfolding init_writes write_all
init_block a c = sample_format_code c.kws_bits_per_sample >>= λ format.
    write_all (init_writes a c format) (replicate init_size 0)

-- The bytes stand in the buffer at the offset.
abbrev pub Holds : List ℕ → ℕ → List ℕ → Type 0
Holds buf offset [] = Unit {0}
Holds buf offset (b ∷ bytes) = (get_elem? buf offset ≡ some b) × Holds buf (offset + 1) bytes

length-copy :
    (buf : List ℕ) (offset : ℕ) (bytes : List ℕ) → length (copy buf offset bytes) ≡ length buf
length-copy buf offset [] = refl
length-copy buf offset (b ∷ bytes) =
    length-copy (set buf offset b) (offset + 1) bytes ∙ length-set buf offset b

copy-other :
    (buf : List ℕ) (offset : ℕ) (bytes : List ℕ) (i : ℕ)
    → (i < offset) ⊎ (offset + length bytes ≤ i)
    → get_elem? (copy buf offset bytes) i ≡ get_elem? buf i
copy-other buf offset [] i h = refl
copy-other buf offset (b ∷ bytes) i h =
    copy-other (set buf offset b) (offset + 1) bytes i (omega (arith, h))
    ∙ get_elem?-set_ne buf b (omega (arith, h))

copy-Holds :
    (buf : List ℕ) (offset : ℕ) (bytes : List ℕ)
    → offset + length bytes ≤ length buf
    → Holds (copy buf offset bytes) offset bytes
copy-Holds buf offset [] le = tt
copy-Holds buf offset (b ∷ bytes) le = (
  copy-other (set buf offset b) (offset + 1) bytes offset (inl (omega arith))
      ∙ get_elem?-set_self buf offset b (omega (arith, le)),
  copy-Holds (set buf offset b) (offset + 1) bytes (omega (arith, le, length-set buf offset b)),
)

Holds-copy :
    (buf : List ℕ) (offset : ℕ) (bytes : List ℕ) (at : ℕ) (others : List ℕ)
    → (offset + length bytes ≤ at) ⊎ (at + length others ≤ offset)
    → Holds buf offset bytes
    → Holds (copy buf at others) offset bytes
Holds-copy buf offset [] at others h k = tt
Holds-copy buf offset (b ∷ bytes) at others h k = (
  copy-other buf at others offset (omega (arith, h)) ∙ k.0,
  Holds-copy buf (offset + 1) bytes at others (omega (arith, h)) k.1,
)

-- A field of four bytes overlaps none of the writes.
abbrev pub Apart : ℕ → List (ℕ × ℕ) → Type 0
Apart offset [] = Unit {0}
Apart offset (w ∷ writes) = ((offset + 4 ≤ w.0) ⊎ (w.0 + 4 ≤ offset)) × Apart offset writes

abbrev pub Disjoint : List (ℕ × ℕ) → Type 0
Disjoint [] = Unit {0}
Disjoint (w ∷ writes) = Apart w.0 writes × Disjoint writes

abbrev pub Inside : ℕ → List (ℕ × ℕ) → Type 0
Inside size [] = Unit {0}
Inside size (w ∷ writes) = (w.0 + 4 ≤ size) × Inside size writes

abbrev pub Written : List ℕ → List (ℕ × ℕ) → Type 0
Written buf [] = Unit {0}
Written buf (w ∷ writes) = Holds buf w.0 (u32_bytes w.1) × Written buf writes

write_u32-inside :
    (offset value : ℕ) (buf : List ℕ)
    → offset + 4 ≤ length buf
    → write_u32 offset value buf ≡ some (copy buf offset (u32_bytes value))
unfolding write_u32
write_u32-inside offset value buf le = ground arith

-- Writes inside a buffer that do not overlap all succeed, keep its length, and each of them is there in
-- the end; so is a field that was there before and overlaps none of them.
record IsDone (writes : List (ℕ × ℕ)) (buf : List ℕ) (out : List ℕ) : Type 0 where
  done : write_all writes buf ≡ some out
  size : length out ≡ length buf
  written : Written out writes
  kept :
      (offset value : ℕ)
      → Apart offset writes
      → Holds buf offset (u32_bytes value)
      → Holds out offset (u32_bytes value)

write_all-IsDone :
    (writes : List (ℕ × ℕ)) (buf : List ℕ)
    → Inside (length buf) writes
    → Disjoint writes
    → (out : List ℕ) × IsDone writes buf out
unfolding write_all
write_all-IsDone [] buf h d =
    (buf, record { done = refl; size = refl; written = tt; kept = λ o v a k. k })
write_all-IsDone ((offset, value) ∷ writes) buf h d =
    let b = copy buf offset (u32_bytes value) in
    let same = length-copy buf offset (u32_bytes value) in
    let (out, rest) = write_all-IsDone writes b (subst (λ n. Inside n writes) (sym same) h.1) d.1 in
    (
      out,
      record {
        done = ap (λ o. o >>= write_all writes) (write_u32-inside offset value buf h.0) ∙ rest.done;
        size = rest.size ∙ same;
        written = (
          rest.kept offset value d.0 (copy-Holds buf offset (u32_bytes value) h.0),
          rest.written,
        );
        kept = λ o v a k.
            rest.kept o v a.1 (Holds-copy buf o (u32_bytes v) offset (u32_bytes value) a.0 k);
      },
    )

init-Inside :
    (a : Addresses) (c : RuntimeConfig) (format : ℕ) → Inside init_size (init_writes a c format)
unfolding init_writes
init-Inside a c format = omega arith

init-Disjoint : (a : Addresses) (c : RuntimeConfig) (format : ℕ) → Disjoint (init_writes a c format)
unfolding init_writes
init-Disjoint a c format = omega arith

-- With a sample width that has a code, the block is built: it has its 432 bytes, and every one of the
-- 25 settings stands at its offset, none of them overwritten by another.
init_block-Written :
    (a : Addresses) (c : RuntimeConfig) (format : ℕ)
    → sample_format_code c.kws_bits_per_sample ≡ some format
    → (out : List ℕ) × (init_block a c ≡ some out)
      × (length out ≡ init_size)
      × Written out (init_writes a c format)
unfolding init_block
init_block-Written a c format e =
    let size = length-replicate {A = ℕ} init_size 0 in
    let (out, h) =
      write_all-IsDone (init_writes a c format) (replicate init_size 0)
        (subst (λ n. Inside n (init_writes a c format)) (sym size) (init-Inside a c format))
        (init-Disjoint a c format) in
    (
      out,
      ap (λ o. o >>= λ format. write_all (init_writes a c format) (replicate init_size 0)) e
          ∙ h.done,
      h.size ∙ size,
      h.written,
    )
