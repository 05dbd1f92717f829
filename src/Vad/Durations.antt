-- ===== src/Vad/Durations.antt =====
-- The length of the utterances that `SpeechCollector` in xiaoai-agent/src/vad.rs hands on, and the
-- bound on its pre-roll.
use xiaoai_agent.Prelude.{
  ℕ, zero, suc, ◌+◌, ◌-◌, ◌*◌, ◌/◌, ◌≤◌, ◌<◌, ◌≡◌, refl, sym, ap, ◌∙◌, subst, Bool, true, false,
  List, [], ◌∷◌, ◌++◌, Option, none, some, arith, length, take, drop, length-append, length-drop,
  length-take, Bool-cases, inl, inr, leb→le, ltb, if◌then◌else◌, ◌&&◌, not,
}
use mathlib.Core.List.{append-nil, append_assoc}
use mathlib.Core.Path.{ap₂}
use native.Mathlib.Nat.{mul_comm, mul_assoc, mul-le-mul_left, mul-one, zero-mul, suc-mul, add-mul}
use xiaoai_agent.Vad.Level.{Float, apply_gain, length-apply_gain}
use xiaoai_agent.Vad.Chunks.{with_pending, full, first_block, push-induction}
use xiaoai_agent.Vad.Collector.{
  CaptureConfig, Collector, SpeechEvent, speech_start, speech_rejected, utterance_event, new,
  block_bytes, pre_roll_blocks, push, push_block, emit, listen, follow, complete,
  reset_after_utterance, duration, bytes_per_sample, concat, keep_last, spoken, is_voice, cooling,
}

-- Every block of a list has `n` bytes.
abbrev pub AllOfLength : ℕ → List (List ℕ) → Type 0
AllOfLength n [] = Unit
AllOfLength n (b ∷ bs) = (length b ≡ n) × AllOfLength n bs

AllOfLength-append :
    (n : ℕ) (bs : List (List ℕ)) (b : List ℕ)
    → AllOfLength n bs
    → length b ≡ n
    → AllOfLength n (bs ++ b ∷ [])
AllOfLength-append n [] b h e = (e, tt)
AllOfLength-append n (x ∷ bs) b h e = (h.0, AllOfLength-append n bs b h.1 e)

AllOfLength-drop : (n k : ℕ) (bs : List (List ℕ)) → AllOfLength n bs → AllOfLength n (drop k bs)
AllOfLength-drop n zero bs h = h
AllOfLength-drop n (suc k) [] h = tt
AllOfLength-drop n (suc k) (b ∷ bs) h = AllOfLength-drop n k bs h.1

length-concat : (n : ℕ) (bs : List (List ℕ)) → AllOfLength n bs → length (concat bs) ≡ length bs * n
length-concat n [] h = sym (zero-mul n)
length-concat n (b ∷ bs) h =
    length-append b (concat bs) ∙ omega (arith, h.0, length-concat n bs h.1, suc-mul (length bs) n)

roll_ms :
    (k ms : ℕ) (roll : List (List ℕ))
    → AllOfLength k roll
    → length (concat roll) * ms ≡ ms * length roll * k
roll_ms k ms roll h =
    ap (λ m. m * ms) (length-concat k roll h)
    ∙ mul_comm (length roll * k) ms
    ∙ sym (mul_assoc ms (length roll) k)

-- What holds while speech is on.
abbrev pub During : Bool → Type 0 → Type 0
During true P = P
During false P = Unit {0}

During-elim : {P : Type 0} (b : Bool) → b ≡ true → During b P → P
During-elim {P} b on h = subst (λ x. During x P) on h

During-intro : {P : Type 0} (b : Bool) → P → During b P
During-intro true h = h
During-intro false h = tt

During-off : (P : Type 0) (b : Bool) → b ≡ false → During b P
During-off P b off = subst (λ x. During x P) (sym off) tt

-- The milliseconds of the blocks that are voice, in blocks of `ms` milliseconds.
abbrev pub voiced_time : (List ℕ → Bool) → ℕ → List (List ℕ) → ℕ
voiced_time voice ms [] = 0
voiced_time voice ms (b ∷ bs) = (if voice b then ms else 0) + voiced_time voice ms bs

-- A text of samples that is made of whole blocks, in which at least `n` milliseconds are voice.
abbrev pub Heard : (List ℕ → Bool) → ℕ → ℕ → List ℕ → ℕ → Type 0
Heard voice k ms utterance n =
    (blocks : List (List ℕ)) × (concat blocks ≡ utterance)
    × AllOfLength k blocks
    × (n ≤ voiced_time voice ms blocks)

concat-last : (bs : List (List ℕ)) (b : List ℕ) → concat (bs ++ b ∷ []) ≡ concat bs ++ b
concat-last [] b = append-nil b
concat-last (x ∷ bs) b = ap (x ++◌) (concat-last bs b) ∙ sym (append_assoc x (concat bs) b)

voiced_time-last :
    (voice : List ℕ → Bool) (ms : ℕ) (bs : List (List ℕ)) (b : List ℕ)
    → voiced_time voice ms (bs ++ b ∷ []) ≡ voiced_time voice ms bs + (if voice b then ms else 0)
voiced_time-last voice ms [] b = omega arith
voiced_time-last voice ms (x ∷ bs) b = omega (arith, voiced_time-last voice ms bs b)

-- The last block stays when the first ones are dropped.
voiced_time-drop :
    (voice : List ℕ → Bool) (ms n : ℕ) (bs : List (List ℕ)) (b : List ℕ)
    → n ≤ length bs
    → (if voice b then ms else 0) ≤ voiced_time voice ms (drop n (bs ++ b ∷ []))
voiced_time-drop voice ms zero bs b h = omega (arith, voiced_time-last voice ms bs b)
voiced_time-drop voice ms (suc n) [] b h = omega arith
voiced_time-drop voice ms (suc n) (x ∷ bs) b h = voiced_time-drop voice ms n bs b (omega arith)

Heard-longer :
    (voice : List ℕ → Bool) (k ms n : ℕ) (utterance block : List ℕ) (is : Bool)
    → voice block ≡ is
    → length block ≡ k
    → Heard voice k ms utterance n
    → Heard voice k ms (utterance ++ block) (if is then n + ms else n)
Heard-longer voice k ms n utterance block true v e (blocks, whole, sizes, long) = (
  blocks ++ block ∷ [],
  concat-last blocks block ∙ ap (λ (u : List ℕ). u ++ block) whole,
  AllOfLength-append k blocks block sizes e,
  subst (λ m. n + ms ≤ m)
      (ap (λ (b : Bool). voiced_time voice ms blocks + (if b then ms else 0)) (sym v)
        ∙ sym (voiced_time-last voice ms blocks block))
      (omega arith),
)
Heard-longer voice k ms n utterance block false v e (blocks, whole, sizes, long) = (
  blocks ++ block ∷ [],
  concat-last blocks block ∙ ap (λ (u : List ℕ). u ++ block) whole,
  AllOfLength-append k blocks block sizes e,
  omega (arith, voiced_time-last voice ms blocks block),
)

-- What the collector keeps, for blocks of `k` bytes and `ms` milliseconds: the pre-roll is bounded and
-- consists of whole blocks, and during speech the utterance has as many whole blocks as its duration
-- says, and at least the voice that was counted.
pub record IsCoherent (v : List ℕ → Bool) (k ms bound : ℕ) (s : Collector) : Type 0 where
  pub bounded : length s.pre_roll ≤ bound
  pub whole : AllOfLength k s.pre_roll
  pub blocks : During s.in_speech (length s.utterance * ms ≡ s.utterance_ms * k)
  pub voiced : During s.in_speech (s.voiced_ms ≤ s.utterance_ms)
  pub heard : During s.in_speech (Heard v k ms s.utterance s.voiced_ms)

IsCoherent-silent :
    {v : List ℕ → Bool} {k ms bound : ℕ} (s : Collector)
    → length s.pre_roll ≤ bound
    → AllOfLength k s.pre_roll
    → s.in_speech ≡ false
    → IsCoherent v k ms bound s
IsCoherent-silent s le whole off = record {
  bounded = le;
  whole = whole;
  blocks = During-off _ s.in_speech off;
  voiced = During-off _ s.in_speech off;
  heard = During-off _ s.in_speech off;
}

-- Every utterance is made of whole blocks of `k` bytes and `ms` milliseconds, of which at least `need`
-- milliseconds are voice, and is itself at least that long.
abbrev pub LongEnough : (List ℕ → Bool) → ℕ → ℕ → ℕ → List SpeechEvent → Type 0
LongEnough v k ms need [] = Unit
LongEnough v k ms need (utterance_event u ∷ events) =
    ((need * k ≤ length u * ms) × Heard v k ms u need) × LongEnough v k ms need events
LongEnough v k ms need (e ∷ events) = LongEnough v k ms need events

LongEnough-emit :
    (v : List ℕ → Bool) (k ms need : ℕ) (e : Option SpeechEvent) (events : List SpeechEvent)
    → LongEnough v k ms need (emit e [])
    → LongEnough v k ms need events
    → LongEnough v k ms need (emit e events)
LongEnough-emit v k ms need none events h t = t
LongEnough-emit v k ms need (some speech_start) events h t = t
LongEnough-emit v k ms need (some speech_rejected) events h t = t
LongEnough-emit v k ms need (some (utterance_event u)) events h t = (h.0, t)

voiced_ms_of_roll : (ms n : ℕ) → 0 < n → ms ≤ ms * n
voiced_ms_of_roll ms n pos = omega (arith, mul-one ms, mul-le-mul_left {m = 1} {n = n} ms pos)

longer_ms :
    (k ms : ℕ) (utterance block : List ℕ) (n : ℕ)
    → length utterance * ms ≡ n * k
    → length block ≡ k
    → length (utterance ++ block) * ms ≡ (n + ms) * k
longer_ms k ms utterance block n h e =
    ap (λ m. m * ms) (length-append utterance block)
    ∙ add-mul (length utterance) (length block) ms
    ∙ ap₂ (λ x y. x + y) h (ap (λ m. m * ms) e ∙ mul_comm k ms)
    ∙ sym (add-mul n ms k)

mul_mono : (m n k : ℕ) → m ≤ n → m * k ≤ n * k
mul_mono m n k le = omega (arith, mul_comm m k, mul_comm n k, mul-le-mul_left {m = m} {n = n} k le)

longer_voiced :
    (ms : ℕ) (voice : Bool) (s : Collector)
    → s.voiced_ms ≤ s.utterance_ms
    → (if voice then s.voiced_ms + ms else s.voiced_ms) ≤ s.utterance_ms + ms
longer_voiced ms true s h = omega (arith, h)
longer_voiced ms false s h = omega (arith, h)

module _ (f : Float) (c : CaptureConfig f) where
  pre_roll_blocks-pos : 0 < pre_roll_blocks f c
  unfolding pre_roll_blocks
  pre_roll_blocks-pos = omega arith

  listened :
      (k ms : ℕ) (voice : Bool) (block : List ℕ) (s : Collector)
      → is_voice f c block ≡ voice
      → length block ≡ k
      → IsCoherent (is_voice f c) k ms (pre_roll_blocks f c) s
      → s.in_speech ≡ false
      → AllOfLength k (keep_last (pre_roll_blocks f c) (s.pre_roll ++ block ∷ []))
      → length (keep_last (pre_roll_blocks f c) (s.pre_roll ++ block ∷ [])) ≤ pre_roll_blocks f c
      → IsCoherent (is_voice f c) k ms (pre_roll_blocks f c) (listen f c ms voice block s).0
  unfolding listen
  listened k ms false block s is e h off whole few = IsCoherent-silent _ few whole off
  listened k ms true block s is e h off whole few =
      let n = pre_roll_blocks f c in
      let all = s.pre_roll ++ block ∷ [] in
      let size = length-drop (length all - n) all in
      let one = length-append s.pre_roll (block ∷ []) in
      record {
        bounded = few;
        whole = whole;
        blocks = roll_ms k ms (keep_last n all) whole;
        voiced =
            voiced_ms_of_roll ms (length (keep_last n all))
              (omega (arith, size, pre_roll_blocks-pos, one));
        heard = (
          keep_last n all,
          refl,
          whole,
          subst
              (λ (b : Bool).
                (if b then ms else 0) ≤ voiced_time (is_voice f c) ms (keep_last n all))
              is
              (voiced_time-drop (is_voice f c) ms (length all - n) s.pre_roll block
                (omega (arith, one, pre_roll_blocks-pos))),
        );
      }

  listen-IsCoherent :
      (k ms : ℕ) (voice : Bool) (block : List ℕ) (s : Collector)
      → is_voice f c block ≡ voice
      → length block ≡ k
      → IsCoherent (is_voice f c) k ms (pre_roll_blocks f c) s
      → s.in_speech ≡ false
      → IsCoherent (is_voice f c) k ms (pre_roll_blocks f c) (listen f c ms voice block s).0
  unfolding listen
  listen-IsCoherent k ms voice block s is e h off =
      let n = pre_roll_blocks f c in
      let all = s.pre_roll ++ block ∷ [] in
      let whole =
        AllOfLength-drop k (length all - n) all (AllOfLength-append k s.pre_roll block h.whole e) in
      let size = length-drop (length all - n) all in
      listened k ms voice block s is e h off whole (omega (arith, size))

  still-IsCoherent :
      (k ms : ℕ) (voice : Bool) (block : List ℕ) (s : Collector)
      → is_voice f c block ≡ voice
      → length block ≡ k
      → IsCoherent (is_voice f c) k ms (pre_roll_blocks f c) s
      → s.in_speech ≡ true
      → IsCoherent (is_voice f c) k ms (pre_roll_blocks f c) (spoken ms voice block s)
  still-IsCoherent k ms voice block s is e h on = record {
    bounded = h.bounded;
    whole = h.whole;
    blocks =
        During-intro s.in_speech
          (longer_ms k ms s.utterance block s.utterance_ms (During-elim s.in_speech on h.blocks) e);
    voiced =
        During-intro s.in_speech (longer_voiced ms voice s (During-elim s.in_speech on h.voiced));
    heard = During-intro s.in_speech (
        Heard-longer (is_voice f c) k ms s.voiced_ms s.utterance block voice is e
          (During-elim s.in_speech on h.heard));
  }

  enough_heard :
      (k ms : ℕ) (s : Collector)
      → ltb s.voiced_ms c.min_speech_ms ≡ false
      → Heard (is_voice f c) k ms s.utterance s.voiced_ms
      → Heard (is_voice f c) k ms s.utterance c.min_speech_ms
  enough_heard k ms s enough (blocks, whole, sizes, long) = (blocks, whole, sizes, ground arith)

  complete-IsCoherent :
      (k ms now : ℕ) (s : Collector)
      → IsCoherent (is_voice f c) k ms (pre_roll_blocks f c) s
      → s.in_speech ≡ true
      → let r = complete f c now s in
        IsCoherent (is_voice f c) k ms (pre_roll_blocks f c) r.0
        × LongEnough (is_voice f c) k ms c.min_speech_ms (emit r.1 [])
  unfolding complete reset_after_utterance
  complete-IsCoherent k ms now s h on = elim (Bool-cases (ltb s.voiced_ms c.min_speech_ms)) [
    | inl e ↦ rw e (IsCoherent-silent _ (omega arith) tt refl, tt)
    | inr e ↦ rw e (
      IsCoherent-silent _ (omega arith) tt refl,
      (
        (
          subst (λ n. c.min_speech_ms * k ≤ n) (sym (During-elim s.in_speech on h.blocks))
              (mul_mono c.min_speech_ms s.utterance_ms k
                (ground (arith, During-elim s.in_speech on h.voiced))),
          enough_heard k ms s e (During-elim s.in_speech on h.heard),
        ),
        tt,
      ),
    )
  ]

  follow-IsCoherent :
      (k ms now : ℕ) (voice : Bool) (block : List ℕ) (s : Collector)
      → is_voice f c block ≡ voice
      → length block ≡ k
      → IsCoherent (is_voice f c) k ms (pre_roll_blocks f c) s
      → s.in_speech ≡ true
      → let r = follow f c now ms voice block s in
        IsCoherent (is_voice f c) k ms (pre_roll_blocks f c) r.0
        × LongEnough (is_voice f c) k ms c.min_speech_ms (emit r.1 [])
  unfolding follow
  follow-IsCoherent k ms now voice block s is e h on =
      let t = spoken ms voice block s in
      let keep = still-IsCoherent k ms voice block s is e h on in
      elim (Bool-cases
        (ltb t.silence_run_ms c.silence_ms && ltb t.utterance_ms c.max_utterance_ms)) [
          | inl go ↦ rw go (keep, tt)
          | inr go ↦ rw go (complete-IsCoherent k ms now t keep on)
        ]

  -- The milliseconds of a whole block.
  unfoldable pub full_ms : ℕ
  full_ms = block_bytes f c * 1000 / (c.sample_rate * bytes_per_sample)

  duration_full :
      (block : List ℕ)
      → length block ≡ block_bytes f c
      → duration f c (apply_gain f c.mic_gain block) ≡ full_ms
  unfolding duration full_ms
  duration_full block e =
      ap (λ n. n * 1000 / (c.sample_rate * bytes_per_sample))
        (length-apply_gain f c.mic_gain block ∙ e)

  Coherent : Collector → Type 0
  Coherent = IsCoherent (is_voice f c) (block_bytes f c) full_ms (pre_roll_blocks f c)

  MeetsMinimum : List SpeechEvent → Type 0
  MeetsMinimum = LongEnough (is_voice f c) (block_bytes f c) full_ms c.min_speech_ms

  moved : (s : Collector) (p : List ℕ) → Coherent s → Coherent (with_pending p s)
  unfolding Coherent
  moved s p h = record {
    bounded = h.bounded;
    whole = h.whole;
    blocks = h.blocks;
    voiced = h.voiced;
    heard = h.heard;
  }

  listen-LongEnough :
      (k unit need ms : ℕ) (voice : Bool) (block : List ℕ) (s : Collector)
      → LongEnough (is_voice f c) k unit need (emit (listen f c ms voice block s).1 [])
  unfolding listen
  listen-LongEnough k unit need ms true block s = tt
  listen-LongEnough k unit need ms false block s = tt

  -- The three ways of a block, by whether speech is on and whether the cooldown runs.
  chosen : ℕ → ℕ → Bool → List ℕ → Collector → Bool → Bool → Collector × Option SpeechEvent
  chosen now ms voice block s on cold =
      if not on && cold
      then (s, none)
      else if on
      then follow f c now ms voice block s
      else listen f c ms voice block s

  chosen-IsCoherent :
      (now : ℕ) (voice : Bool) (block : List ℕ) (s : Collector) (on cold : Bool)
      → is_voice f c block ≡ voice
      → length block ≡ block_bytes f c
      → Coherent s
      → s.in_speech ≡ on
      → let r = chosen now full_ms voice block s on cold in
        Coherent r.0 × MeetsMinimum (emit r.1 [])
  unfolding chosen Coherent MeetsMinimum
  chosen-IsCoherent now voice block s true cold is e h on =
      follow-IsCoherent (block_bytes f c) full_ms now voice block s is e h on
  chosen-IsCoherent now voice block s false true is e h on = (h, tt)
  chosen-IsCoherent now voice block s false false is e h on = (
    listen-IsCoherent (block_bytes f c) full_ms voice block s is e h on,
    listen-LongEnough (block_bytes f c) full_ms c.min_speech_ms full_ms voice block s,
  )

  push_block-IsCoherent :
      (now : ℕ) (block : List ℕ) (s : Collector)
      → length block ≡ block_bytes f c
      → Coherent s
      → let r = push_block f c now block s in Coherent r.0 × MeetsMinimum (emit r.1 [])
  unfolding push_block chosen
  push_block-IsCoherent now block s e h =
      let gained = apply_gain f c.mic_gain block in
      let cold = cooling now c.cooldown_ms s.last_completed in
      subst
        (λ ms.
          let r = chosen now ms (is_voice f c gained) gained s s.in_speech cold in
          Coherent r.0 × MeetsMinimum (emit r.1 []))
        (sym (duration_full block e))
        (chosen-IsCoherent now (is_voice f c gained) gained s s.in_speech cold refl
          (length-apply_gain f c.mic_gain block ∙ e) h refl)

  pub new-IsCoherent : IsCoherent (is_voice f c) (block_bytes f c) full_ms (pre_roll_blocks f c) new
  unfolding new
  new-IsCoherent = IsCoherent-silent _ (omega arith) tt refl

  -- Pushing any bytes to a coherent collector keeps it coherent: the pre-roll never holds more than
  -- `pre_roll_blocks` blocks, all of them whole, and during speech the bytes of the utterance agree with
  -- its duration. Every utterance that the push hands on is made of whole blocks of `block_bytes` bytes
  -- and `full_ms` milliseconds, and those of them that are voice last at least `min_speech_ms`.
  pub push-IsCoherent :
      (now : ℕ) (bytes : List ℕ) (s : Collector)
      → IsCoherent (is_voice f c) (block_bytes f c) full_ms (pre_roll_blocks f c) s
      → let (t, events) = push f c now bytes s in
        IsCoherent (is_voice f c) (block_bytes f c) full_ms (pre_roll_blocks f c) t
        × LongEnough (is_voice f c) (block_bytes f c) full_ms c.min_speech_ms events
  unfolding first_block Coherent MeetsMinimum full
  push-IsCoherent now bytes s h =
      push-induction f c (λ t events u. Coherent t → Coherent u × MeetsMinimum events) now
        (λ t k. (k, tt))
        (λ t u events more next k.
          let size = length-take (block_bytes f c) t.pending in
          let (kept, long) =
            push_block-IsCoherent now (take (block_bytes f c) t.pending)
              (with_pending (drop (block_bytes f c) t.pending) t)
              (omega (arith, size, leb→le (block_bytes f c) (length t.pending) more))
              (moved t _ k) in
          ((next kept).0, LongEnough-emit _ _ _ _ _ events long (next kept).1))
        bytes s (moved s _ h)
