-- ===== src/Vad/Chunks.antt =====
-- The loop of `SpeechCollector::push` in xiaoai-agent/src/vad.rs takes whole blocks off the bytes
-- that wait, so that the size of the chunks a capture device delivers does not matter.
use xiaoai_agent.Prelude.{
  ℕ, zero, suc, ◌+◌, ◌≤◌, ◌<◌, ◌≡◌, refl, sym, ap, ◌∙◌, Bool, true, false, List, [], ◌∷◌, ◌++◌,
  Option, none, some, arith, subst, leb, length, take, drop, length-append, length-drop, Bool-cases,
  inl, inr, leb→le,
}
use mathlib.Core.Path.{ap₂}
use xiaoai_agent.Vad.Level.{Float}
use xiaoai_agent.Vad.Collector.{
  CaptureConfig, Collector, SpeechEvent, block_bytes, push, drain_blocks, push_block, emit, listen,
  follow, complete,
}

append_nil {ℓ} : {A : Type ℓ} (xs : List A) → xs ++ [] ≡ xs
append_nil [] = refl
append_nil (x ∷ xs) = ap (x ∷◌) (append_nil xs)

append_assoc {ℓ} : {A : Type ℓ} (xs ys zs : List A) → (xs ++ ys) ++ zs ≡ xs ++ (ys ++ zs)
append_assoc [] ys zs = refl
append_assoc (x ∷ xs) ys zs = ap (x ∷◌) (append_assoc xs ys zs)

take-append {ℓ} :
    {A : Type ℓ} (n : ℕ) (xs ys : List A) → n ≤ length xs → take n (xs ++ ys) ≡ take n xs
take-append zero xs ys le = refl
take-append (suc n) [] ys le = ground (arith, le)
take-append (suc n) (x ∷ xs) ys le = ap (x ∷◌) (take-append n xs ys (omega (arith, le)))

drop-append {ℓ} :
    {A : Type ℓ} (n : ℕ) (xs ys : List A) → n ≤ length xs → drop n (xs ++ ys) ≡ drop n xs ++ ys
drop-append zero xs ys le = refl
drop-append (suc n) [] ys le = ground (arith, le)
drop-append (suc n) (x ∷ xs) ys le = drop-append n xs ys (omega (arith, le))

-- The collector with other bytes waiting.
abbrev pub with_pending : List ℕ → Collector → Collector
with_pending p s = record s { pending = p }

emit-append :
    (e : Option SpeechEvent) (xs ys : List SpeechEvent) → emit e (xs ++ ys) ≡ emit e xs ++ ys
emit-append none xs ys = refl
emit-append (some x) xs ys = refl

module _ (f : Float) (c : CaptureConfig f) where
  block_bytes-pos : 0 < block_bytes f c
  unfolding block_bytes
  block_bytes-pos = omega arith

  -- What a block does is the same whatever waits behind it.
  push_block-with_pending :
      (now : ℕ) (block p : List ℕ) (s : Collector)
      → push_block f c now block (with_pending p s)
        ≡ (with_pending p ((push_block f c now block s).0), (push_block f c now block s).1)
  unfolding push_block listen follow complete
  push_block-with_pending now block p s = ground arith

  unfoldable pub full : Collector → Bool
  full s = leb (block_bytes f c) (length s.pending)

  -- The first block, taken off the bytes that wait.
  unfoldable pub first_block : ℕ → Collector → Collector × Option SpeechEvent
  first_block now s =
      push_block f c now (take (block_bytes f c) s.pending)
        (with_pending (drop (block_bytes f c) s.pending) s)

  after_first : ℕ → ℕ → Collector → Collector × List SpeechEvent
  unfolding first_block
  after_first n now s =
      let (t, event) = first_block now s in
      let (u, events) = drain_blocks f c n now t in (u, emit event events)

  drain_blocks-waits :
      (n now : ℕ) (s : Collector) → full s ≡ false → drain_blocks f c n now s ≡ (s, [])
  unfolding drain_blocks full
  drain_blocks-waits zero now s h = refl
  drain_blocks-waits (suc n) now s h = ground arith

  drain_blocks-zero : (now : ℕ) (s : Collector) → drain_blocks f c zero now s ≡ (s, [])
  unfolding drain_blocks
  drain_blocks-zero now s = refl

  drain_blocks-takes :
      (n now : ℕ) (s : Collector)
      → full s ≡ true
      → drain_blocks f c (suc n) now s ≡ after_first n now s
  unfolding drain_blocks full after_first first_block
  drain_blocks-takes n now s h = ground arith

  empty-waits : (s : Collector) → length s.pending ≤ 0 → full s ≡ false
  unfolding full
  empty-waits s h = ground (arith, block_bytes-pos)

  first_block-pending :
      (now : ℕ) (s : Collector) → (first_block now s).0.pending ≡ drop (block_bytes f c) s.pending
  unfolding first_block
  first_block-pending now s =
      ap (λ r. r.0.pending)
        (push_block-with_pending now (take (block_bytes f c) s.pending)
          (drop (block_bytes f c) s.pending) s)

  first_block-shorter :
      (now n : ℕ) (s : Collector)
      → full s ≡ true
      → length s.pending ≤ suc n
      → length (first_block now s).0.pending ≤ n
  unfolding full
  first_block-shorter now n s h le = ground (
    arith,
    ap length (first_block-pending now s),
    length-drop (block_bytes f c) s.pending,
    block_bytes-pos,
  )

  -- The run on fuel for at least the bytes that wait does not depend on the fuel.
  drain_blocks-fuel :
      (n m now : ℕ) (s : Collector)
      → length s.pending ≤ n
      → length s.pending ≤ m
      → drain_blocks f c n now s ≡ drain_blocks f c m now s
  unfolding after_first
  drain_blocks-fuel zero m now s hn hm =
      drain_blocks-waits zero now s (empty-waits s hn)
      ∙ sym (drain_blocks-waits m now s (empty-waits s hn))
  drain_blocks-fuel n zero now s hn hm =
      drain_blocks-waits n now s (empty-waits s hm)
      ∙ sym (drain_blocks-waits zero now s (empty-waits s hm))
  drain_blocks-fuel (suc n) (suc m) now s hn hm = elim (Bool-cases (full s)) [
    | inr e ↦ drain_blocks-waits (suc n) now s e ∙ sym (drain_blocks-waits (suc m) now s e)
    | inl e ↦
        drain_blocks-takes n now s e
        ∙ ap (λ r. (r.0, emit (first_block now s).1 r.1))
            (drain_blocks-fuel n m now (first_block now s).0 (first_block-shorter now n s e hn)
              (first_block-shorter now m s e hm))
        ∙ sym (drain_blocks-takes m now s e)
  ]

  -- What `push` leaves waiting is shorter than a block.
  drain_blocks-pending :
      (n now : ℕ) (s : Collector)
      → length s.pending ≤ n
      → length (drain_blocks f c n now s).0.pending < block_bytes f c
  unfolding full after_first drain_blocks
  drain_blocks-pending zero now s le =
      ground (arith, block_bytes-pos, drain_blocks-waits zero now s (empty-waits s le))
  drain_blocks-pending (suc n) now s le = elim (Bool-cases (full s)) [
    | inr e ↦ ground (arith, drain_blocks-waits (suc n) now s e)
    | inl e ↦
        subst (λ r. length r.0.pending < block_bytes f c) (sym (drain_blocks-takes n now s e))
          (drain_blocks-pending n now (first_block now s).0 (first_block-shorter now n s e le))
  ]

  -- The collector after `push`, with the bytes of the next chunk behind what it left.
  resume : ℕ → List ℕ → Collector × List SpeechEvent → Collector × List SpeechEvent
  resume now bytes (t, events) = let (u, more) = push f c now bytes t in (u, events ++ more)

  resume-emit :
      (now : ℕ) (bytes : List ℕ) (e : Option SpeechEvent) (r : Collector × List SpeechEvent)
      → resume now bytes (r.0, emit e r.1) ≡ ((resume now bytes r).0, emit e (resume now bytes r).1)
  unfolding resume
  resume-emit now bytes e r = ap (λ es. ((resume now bytes r).0, es)) (sym (emit-append e r.1 _))

  first_block-append :
      (now : ℕ) (bytes : List ℕ) (s : Collector)
      → full s ≡ true
      → first_block now (with_pending (s.pending ++ bytes) s) ≡ (
        with_pending ((first_block now s).0.pending ++ bytes) (first_block now s).0,
        (first_block now s).1,
      )
  unfolding first_block full
  first_block-append now bytes s h =
      let k = block_bytes f c in
      let le = leb→le k (length s.pending) h in
      let t = first_block now s in
      ap₂ (λ block rest. push_block f c now block (with_pending rest s))
        (take-append k s.pending bytes le) (drop-append k s.pending bytes le)
      ∙ push_block-with_pending now (take k s.pending) (drop k s.pending ++ bytes)
          (with_pending (drop k s.pending) s)
      ∙ ap (λ p. (with_pending (p ++ bytes) t.0, t.1)) (sym (first_block-pending now s))

  full-append :
      (bytes : List ℕ) (s : Collector)
      → full s ≡ true
      → full (with_pending (s.pending ++ bytes) s) ≡ true
  unfolding full
  full-append bytes s e = ground (arith, length-append s.pending bytes)

  waits-append :
      (n now : ℕ) (bytes : List ℕ) (s : Collector)
      → length s.pending ≤ n
      → full s ≡ false
      → drain_blocks f c (n + length bytes) now (with_pending (s.pending ++ bytes) s)
        ≡ resume now bytes (drain_blocks f c n now s)
  unfolding resume push
  waits-append n now bytes s le e =
      let s' = with_pending (s.pending ++ bytes) s in
      drain_blocks-fuel (n + length bytes) (length s'.pending) now s'
        (omega (arith, length-append s.pending bytes)) (omega arith)
      ∙ ap (resume now bytes) (sym (drain_blocks-waits n now s e))

  drain_blocks-append :
      (n now : ℕ) (bytes : List ℕ) (s : Collector)
      → length s.pending ≤ n
      → drain_blocks f c (n + length bytes) now (with_pending (s.pending ++ bytes) s)
        ≡ resume now bytes (drain_blocks f c n now s)
  unfolding after_first resume
  drain_blocks-append zero now bytes s le = waits-append zero now bytes s le (empty-waits s le)
  drain_blocks-append (suc n) now bytes s le = elim (Bool-cases (full s)) [
    | inr e ↦ waits-append (suc n) now bytes s le e
    | inl e ↦
        let t = (first_block now s).0 in
        ap (λ k. drain_blocks f c k now (with_pending (s.pending ++ bytes) s)) (omega arith)
        ∙ drain_blocks-takes (n + length bytes) now (with_pending (s.pending ++ bytes) s)
            (full-append bytes s e)
        ∙ ap (λ r. (let v = drain_blocks f c (n + length bytes) now r.0 in (v.0, emit r.1 v.1)))
            (first_block-append now bytes s e)
        ∙ ap (λ v. (v.0, emit (first_block now s).1 v.1))
            (drain_blocks-append n now bytes t (first_block-shorter now n s e le))
        ∙ sym (resume-emit now bytes (first_block now s).1 (drain_blocks f c n now t))
        ∙ ap (resume now bytes) (sym (drain_blocks-takes n now s e))
  ]

  -- A chunk may be cut anywhere: the events and the collector are those of the two pieces pushed one
  -- after the other.
  pub push-append :
      (now : ℕ) (xs ys : List ℕ) (s : Collector)
      → push f c now (xs ++ ys) s ≡ (
          let (t, events) = push f c now xs s in
          let (u, more) = push f c now ys t in (u, events ++ more))
  unfolding push resume
  push-append now xs ys s =
      ap₂ (λ n p. drain_blocks f c n now (with_pending p s))
        (omega (
          arith,
          length-append s.pending (xs ++ ys),
          length-append s.pending xs,
          length-append xs ys,
        ))
        (sym (append_assoc s.pending xs ys))
      ∙ drain_blocks-append (length (s.pending ++ xs)) now ys (with_pending (s.pending ++ xs) s)
          (omega arith)

  -- After `push`, whatever was waiting and however much arrived, less than one block waits.
  pub push-pending_short :
      (now : ℕ) (bytes : List ℕ) (s : Collector)
      → length (push f c now bytes s).0.pending < block_bytes f c
  unfolding push
  push-pending_short now bytes s =
      drain_blocks-pending (length (s.pending ++ bytes)) now (with_pending (s.pending ++ bytes) s)
        (omega arith)

  -- The induction on the blocks of `push`.
  drain_blocks-induction {ℓ} :
      (R : Collector → List SpeechEvent → Collector → Type ℓ) (now : ℕ)
      → ((s : Collector) → R s [] s)
      → ((s u : Collector) (events : List SpeechEvent)
          → full s ≡ true
          → R (first_block now s).0 events u
          → R s (emit (first_block now s).1 events) u)
      → (n : ℕ) (s : Collector) → R s (drain_blocks f c n now s).1 (drain_blocks f c n now s).0
  unfolding after_first
  drain_blocks-induction R now done step zero s =
      subst (λ r. R s r.1 r.0) (sym (drain_blocks-zero now s)) (done s)
  drain_blocks-induction R now done step (suc n) s = elim (Bool-cases (full s)) [
    | inr e ↦ subst (λ r. R s r.1 r.0) (sym (drain_blocks-waits (suc n) now s e)) (done s)
    | inl e ↦
        subst (λ r. R s r.1 r.0) (sym (drain_blocks-takes n now s e))
          (step s _ _ e (drain_blocks-induction R now done step n (first_block now s).0))
  ]

  -- The same for `push`, from the collector with the new bytes waiting.
  pub push-induction {ℓ} :
      (R : Collector → List SpeechEvent → Collector → Type ℓ) (now : ℕ)
      → ((s : Collector) → R s [] s)
      → ((s u : Collector) (events : List SpeechEvent)
          → full s ≡ true
          → R (first_block now s).0 events u
          → R s (emit (first_block now s).1 events) u)
      → (bytes : List ℕ) (s : Collector)
      → R (with_pending (s.pending ++ bytes) s) (push f c now bytes s).1 (push f c now bytes s).0
  unfolding push
  push-induction R now done step bytes s =
      drain_blocks-induction R now done step (length (s.pending ++ bytes))
        (with_pending (s.pending ++ bytes) s)
