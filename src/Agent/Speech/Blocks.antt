-- ===== src/Agent/Speech/Blocks.antt =====
-- The reasoning blocks that `strip_think_blocks` of xiaoai-agent/src/agent.rs takes out.
use xiaoai_agent.Prelude.{
  ℕ, zero, suc, ◌+◌, ◌<◌, ◌≡◌, refl, sym, ap, ◌∙◌, Bool, true, false, List, [], ◌∷◌, ◌++◌, Option,
  none, some, take, drop, length, length-drop, if◌then◌else◌, arith, Option-cases, Bool-cases, inl,
  inr,
}
use xiaoai_agent.Agent.Speech.{
  open_thinking, close_think, close_thinking, starts_with, find, open_at, after_block, strip_rounds,
  strip_think_blocks,
}
use xiaoai_agent.Agent.Speech.Tags.{
  has_no_angle, open_tag, close_tag, shift, take-append, drop-append, open_at-skip, open_at-tag,
  find-fits, after_block-tag, after_block-closed,
}

strip_rounds-none : (fuel : ℕ) (raw : List ℕ) → open_at raw ≡ none → strip_rounds fuel raw ≡ raw
unfolding strip_rounds
strip_rounds-none zero raw h = refl
strip_rounds-none (suc fuel) raw h = rw (h, strip_rounds) refl

strip_rounds-open :
    (fuel : ℕ) (raw : List ℕ) (start : ℕ)
    → open_at raw ≡ some start
    → after_block (drop start raw) ≡ none
    → strip_rounds (suc fuel) raw ≡ take start raw ++ []
unfolding strip_rounds
strip_rounds-open fuel raw start h g = rw (h, g, strip_rounds) refl

strip_rounds-closed :
    (fuel : ℕ) (raw : List ℕ) (start : ℕ) (later : List ℕ)
    → open_at raw ≡ some start
    → after_block (drop start raw) ≡ some later
    → strip_rounds (suc fuel) raw ≡ take start raw ++ strip_rounds fuel later
unfolding strip_rounds
strip_rounds-closed fuel raw start later h g = rw (h, g, strip_rounds) refl

-- What follows a closing tag in the body of a block.
abbrev behind : List ℕ → List ℕ → Option (List ℕ)
behind close body = elim (find close body) [
  | none ↦ none
  | some i ↦ some (drop (i + length close) body)
]

behind-none : (close body : List ℕ) → find close body ≡ none → behind close body ≡ none
behind-none close body h = rw (h, behind) refl

behind-some :
    (close body : List ℕ) (i : ℕ)
    → find close body ≡ some i
    → behind close body ≡ some (drop (i + length close) body)
behind-some close body i h = rw (h, behind) refl

behind-shorter :
    (close body later : List ℕ)
    → 0 < length close
    → behind close body ≡ some later
    → length later < length body
behind-shorter close body later long h = elim (Option-cases (find close body)) [
  | inl nowhere ↦ let absurd = sym (behind-none close body nowhere) ∙ h in ground arith
  | inr (i, found) ↦
      let fits = find-fits close body i found in
      let later_is = sym (behind-some close body i found) ∙ h in
      let size = length-drop (i + length close) body in ground arith
]

after_block-long :
    (raw : List ℕ)
    → starts_with open_thinking raw ≡ true
    → after_block raw ≡ behind close_thinking (drop 10 raw)
unfolding after_block
after_block-long raw h =
    ap
      (λ is_long.
        behind (if is_long then close_thinking else close_think)
          (drop (if is_long then 10 else 7) raw))
      h

after_block-short :
    (raw : List ℕ)
    → starts_with open_thinking raw ≡ false
    → after_block raw ≡ behind close_think (drop 7 raw)
unfolding after_block
after_block-short raw h =
    ap
      (λ is_long.
        behind (if is_long then close_thinking else close_think)
          (drop (if is_long then 10 else 7) raw))
      h

after_block-shorter :
    (raw later : List ℕ) → after_block raw ≡ some later → length later < length raw
after_block-shorter raw later h = elim (Bool-cases (starts_with open_thinking raw)) [
  | inl is_long ↦
      let h2 =
        behind-shorter close_thinking (drop 10 raw) later (omega arith)
          (sym (after_block-long raw is_long) ∙ h) in
      let size = length-drop 10 raw in omega arith
  | inr is_short ↦
      let h2 =
        behind-shorter close_think (drop 7 raw) later (omega arith)
          (sym (after_block-short raw is_short) ∙ h) in
      let size = length-drop 7 raw in omega arith
]

-- More fuel than characters changes nothing.
strip_rounds-fuel :
    (fuel more : ℕ) (raw : List ℕ)
    → length raw < fuel
    → length raw < more
    → strip_rounds fuel raw ≡ strip_rounds more raw
strip_rounds-fuel zero more raw h g = ground arith
strip_rounds-fuel (suc fuel) zero raw h g = ground arith
strip_rounds-fuel (suc fuel) (suc more) raw h g = elim (Option-cases (open_at raw)) [
  | inl nowhere ↦
      strip_rounds-none (suc fuel) raw nowhere ∙ sym (strip_rounds-none (suc more) raw nowhere)
  | inr (start, opens) ↦ elim (Option-cases (after_block (drop start raw))) [
    | inl unclosed ↦
        strip_rounds-open fuel raw start opens unclosed
        ∙ sym (strip_rounds-open more raw start opens unclosed)
    | inr (later, closes) ↦
        let shorter = after_block-shorter (drop start raw) later closes in
        let size = length-drop start raw in
        strip_rounds-closed fuel raw start later opens closes
        ∙ ap (take start raw ++◌) (strip_rounds-fuel fuel more later (omega arith) (omega arith))
        ∙ sym (strip_rounds-closed more raw start later opens closes)
  ]
]

opens_at :
    (is_long : Bool) (a rest : List ℕ)
    → has_no_angle a ≡ true
    → open_at (a ++ (open_tag is_long ++ rest)) ≡ some (length a)
opens_at is_long a rest h =
    open_at-skip a (open_tag is_long ++ rest) h
    ∙ ap (shift (length a)) (open_at-tag is_long rest)
    ∙ ap some (omega arith)

-- A block that is closed goes with its tags, whatever stands in it but its closing tag; the text in
-- front of it, which holds no `<`, stays, and so does what the function leaves of the text behind it.
pub strip_think_blocks-closed :
    (is_long : Bool) (a b c : List ℕ)
    → has_no_angle a ≡ true
    → find (close_tag is_long) (b ++ close_tag is_long) ≡ some (length b)
    → strip_think_blocks (a ++ (open_tag is_long ++ ((b ++ close_tag is_long) ++ c)))
      ≡ a ++ strip_think_blocks c
unfolding strip_think_blocks
strip_think_blocks-closed is_long a b c clear closes =
    let rest = open_tag is_long ++ ((b ++ close_tag is_long) ++ c) in
    let here = opens_at is_long a ((b ++ close_tag is_long) ++ c) clear in
    let behind_it : after_block (drop (length a) (a ++ rest)) ≡ some c =
      ap after_block (drop-append a rest) ∙ after_block-closed is_long b c closes in
    let shorter = after_block-shorter (drop (length a) (a ++ rest)) c behind_it in
    let size = length-drop (length a) (a ++ rest) in
    strip_rounds-closed (length (a ++ rest)) (a ++ rest) (length a) c here behind_it
    ∙ ap (λ front. front ++ strip_rounds (length (a ++ rest)) c) (take-append a rest)
    ∙ ap (a ++◌)
        (strip_rounds-fuel (length (a ++ rest)) (suc (length c)) c (omega arith) (omega arith))

append-nil : (xs : List ℕ) → xs ++ [] ≡ xs
append-nil [] = refl
append-nil (x ∷ xs) = ap (x ∷◌) (append-nil xs)

-- A block that is never closed takes the rest of the text with it: only the text in front of it, which
-- holds no `<`, is left.
pub strip_think_blocks-unclosed :
    (is_long : Bool) (a b : List ℕ)
    → has_no_angle a ≡ true
    → find (close_tag is_long) b ≡ none
    → strip_think_blocks (a ++ (open_tag is_long ++ b)) ≡ a
unfolding strip_think_blocks
strip_think_blocks-unclosed is_long a b clear unclosed =
    let rest = open_tag is_long ++ b in
    let behind_it : after_block (drop (length a) (a ++ rest)) ≡ none =
      ap after_block (drop-append a rest)
      ∙ after_block-tag is_long b
      ∙ behind-none (close_tag is_long) b unclosed in
    strip_rounds-open (length (a ++ rest)) (a ++ rest) (length a) (opens_at is_long a b clear)
      behind_it
    ∙ append-nil (take (length a) (a ++ rest))
    ∙ take-append a rest
