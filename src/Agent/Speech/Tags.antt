-- ===== src/Agent/Speech/Tags.antt =====
-- The tags that `strip_think_blocks` of xiaoai-agent/src/agent.rs looks for.
use xiaoai_agent.Prelude.{
  ℕ, ◌+◌, ◌≤◌, ◌≡◌, refl, sym, ap, ◌∙◌, Bool, true, false, not, ◌&&◌, List, [], ◌∷◌, ◌++◌, Option,
  none, some, ◌==◌, take, drop, length, length-append, if◌then◌else◌, arith, Bool-cases, inl, inr,
}
use xiaoai_agent.Agent.Speech.{
  open_think, open_thinking, close_think, close_thinking, starts_with, find, min_option, open_at,
  after_block,
}

-- A text without a `<`.
abbrev pub has_no_angle : List ℕ → Bool
has_no_angle [] = true
has_no_angle (c ∷ cs) = not (60 == c) && has_no_angle cs

abbrev pub open_tag : Bool → List ℕ
open_tag is_long = if is_long then open_thinking else open_think

abbrev pub close_tag : Bool → List ℕ
close_tag is_long = if is_long then close_thinking else close_think

abbrev pub shift : ℕ → Option ℕ → Option ℕ
shift n none = none
shift n (some i) = some (n + i)

pub take-append : (xs ys : List ℕ) → take (length xs) (xs ++ ys) ≡ xs
take-append [] ys = refl
take-append (x ∷ xs) ys = ap (x ∷◌) (take-append xs ys)

pub drop-append : (xs ys : List ℕ) → drop (length xs) (xs ++ ys) ≡ ys
drop-append [] ys = refl
drop-append (x ∷ xs) ys = drop-append xs ys

find-cons :
    (c : ℕ) (tag : List ℕ) (x : ℕ) (xs : List ℕ)
    → (c == x) ≡ false
    → find (c ∷ tag) (x ∷ xs) ≡ shift 1 (find (c ∷ tag) xs)
unfolding find
find-cons c tag x xs h = ground arith

find-skip :
    (tag a rest : List ℕ)
    → has_no_angle a ≡ true
    → find (60 ∷ tag) (a ++ rest) ≡ shift (length a) (find (60 ∷ tag) rest)
find-skip tag [] rest h = ground arith
find-skip tag (c ∷ cs) rest h =
    let other : (60 == c) ≡ false = ground arith in
    let clear : has_no_angle cs ≡ true = ground arith in
    let later = find-skip tag cs rest clear in
    let here = find-cons 60 tag c (cs ++ rest) other in ground arith

min_option-shift :
    (n : ℕ) (a b : Option ℕ) → min_option (shift n a) (shift n b) ≡ shift n (min_option a b)
min_option-shift n none none = refl
min_option-shift n none (some j) = refl
min_option-shift n (some i) none = refl
min_option-shift n (some i) (some j) = ground arith

pub open_at-skip :
    (a rest : List ℕ)
    → has_no_angle a ≡ true
    → open_at (a ++ rest) ≡ shift (length a) (open_at rest)
unfolding open_at
open_at-skip a rest h =
    rw
      (
        find-skip (116 ∷ 104 ∷ 105 ∷ 110 ∷ 107 ∷ 62 ∷ []) a rest h,
        find-skip (116 ∷ 104 ∷ 105 ∷ 110 ∷ 107 ∷ 105 ∷ 110 ∷ 103 ∷ 62 ∷ []) a rest h,
      )
      (min_option-shift (length a) (find open_think rest) (find open_thinking rest))

min_option-zero : (a : Option ℕ) → min_option (some 0) a ≡ some 0
min_option-zero none = refl
min_option-zero (some i) = ground arith

min_option-first : (a : Option ℕ) → min_option (shift 1 a) (some 0) ≡ some 0
min_option-first none = refl
min_option-first (some i) = ground arith

find-here : (tag : List ℕ) (xs : List ℕ) → starts_with tag xs ≡ true → find tag xs ≡ some 0
unfolding find
find-here tag [] h = rw h refl
find-here tag (x ∷ xs) h = rw h refl

find-later :
    (tag : List ℕ) (x : ℕ) (xs : List ℕ)
    → starts_with tag (x ∷ xs) ≡ false
    → find tag (x ∷ xs) ≡ shift 1 (find tag xs)
unfolding find
find-later tag x xs h = ground arith

pub open_at-tag : (is_long : Bool) (rest : List ℕ) → open_at (open_tag is_long ++ rest) ≡ some 0
unfolding open_at
open_at-tag true rest =
    ap (λ a. min_option a (find open_thinking (open_thinking ++ rest)))
      (find-later open_think 60 (drop 1 (open_thinking ++ rest)) refl)
    ∙ ap (min_option (shift 1 (find open_think (drop 1 (open_thinking ++ rest)))))
        (find-here open_thinking (open_thinking ++ rest) refl)
    ∙ min_option-first (find open_think (drop 1 (open_thinking ++ rest)))
open_at-tag false rest =
    ap (λ a. min_option a (find open_thinking (open_think ++ rest)))
      (find-here open_think (open_think ++ rest) refl)
    ∙ min_option-zero (find open_thinking (open_think ++ rest))

-- What `find` answers does not change when something is added behind.
starts_with-more :
    (tag xs ys : List ℕ) → length tag ≤ length xs → starts_with tag (xs ++ ys) ≡ starts_with tag xs
starts_with-more [] xs ys h = ground arith
starts_with-more (t ∷ tag) [] ys h = ground arith
starts_with-more (t ∷ tag) (x ∷ xs) ys h =
    ap ((t == x) &&◌) (starts_with-more tag xs ys (omega arith))

starts_with-length : (tag xs : List ℕ) → starts_with tag xs ≡ true → length tag ≤ length xs
starts_with-length [] xs h = omega arith
starts_with-length (t ∷ tag) [] h = ground arith
starts_with-length (t ∷ tag) (x ∷ xs) h =
    let rest : starts_with tag xs ≡ true = ground arith in
    let shorter = starts_with-length tag xs rest in omega arith

find-nil : (tag : List ℕ) → starts_with tag [] ≡ false → find tag [] ≡ none
unfolding find
find-nil tag h = rw h refl

shift-cases : (a : Option ℕ) (i : ℕ) → shift 1 a ≡ some i → (j : ℕ) × (a ≡ some j) × (i ≡ 1 + j)
shift-cases none i h = ground arith
shift-cases (some j) i h = (j, refl, ground arith)

some-inj : (i j : ℕ) → some i ≡ some j → i ≡ j
some-inj i j h = ground arith

find-fits_here :
    (tag xs : List ℕ) (i : ℕ)
    → starts_with tag xs ≡ true
    → find tag xs ≡ some i
    → i + length tag ≤ length xs
find-fits_here tag xs i here h =
    let zero_at = some-inj 0 i (sym (find-here tag xs here) ∙ h) in
    let shorter = starts_with-length tag xs here in omega arith

pub find-fits : (tag xs : List ℕ) (i : ℕ) → find tag xs ≡ some i → i + length tag ≤ length xs
find-fits tag [] i h = elim (Bool-cases (starts_with tag [])) [
  | inl here ↦ find-fits_here tag [] i here h
  | inr apart ↦ let absurd = sym (find-nil tag apart) ∙ h in ground arith
]
find-fits tag (x ∷ xs) i h = elim (Bool-cases (starts_with tag (x ∷ xs))) [
  | inl here ↦ find-fits_here tag (x ∷ xs) i here h
  | inr apart ↦
      let (j, later, i_is) = shift-cases (find tag xs) i (sym (find-later tag x xs apart) ∙ h) in
      let fits = find-fits tag xs j later in omega arith
]

find-more : (tag xs ys : List ℕ) (i : ℕ) → find tag xs ≡ some i → find tag (xs ++ ys) ≡ some i
find-more tag [] ys i h = elim (Bool-cases (starts_with tag [])) [
  | inl here ↦
      find-here tag ys (starts_with-more tag [] ys (starts_with-length tag [] here) ∙ here)
      ∙ sym (find-here tag [] here)
      ∙ h
  | inr apart ↦ let absurd = sym (find-nil tag apart) ∙ h in ground arith
]
find-more tag (x ∷ xs) ys i h =
    let fits : length tag ≤ length (x ∷ xs) =
      (let whole = find-fits tag (x ∷ xs) i h in omega arith) in
    let same = starts_with-more tag (x ∷ xs) ys fits in
    elim (Bool-cases (starts_with tag (x ∷ xs))) [
      | inl here ↦
          find-here tag (x ∷ xs ++ ys) (same ∙ here) ∙ sym (find-here tag (x ∷ xs) here) ∙ h
      | inr apart ↦
          let (j, later, i_is) =
            shift-cases (find tag xs) i (sym (find-later tag x xs apart) ∙ h) in
          find-later tag x (xs ++ ys) (same ∙ apart)
          ∙ ap (shift 1) (find-more tag xs ys j later)
          ∙ ap some (sym i_is)
    ]

pub after_block-tag :
    (is_long : Bool) (body : List ℕ)
    → after_block (open_tag is_long ++ body) ≡ elim (find (close_tag is_long) body) [
      | none ↦ none
      | some i ↦ some (drop (i + length (close_tag is_long)) body)
    ]
unfolding after_block
after_block-tag true body = refl
after_block-tag false body = refl

drop-more : (n : ℕ) (xs ys : List ℕ) → length xs ≡ n → drop n (xs ++ ys) ≡ ys
drop-more n xs ys h = ap (λ m. drop m (xs ++ ys)) (sym h) ∙ drop-append xs ys

-- `b` is closed by the tag at its end.
pub after_block-closed :
    (is_long : Bool) (b c : List ℕ)
    → find (close_tag is_long) (b ++ close_tag is_long) ≡ some (length b)
    → after_block (open_tag is_long ++ ((b ++ close_tag is_long) ++ c)) ≡ some c
after_block-closed is_long b c h =
    let close = close_tag is_long in
    after_block-tag is_long ((b ++ close) ++ c)
    ∙ ap
        (λ at. elim at [
          | none ↦ none
          | some i ↦ some (drop (i + length close) ((b ++ close) ++ c))
        ])
        (find-more close (b ++ close) c (length b) h)
    ∙ ap some (drop-more (length b + length close) (b ++ close) c (length-append b close))
