-- ===== src/Agent/Speech/Speakable.antt =====
-- Lines that may be spoken, of `sanitize_speech_text` in xiaoai-agent/src/agent.rs.
use xiaoai_agent.Prelude.{
  ℕ, ◌-◌, ◌≡◌, refl, sym, ap, ◌∙◌, Bool, true, false, not, ◌&&◌, List, [], ◌∷◌, ◌++◌, ltb, ◌==◌,
  if◌then◌else◌, arith, Bool-cases, inl, inr,
}
use xiaoai_agent.Prelude.Texts.{is_space}
use xiaoai_agent.Agent.Speech.{
  starts_with, split_lines, cons_line, is_line_end, trim_front, is_progress_indicator_char,
  starts_with_indicator, is_kept, kept_lines, join_lines,
}

abbrev pub fence : List ℕ
fence = 96 ∷ 96 ∷ 96 ∷ []

-- No line of the text begins, behind its white space, with a fence or with an indicator; `begins` says
-- that only white space of the line has been read so far.
abbrev pub is_speakable : Bool → List ℕ → Bool
is_speakable begins [] = true
is_speakable true (c ∷ cs) =
    let more = is_speakable true cs in
    let inside = is_speakable false cs in
    if is_space c
    then more
    else not (starts_with fence (c ∷ cs)) && (not (is_progress_indicator_char c) && inside)
is_speakable false (c ∷ cs) =
    let line = is_speakable true cs in
    let inside = is_speakable false cs in if c == 10 then line else inside

-- No three line ends follow each other; `room` counts those that may still come.
abbrev pub is_tight : ℕ → List ℕ → Bool
is_tight room [] = true
is_tight room (c ∷ cs) =
    let line = is_tight (room - 1) cs in
    let other = is_tight 2 cs in if c == 10 then ltb 0 room && line else other

abbrev pub has_no_end : List ℕ → Bool
has_no_end [] = true
has_no_end (c ∷ cs) = not (c == 10) && has_no_end cs

pub all_one_line : List (List ℕ) → Bool
all_one_line [] = true
all_one_line (l ∷ ls) = has_no_end l && all_one_line ls

cons_line-one_line :
    (c : ℕ) (ls : List (List ℕ))
    → (c == 10) ≡ false
    → all_one_line ls ≡ true
    → all_one_line (cons_line c ls) ≡ true
unfolding all_one_line
cons_line-one_line c [] h g = ground arith
cons_line-one_line c (l ∷ ls) h g = ground arith

pub split_lines-one_line : (xs : List ℕ) → all_one_line (split_lines xs) ≡ true
unfolding split_lines all_one_line
split_lines-one_line [] = refl
split_lines-one_line (c ∷ cs) =
    let rest = split_lines-one_line cs in
    elim (Bool-cases (c == 10)) [
      | inl h ↦ rw (h, split_lines) rest
      | inr h ↦ elim (Bool-cases (c == 13 && is_line_end cs)) [
        | inl g ↦ rw (h, g, split_lines) rest
        | inr g ↦ rw (h, g, split_lines) (cons_line-one_line c (split_lines cs) h rest)
      ]
    ]

-- Lines that may be spoken, each without a line end.
pub all_kept : List (List ℕ) → Bool
all_kept [] = true
all_kept (l ∷ ls) = (is_kept l && has_no_end l) && all_kept ls

pub and-intro : {a b : Bool} → a ≡ true → b ≡ true → (a && b) ≡ true
and-intro h g = rw (h, g) refl

keep_line-all_kept :
    (kept : Bool) (line : List ℕ) (ls : List (List ℕ))
    → is_kept line ≡ kept
    → has_no_end line ≡ true
    → all_kept ls ≡ true
    → all_kept (if kept then line ∷ ls else ls) ≡ true
unfolding all_kept
keep_line-all_kept true line ls h one rest = and-intro (and-intro h one) rest
keep_line-all_kept false line ls h one rest = rest

pub kept_lines-all_kept :
    (ls : List (List ℕ)) → all_one_line ls ≡ true → all_kept (kept_lines ls) ≡ true
unfolding kept_lines all_one_line all_kept
kept_lines-all_kept [] h = refl
kept_lines-all_kept (l ∷ ls) h =
    keep_line-all_kept (is_kept l) l (kept_lines ls) refl (ground arith)
      (kept_lines-all_kept ls (ground arith))

-- Joining

fence-line :
    (tag l rest : List ℕ)
    → has_no_end tag ≡ true
    → starts_with tag (l ++ (10 ∷ rest)) ≡ starts_with tag l
fence-line [] l rest h = ground arith
fence-line (t ∷ tag) [] rest h = ground arith
fence-line (t ∷ tag) (c ∷ cs) rest h = ap ((t == c) &&◌) (fence-line tag cs rest (ground arith))

inside-line :
    (l rest : List ℕ)
    → has_no_end l ≡ true
    → is_speakable false (l ++ (10 ∷ rest)) ≡ is_speakable true rest
inside-line [] rest h = refl
inside-line (c ∷ cs) rest h = let later = inside-line cs rest (ground arith) in ground arith

inside-last : (l : List ℕ) → has_no_end l ≡ true → is_speakable false l ≡ true
inside-last [] h = refl
inside-last (c ∷ cs) h = let later = inside-last cs (ground arith) in ground arith

-- The test of a kept line, read one character at a time.
is_kept_space : (c : ℕ) (cs : List ℕ) → is_space c ≡ true → is_kept (c ∷ cs) ≡ is_kept cs
is_kept_space c cs h =
    ap
      (λ (space : Bool).
        let trimmed = (if space then trim_front cs else c ∷ cs) in
        not (starts_with fence trimmed) && not (starts_with_indicator trimmed))
      h

is_kept_other :
    (c : ℕ) (cs : List ℕ)
    → is_space c ≡ false
    → is_kept (c ∷ cs) ≡ (not (starts_with fence (c ∷ cs)) && not (is_progress_indicator_char c))
is_kept_other c cs h =
    ap
      (λ (space : Bool).
        let trimmed = (if space then trim_front cs else c ∷ cs) in
        not (starts_with fence trimmed) && not (starts_with_indicator trimmed))
      h

pub speakable_space :
    (c : ℕ) (cs : List ℕ) → is_space c ≡ true → is_speakable true (c ∷ cs) ≡ is_speakable true cs
speakable_space c cs h =
    ap
      (λ (space : Bool).
        if space
        then is_speakable true cs
        else not (starts_with fence (c ∷ cs))
          && (not (is_progress_indicator_char c) && is_speakable false cs))
      h

pub speakable_other :
    (c : ℕ) (cs : List ℕ)
    → is_space c ≡ false
    → is_speakable true (c ∷ cs) ≡ (
        not (starts_with fence (c ∷ cs))
        && (not (is_progress_indicator_char c) && is_speakable false cs))
speakable_other c cs h =
    ap
      (λ (space : Bool).
        if space
        then is_speakable true cs
        else not (starts_with fence (c ∷ cs))
          && (not (is_progress_indicator_char c) && is_speakable false cs))
      h

pub and-left : (a b : Bool) → (a && b) ≡ true → a ≡ true
and-left a b h = ground arith

pub and-right : (a b : Bool) → (a && b) ≡ true → b ≡ true
and-right a b h = ground arith

begin-line :
    (l rest : List ℕ)
    → is_kept l ≡ true
    → has_no_end l ≡ true
    → is_speakable true rest ≡ true
    → is_speakable true (l ++ (10 ∷ rest)) ≡ true
begin-line [] rest h one g = g
begin-line (c ∷ cs) rest h one g = elim (Bool-cases (is_space c)) [
  | inl space ↦
      speakable_space c (cs ++ (10 ∷ rest)) space
      ∙ begin-line cs rest (sym (is_kept_space c cs space) ∙ h) (and-right _ _ one) g
  | inr other ↦
      let kept = sym (is_kept_other c cs other) ∙ h in
      speakable_other c (cs ++ (10 ∷ rest)) other
      ∙ and-intro (ap not (fence-line fence (c ∷ cs) rest refl) ∙ and-left _ _ kept)
          (and-intro (and-right _ _ kept) (inside-line cs rest (and-right _ _ one) ∙ g))
]

begin-last : (l : List ℕ) → is_kept l ≡ true → has_no_end l ≡ true → is_speakable true l ≡ true
begin-last [] h one = refl
begin-last (c ∷ cs) h one = elim (Bool-cases (is_space c)) [
  | inl space ↦
      speakable_space c cs space
      ∙ begin-last cs (sym (is_kept_space c cs space) ∙ h) (and-right _ _ one)
  | inr other ↦
      let kept = sym (is_kept_other c cs other) ∙ h in
      speakable_other c cs other
      ∙ and-intro (and-left _ _ kept)
          (and-intro (and-right _ _ kept) (inside-last cs (and-right _ _ one)))
]

pub join_lines-is_speakable :
    (ls : List (List ℕ)) → all_kept ls ≡ true → is_speakable true (join_lines ls) ≡ true
unfolding all_kept
join_lines-is_speakable [] h = refl
join_lines-is_speakable (l ∷ []) h =
    begin-last l (and-left _ _ (and-left _ _ h)) (and-right _ _ (and-left _ _ h))
join_lines-is_speakable (l ∷ m ∷ ls) h =
    begin-line l (join_lines (m ∷ ls)) (and-left _ _ (and-left _ _ h))
      (and-right _ _ (and-left _ _ h)) (join_lines-is_speakable (m ∷ ls) (and-right _ _ h))
