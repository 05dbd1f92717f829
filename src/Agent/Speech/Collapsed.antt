-- ===== src/Agent/Speech/Collapsed.antt =====
-- The line ends that `sanitize_speech_text` of xiaoai-agent/src/agent.rs leaves out.
use xiaoai_agent.Prelude.{
  ℕ, ◌+◌, ◌-◌, ◌≡◌, refl, sym, ap, ◌∙◌, Bool, true, false, not, ◌&&◌, ◌||◌, List, [], ◌∷◌, ltb,
  ◌==◌, if◌then◌else◌, arith, subst, Bool-cases, inl, inr,
}
use xiaoai_agent.Prelude.Texts.{is_space}
use xiaoai_agent.Agent.Speech.{starts_with, collapse}
use xiaoai_agent.Agent.Speech.Speakable.{
  is_speakable, is_tight, has_no_end, and-intro, speakable_space, speakable_other, and-left,
  and-right,
}

fence-collapse :
    (tag cs : List ℕ) → has_no_end tag ≡ true → starts_with tag (collapse 0 cs) ≡ starts_with tag cs
unfolding collapse
fence-collapse [] cs h = ground arith
fence-collapse (t ∷ tag) [] h = refl
fence-collapse (t ∷ tag) (c ∷ cs) h =
    let later = fence-collapse tag cs (and-right (not (t == 10)) (has_no_end tag) h) in ground arith

space-end : (c : ℕ) → (c == 10) ≡ true → is_space c ≡ true
space-end c h = ground arith

-- A line end is left out only where a line begins anyway.
collapse-end :
    (n c : ℕ) (cs : List ℕ)
    → (c == 10) ≡ true
    → collapse n (c ∷ cs) ≡ (if ltb 2 (n + 1) then collapse (n + 1) cs else c ∷ collapse (n + 1) cs)
unfolding collapse
collapse-end n c cs h = rw (h, collapse) refl

collapse-other :
    (n c : ℕ) (cs : List ℕ) → (c == 10) ≡ false → collapse n (c ∷ cs) ≡ c ∷ collapse 0 cs
unfolding collapse
collapse-other n c cs h = rw (h, collapse) refl

if-intro :
    (b : Bool) (x y : List ℕ) (begins : Bool)
    → is_speakable begins x ≡ true
    → is_speakable begins y ≡ true
    → is_speakable begins (if b then x else y) ≡ true
if-intro true x y begins h g = h
if-intro false x y begins h g = g

pub inside_end :
    (c : ℕ) (cs : List ℕ) → (c == 10) ≡ true → is_speakable false (c ∷ cs) ≡ is_speakable true cs
inside_end c cs h = rw h refl

pub inside_other :
    (c : ℕ) (cs : List ℕ) → (c == 10) ≡ false → is_speakable false (c ∷ cs) ≡ is_speakable false cs
inside_other c cs h = rw h refl

pub collapse-is_speakable :
    (begins : Bool) (n : ℕ) (cs : List ℕ)
    → (begins || (n == 0)) ≡ true
    → is_speakable begins cs ≡ true
    → is_speakable begins (collapse n cs) ≡ true
unfolding collapse
collapse-is_speakable begins n [] h g = g
collapse-is_speakable true n (c ∷ cs) h g = elim (Bool-cases (c == 10)) [
  | inl end ↦
      let space = space-end c end in
      let later =
        collapse-is_speakable true (n + 1) cs refl (sym (speakable_space c cs space) ∙ g) in
      ap (is_speakable true) (collapse-end n c cs end)
      ∙ if-intro (ltb 2 (n + 1)) (collapse (n + 1) cs) (c ∷ collapse (n + 1) cs) true later
          (speakable_space c (collapse (n + 1) cs) space ∙ later)
  | inr apart ↦ elim (Bool-cases (is_space c)) [
    | inl space ↦
        ap (is_speakable true) (collapse-other n c cs apart)
        ∙ speakable_space c (collapse 0 cs) space
        ∙ collapse-is_speakable true 0 cs refl (sym (speakable_space c cs space) ∙ g)
    | inr other ↦
        let kept = sym (speakable_other c cs other) ∙ g in
        ap (is_speakable true) (collapse-other n c cs apart)
        ∙ speakable_other c (collapse 0 cs) other
        ∙ and-intro
            (ap (λ b. not ((96 == c) && b)) (fence-collapse (96 ∷ 96 ∷ []) cs refl)
              ∙ and-left _ _ kept)
            (and-intro (and-left _ _ (and-right _ _ kept))
              (collapse-is_speakable false 0 cs refl (and-right _ _ (and-right _ _ kept))))
  ]
]
collapse-is_speakable false n (c ∷ cs) h g = elim (Bool-cases (c == 10)) [
  | inl end ↦
      let later = collapse-is_speakable true (n + 1) cs refl (sym (inside_end c cs end) ∙ g) in
      let kept : ltb 2 (n + 1) ≡ false = ground arith in
      ap (is_speakable false) (collapse-end n c cs end)
      ∙ ap
          (λ (b : Bool).
            is_speakable false (if b then collapse (n + 1) cs else c ∷ collapse (n + 1) cs))
          kept
      ∙ inside_end c (collapse (n + 1) cs) end
      ∙ later
  | inr apart ↦
      ap (is_speakable false) (collapse-other n c cs apart)
      ∙ inside_other c (collapse 0 cs) apart
      ∙ collapse-is_speakable false 0 cs refl (sym (inside_other c cs apart) ∙ g)
]

pub tight-end :
    (room c : ℕ) (cs : List ℕ)
    → (c == 10) ≡ true
    → is_tight room (c ∷ cs) ≡ (ltb 0 room && is_tight (room - 1) cs)
tight-end room c cs h = rw h refl

pub tight-other :
    (room c : ℕ) (cs : List ℕ) → (c == 10) ≡ false → is_tight room (c ∷ cs) ≡ is_tight 2 cs
tight-other room c cs h = rw h refl

-- At most two line ends follow each other.
pub collapse-is_tight : (n : ℕ) (cs : List ℕ) → is_tight (2 - n) (collapse n cs) ≡ true
unfolding collapse
collapse-is_tight n [] = refl
collapse-is_tight n (c ∷ cs) =
    let ended = collapse-is_tight (n + 1) cs in
    let other = collapse-is_tight 0 cs in
    let room : 2 - (n + 1) ≡ 2 - n - 1 = omega arith in
    let ended_room : is_tight (2 - n - 1) (collapse (n + 1) cs) ≡ true =
      subst (λ r. is_tight r (collapse (n + 1) cs) ≡ true) room ended in
    elim (Bool-cases (c == 10)) [
      | inr apart ↦
          ap (is_tight (2 - n)) (collapse-other n c cs apart)
          ∙ tight-other (2 - n) c (collapse 0 cs) apart
          ∙ other
      | inl end ↦ elim (Bool-cases (ltb 2 (n + 1))) [
        | inl many ↦
            let none_left : 2 - n - 1 ≡ 2 - n = ground arith in
            ap (is_tight (2 - n)) (
              collapse-end n c cs end
              ∙ ap (λ (b : Bool). if b then collapse (n + 1) cs else c ∷ collapse (n + 1) cs) many)
            ∙ subst (λ r. is_tight r (collapse (n + 1) cs) ≡ true) none_left ended_room
        | inr few ↦
            let left : ltb 0 (2 - n) ≡ true = ground arith in
            ap (is_tight (2 - n)) (
              collapse-end n c cs end
              ∙ ap (λ (b : Bool). if b then collapse (n + 1) cs else c ∷ collapse (n + 1) cs) few)
            ∙ tight-end (2 - n) c (collapse (n + 1) cs) end
            ∙ and-intro left ended_room
      ]
    ]
