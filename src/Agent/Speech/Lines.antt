-- ===== src/Agent/Speech/Lines.antt =====
-- The lines of what `sanitize_speech_text` of xiaoai-agent/src/agent.rs hands on.
use xiaoai_agent.Prelude.{
  ℕ, ◌-◌, ◌≤◌, ◌≡◌, refl, sym, ap, ◌∙◌, Bool, true, false, not, ◌&&◌, List, [], ◌∷◌, ◌++◌, ltb,
  ◌==◌, if◌then◌else◌, arith, Bool-cases, inl, inr,
}
use xiaoai_agent.Prelude.Texts.{is_space}
use xiaoai_agent.Agent.Speech.{
  starts_with, split_lines, trim_front, trim_back, kept_lines, join_lines, collapse,
  strip_think_blocks, sanitize_speech_text,
}
use xiaoai_agent.Agent.Speech.Speakable.{
  fence, is_speakable, is_tight, split_lines-one_line, and-intro, kept_lines-all_kept,
  speakable_space, speakable_other, and-left, and-right, join_lines-is_speakable,
}
use xiaoai_agent.Agent.Speech.Collapsed.{
  inside_end, inside_other, collapse-is_speakable, tight-end, tight-other, collapse-is_tight,
}

trim_front-is_speakable :
    (cs : List ℕ) → is_speakable true cs ≡ true → is_speakable true (trim_front cs) ≡ true
trim_front-is_speakable [] h = refl
trim_front-is_speakable (c ∷ cs) h = elim (Bool-cases (is_space c)) [
  | inl space ↦
      ap (λ (b : Bool). is_speakable true (if b then trim_front cs else c ∷ cs)) space
      ∙ trim_front-is_speakable cs (sym (speakable_space c cs space) ∙ h)
  | inr other ↦ ap (λ (b : Bool). is_speakable true (if b then trim_front cs else c ∷ cs)) other ∙ h
]

tight-more : (r t : ℕ) (cs : List ℕ) → r ≤ t → is_tight r cs ≡ true → is_tight t cs ≡ true
tight-more r t [] h g = refl
tight-more r t (c ∷ cs) h g = elim (Bool-cases (c == 10)) [
  | inr apart ↦ tight-other t c cs apart ∙ sym (tight-other r c cs apart) ∙ g
  | inl end ↦
      let parts = sym (tight-end r c cs end) ∙ g in
      let left : ltb 0 t ≡ true =
        (let some_left = and-left (ltb 0 r) (is_tight (r - 1) cs) parts in ground arith) in
      tight-end t c cs end
      ∙ and-intro left (tight-more (r - 1) (t - 1) cs (omega arith) (and-right _ _ parts))
]

-- What a text begins with may go: of a tight text a tight one is left.
tight-tail : (r c : ℕ) (cs : List ℕ) → r ≤ 2 → is_tight r (c ∷ cs) ≡ true → is_tight 2 cs ≡ true
tight-tail r c cs h g = elim (Bool-cases (c == 10)) [
  | inr apart ↦ sym (tight-other r c cs apart) ∙ g
  | inl end ↦ tight-more (r - 1) 2 cs (omega arith) (and-right _ _ (sym (tight-end r c cs end) ∙ g))
]

trim_front-is_tight :
    (r : ℕ) (cs : List ℕ) → r ≤ 2 → is_tight r cs ≡ true → is_tight 2 (trim_front cs) ≡ true
trim_front-is_tight r [] h g = refl
trim_front-is_tight r (c ∷ cs) h g = elim (Bool-cases (is_space c)) [
  | inl space ↦
      ap (λ (b : Bool). is_tight 2 (if b then trim_front cs else c ∷ cs)) space
      ∙ trim_front-is_tight 2 cs (omega arith) (tight-tail r c cs h g)
  | inr other ↦
      ap (λ (b : Bool). is_tight 2 (if b then trim_front cs else c ∷ cs)) other
      ∙ tight-more r 2 (c ∷ cs) h g
]

-- `trim_back` leaves a beginning of its text.
abbrev IsPrefix : List ℕ → List ℕ → Type 0
IsPrefix xs ys = (zs : List ℕ) × (xs ++ zs ≡ ys)

back_prefix :
    (c : ℕ) (cs back zs : List ℕ)
    → back ++ zs ≡ cs
    → IsPrefix (elim back [ [] ↦ if is_space c then [] else c ∷ [] | d ∷ ds ↦ c ∷ d ∷ ds ]) (c ∷ cs)
back_prefix c cs (d ∷ ds) zs whole = (zs, ap (c ∷◌) whole)
back_prefix c cs [] zs whole = elim (Bool-cases (is_space c)) [
  | inl space ↦
      (c ∷ zs, ap (λ (b : Bool). (if b then [] else c ∷ []) ++ (c ∷ zs)) space ∙ ap (c ∷◌) whole)
  | inr other ↦ (zs, ap (λ (b : Bool). (if b then [] else c ∷ []) ++ zs) other ∙ ap (c ∷◌) whole)
]

trim_back-prefix : (cs : List ℕ) → IsPrefix (trim_back cs) cs
trim_back-prefix [] = ([], refl)
trim_back-prefix (c ∷ cs) =
    let (zs, whole) = trim_back-prefix cs in back_prefix c cs (trim_back cs) zs whole

prefix-is_tight : (r : ℕ) (xs zs : List ℕ) → is_tight r (xs ++ zs) ≡ true → is_tight r xs ≡ true
prefix-is_tight r [] zs h = refl
prefix-is_tight r (c ∷ cs) zs h = elim (Bool-cases (c == 10)) [
  | inr apart ↦
      tight-other r c cs apart
      ∙ prefix-is_tight 2 cs zs (sym (tight-other r c (cs ++ zs) apart) ∙ h)
  | inl end ↦
      let parts = sym (tight-end r c (cs ++ zs) end) ∙ h in
      tight-end r c cs end
      ∙ and-intro (and-left _ _ parts) (prefix-is_tight (r - 1) cs zs (and-right _ _ parts))
]

fence-prefix :
    (tag xs zs : List ℕ) → starts_with tag (xs ++ zs) ≡ false → starts_with tag xs ≡ false
fence-prefix [] xs zs h = ground arith
fence-prefix (t ∷ tag) [] zs h = refl
fence-prefix (t ∷ tag) (x ∷ xs) zs h = elim (Bool-cases (t == x)) [
  | inl same ↦
      let later =
        fence-prefix tag xs zs (sym (ap (λ b. b && starts_with tag (xs ++ zs)) same) ∙ h) in
      ap (λ b. b && starts_with tag xs) same ∙ later
  | inr apart ↦ ap (λ b. b && starts_with tag xs) apart
]

not-true : (b : Bool) → not b ≡ true → b ≡ false
not-true b h = ground arith

prefix-is_speakable :
    (begins : Bool) (xs zs : List ℕ)
    → is_speakable begins (xs ++ zs) ≡ true
    → is_speakable begins xs ≡ true
prefix-is_speakable begins [] zs h = refl
prefix-is_speakable false (c ∷ cs) zs h = elim (Bool-cases (c == 10)) [
  | inl end ↦
      inside_end c cs end ∙ prefix-is_speakable true cs zs (sym (inside_end c (cs ++ zs) end) ∙ h)
  | inr apart ↦
      inside_other c cs apart
      ∙ prefix-is_speakable false cs zs (sym (inside_other c (cs ++ zs) apart) ∙ h)
]
prefix-is_speakable true (c ∷ cs) zs h = elim (Bool-cases (is_space c)) [
  | inl space ↦
      speakable_space c cs space
      ∙ prefix-is_speakable true cs zs (sym (speakable_space c (cs ++ zs) space) ∙ h)
  | inr other ↦
      let kept = sym (speakable_other c (cs ++ zs) other) ∙ h in
      speakable_other c cs other
      ∙ and-intro (ap not (fence-prefix fence (c ∷ cs) zs (not-true _ (and-left _ _ kept)))) (
          and-intro (and-left _ _ (and-right _ _ kept))
            (prefix-is_speakable false cs zs (and-right _ _ (and-right _ _ kept))))
]

-- What is spoken has no line that begins, behind its white space, with a code fence or with an
-- indicator of progress, and never more than two line ends in a row.
pub sanitize_speech_text-clean :
    (raw : List ℕ)
    → (is_speakable true (sanitize_speech_text raw) ≡ true)
      × (is_tight 2 (sanitize_speech_text raw) ≡ true)
unfolding sanitize_speech_text
sanitize_speech_text-clean raw =
    let lines = split_lines (strip_think_blocks raw) in
    let joined = join_lines (kept_lines lines) in
    let front = trim_front (collapse 0 joined) in
    let (zs, whole) = trim_back-prefix front in
    let spoken =
      join_lines-is_speakable (kept_lines lines)
        (kept_lines-all_kept lines (split_lines-one_line (strip_think_blocks raw))) in
    let front_spoken =
      trim_front-is_speakable (collapse 0 joined)
        (collapse-is_speakable true 0 joined refl spoken) in
    let front_tight =
      trim_front-is_tight 2 (collapse 0 joined) (omega arith) (collapse-is_tight 0 joined) in
    (
      prefix-is_speakable true (trim_back front) zs (ap (is_speakable true) whole ∙ front_spoken),
      prefix-is_tight 2 (trim_back front) zs (ap (is_tight 2) whole ∙ front_tight),
    )
