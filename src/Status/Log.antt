-- ===== src/Status/Log.antt =====
-- The lines in the log of xiaoai-agent/src/web/status.rs.
use mathlib.Core.List.{append_assoc, append-nil}
use xiaoai_agent.Prelude.{
  ℕ, suc, ◌-◌, ◌≡◌, refl, sym, ap, ◌∙◌, true, List, [], ◌∷◌, ◌++◌, String, str_eq, ltb, drop,
  length, if◌then◌else◌, arith, Bool-cases, inl, inr, length-append,
}
use xiaoai_agent.Prelude.Texts.{chars, of_chars}
use xiaoai_agent.Status.{
  LogBuffer, trim_line_ends, truncate_chars, pop_over, push, push_all, new_buffer,
}

-- The lines that are kept of a list of messages, if there is room.
abbrev pub lines_of : ℕ → List String → List String
lines_of max_chars [] = []
lines_of max_chars (m ∷ ms) =
    let line = of_chars (trim_line_ends (chars m)) in
    let short = truncate_chars line max_chars in
    let rest = lines_of max_chars ms in
    if str_eq line "" then rest else if str_eq short "" then rest else short ∷ rest

abbrev pub last : {A : Type 0} → ℕ → List A → List A
last n xs = drop (length xs - n) xs

pop_over-last : {A : Type 0} (n : ℕ) (xs : List A) → pop_over n xs ≡ last n xs
unfolding pop_over
pop_over-last n [] = ground arith
pop_over-last n (x ∷ xs) = elim (Bool-cases (ltb n (length (x ∷ xs)))) [
  | inl over ↦
      let one_more : suc (length xs - n) ≡ length (x ∷ xs) - n = ground arith in
      rw over (pop_over-last n xs ∙ ap (λ (k : ℕ). drop k (x ∷ xs)) one_more)
  | inr fits ↦
      let all : 0 ≡ length (x ∷ xs) - n = ground arith in
      rw fits (ap (λ (k : ℕ). drop k (x ∷ xs)) all)
]

pop_over-again :
    {A : Type 0} (n : ℕ) (xs ys : List A) → pop_over n (pop_over n xs ++ ys) ≡ pop_over n (xs ++ ys)
unfolding pop_over
pop_over-again n [] ys = refl
pop_over-again n (x ∷ xs) ys = elim (Bool-cases (ltb n (length (x ∷ xs)))) [
  | inr fits ↦ rw fits refl
  | inl over ↦
      let longer : ltb n (length (x ∷ (xs ++ ys))) ≡ true = ground (arith, length-append xs ys) in
      rw (over, longer) (pop_over-again n xs ys)
]

-- A buffer whose entries are the last ones of a list.
abbrev holding : ℕ → ℕ → List String → LogBuffer
holding capacity max_chars lines = record {
  entries = pop_over capacity lines;
  capacity = capacity;
  max_chars = max_chars;
}

push-holding :
    (capacity max_chars : ℕ) (lines : List String) (m : String)
    → push m (holding capacity max_chars lines)
      ≡ holding capacity max_chars (lines ++ lines_of max_chars (m ∷ []))
unfolding push
push-holding capacity max_chars lines m =
    let line = of_chars (trim_line_ends (chars m)) in
    let short = truncate_chars line max_chars in
    let nothing : lines ++ [] ≡ lines = append-nil lines in
    elim (Bool-cases (str_eq line "")) [
      | inl empty ↦ rw empty (ap (holding capacity max_chars) (sym nothing))
      | inr full ↦ elim (Bool-cases (str_eq short "")) [
        | inl cut ↦ rw (full, cut) (ap (holding capacity max_chars) (sym nothing))
        | inr text ↦
            rw (full, text)
              (ap
                (λ (es : List String). record {
                  entries = es;
                  capacity = capacity;
                  max_chars = max_chars;
                })
                (pop_over-again capacity lines (short ∷ [])))
      ]
    ]

lines_of-cons :
    (max_chars : ℕ) (m : String) (ms : List String)
    → lines_of max_chars (m ∷ ms) ≡ lines_of max_chars (m ∷ []) ++ lines_of max_chars ms
lines_of-cons max_chars m ms = ground arith

push_all-holding :
    (capacity max_chars : ℕ) (lines ms : List String)
    → push_all ms (holding capacity max_chars lines)
      ≡ holding capacity max_chars (lines ++ lines_of max_chars ms)
unfolding push_all
push_all-holding capacity max_chars lines [] =
    ap (holding capacity max_chars) (sym (append-nil lines))
push_all-holding capacity max_chars lines (m ∷ ms) =
    let one = lines_of max_chars (m ∷ []) in
    ap (push_all ms) (push-holding capacity max_chars lines m)
    ∙ push_all-holding capacity max_chars (lines ++ one) ms
    ∙ ap (holding capacity max_chars) (
        append_assoc lines one (lines_of max_chars ms)
        ∙ ap (lines ++◌) (sym (lines_of-cons max_chars m ms)))

-- Whatever messages are pushed on a new buffer, its entries are the last lines made of them, as many
-- as there is room for; a message makes no line if nothing is left of it.
pub push_all-last :
    (capacity max_chars : ℕ) (ms : List String)
    → (push_all ms (new_buffer capacity max_chars)).entries ≡ last capacity (lines_of max_chars ms)
unfolding pop_over
push_all-last capacity max_chars ms =
    ap (λ (b : LogBuffer). b.entries) (push_all-holding capacity max_chars [] ms)
    ∙ pop_over-last capacity (lines_of max_chars ms)
