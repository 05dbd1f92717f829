-- ===== src/Agent/Speech.antt =====
-- `sanitize_speech_text` and `strip_think_blocks` of xiaoai-agent/src/agent.rs. A text is the list of its
-- code points; the source counts bytes, but only between the ends of whole characters.
pub mod Tags
pub mod Blocks
pub mod Speakable
pub mod Collapsed
pub mod Lines
use xiaoai_agent.Prelude.{
  ℕ, zero, suc, ◌+◌, ◌≤◌, Bool, true, false, not, ◌&&◌, ◌||◌, List, [], ◌∷◌, ◌++◌, Option, none,
  some, leb, ltb, ◌==◌, take, drop, length, if◌then◌else◌,
}
use xiaoai_agent.Prelude.Texts.{is_space}

abbrev pub open_think : List ℕ
open_think = 60 ∷ 116 ∷ 104 ∷ 105 ∷ 110 ∷ 107 ∷ 62 ∷ []

abbrev pub open_thinking : List ℕ
open_thinking = 60 ∷ 116 ∷ 104 ∷ 105 ∷ 110 ∷ 107 ∷ 105 ∷ 110 ∷ 103 ∷ 62 ∷ []

abbrev pub close_think : List ℕ
close_think = 60 ∷ 47 ∷ 116 ∷ 104 ∷ 105 ∷ 110 ∷ 107 ∷ 62 ∷ []

abbrev pub close_thinking : List ℕ
close_thinking = 60 ∷ 47 ∷ 116 ∷ 104 ∷ 105 ∷ 110 ∷ 107 ∷ 105 ∷ 110 ∷ 103 ∷ 62 ∷ []

abbrev pub starts_with : List ℕ → List ℕ → Bool
starts_with [] xs = true
starts_with (t ∷ tag) [] = false
starts_with (t ∷ tag) (x ∷ xs) = (t == x) && starts_with tag xs

-- `str::find`
unfoldable pub find : List ℕ → List ℕ → Option ℕ
find tag [] = if starts_with tag [] then some 0 else none
find tag (x ∷ xs) =
    let later : Option ℕ = elim (find tag xs) [ none ↦ none | some i ↦ some (suc i) ] in
    if starts_with tag (x ∷ xs) then some 0 else later

abbrev pub min_option : Option ℕ → Option ℕ → Option ℕ
min_option none b = b
min_option (some i) none = some i
min_option (some i) (some j) = if leb i j then some i else some j

unfoldable pub open_at : List ℕ → Option ℕ
unfolding find
open_at rest = min_option (find open_think rest) (find open_thinking rest)

-- What follows the block that begins here, if it is closed.
unfoldable pub after_block : List ℕ → Option (List ℕ)
unfolding find
after_block rest =
    let is_long = starts_with open_thinking rest in
    let body = drop (if is_long then 10 else 7) rest in
    let close = if is_long then close_thinking else close_think in
    elim (find close body) [ none ↦ none | some i ↦ some (drop (i + length close) body) ]

-- The loop, on fuel for its rounds.
unfoldable pub strip_rounds : ℕ → List ℕ → List ℕ
unfolding open_at after_block
strip_rounds zero rest = rest
strip_rounds (suc fuel) rest = elim (open_at rest) [
  | none ↦ rest
  | some start ↦
      take start rest
      ++ elim (after_block (drop start rest)) [ none ↦ [] | some later ↦ strip_rounds fuel later ]
]

-- Every round takes more than one character away.
unfoldable pub strip_think_blocks : List ℕ → List ℕ
unfolding strip_rounds
strip_think_blocks raw = strip_rounds (suc (length raw)) raw

-- `str::lines`: without the line ends, each with the return in front of it, and without an empty line
-- behind the last one.
abbrev pub cons_line : ℕ → List (List ℕ) → List (List ℕ)
cons_line c [] = (c ∷ []) ∷ []
cons_line c (l ∷ ls) = (c ∷ l) ∷ ls

abbrev pub is_line_end : List ℕ → Bool
is_line_end [] = false
is_line_end (c ∷ cs) = c == 10

unfoldable pub split_lines : List ℕ → List (List ℕ)
split_lines [] = []
split_lines (c ∷ cs) =
    let rest = split_lines cs in
    if c == 10 then [] ∷ rest else if c == 13 && is_line_end cs then rest else cons_line c rest

abbrev pub trim_front : List ℕ → List ℕ
trim_front [] = []
trim_front (c ∷ cs) = let rest = trim_front cs in if is_space c then rest else c ∷ cs

-- `is_progress_indicator_char`
abbrev pub is_progress_indicator_char : ℕ → Bool
is_progress_indicator_char c =
    (leb 8592 c && leb c 8703)
    || ((leb 9728 c && leb c 10175)
        || ((leb 11008 c && leb c 11263)
            || ((leb 126976 c && leb c 129791) || (leb 65024 c && leb c 65039))))

abbrev pub starts_with_indicator : List ℕ → Bool
starts_with_indicator [] = false
starts_with_indicator (c ∷ cs) = is_progress_indicator_char c

abbrev pub is_kept : List ℕ → Bool
is_kept line =
    let trimmed = trim_front line in
    not (starts_with (96 ∷ 96 ∷ 96 ∷ []) trimmed) && not (starts_with_indicator trimmed)

unfoldable pub kept_lines : List (List ℕ) → List (List ℕ)
kept_lines [] = []
kept_lines (l ∷ ls) = let rest = kept_lines ls in if is_kept l then l ∷ rest else rest

abbrev pub join_lines : List (List ℕ) → List ℕ
join_lines [] = []
join_lines (l ∷ []) = l
join_lines (l ∷ m ∷ ls) = l ++ (10 ∷ join_lines (m ∷ ls))

-- The loop over the characters, with the line ends met in a row.
unfoldable pub collapse : ℕ → List ℕ → List ℕ
collapse newlines [] = []
collapse newlines (c ∷ cs) =
    let ended = collapse (newlines + 1) cs in
    let other = collapse 0 cs in
    if c == 10 then (if ltb 2 (newlines + 1) then ended else c ∷ ended) else c ∷ other

abbrev pub trim_back : List ℕ → List ℕ
trim_back [] = []
trim_back (c ∷ cs) = elim (trim_back cs) [
  | [] ↦ if is_space c then [] else c ∷ []
  | d ∷ ds ↦ c ∷ d ∷ ds
]

unfoldable pub sanitize_speech_text : List ℕ → List ℕ
unfolding strip_think_blocks split_lines kept_lines collapse
sanitize_speech_text raw =
    let joined = join_lines (kept_lines (split_lines (strip_think_blocks raw))) in
    trim_back (trim_front (collapse 0 joined))
