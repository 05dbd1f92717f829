-- ===== src/Status.antt =====
-- `LogBuffer` of xiaoai-agent/src/web/status.rs.
pub mod Log
use Prim.Native.Char.{Char, code}
use xiaoai_agent.Prelude.{
  ℕ, ◌-◌, Bool, true, false, ◌||◌, List, [], ◌∷◌, ◌++◌, String, str_eq, ltb, ◌==◌, take, drop,
  length, if◌then◌else◌,
}
use xiaoai_agent.Prelude.Texts.{chars, of_chars}

pub record LogBuffer : Type 0 where
  pub entries : List String
  pub capacity : ℕ
  pub max_chars : ℕ

-- `trim_end_matches(['\r', '\n'])`
abbrev pub is_line_end : Char → Bool
is_line_end c = (code c == 13) || (code c == 10)

abbrev pub keep_or_drop : Char → List Char → List Char
keep_or_drop c [] = if is_line_end c then [] else c ∷ []
keep_or_drop c (d ∷ ds) = c ∷ d ∷ ds

abbrev pub trim_line_ends : List Char → List Char
trim_line_ends [] = []
trim_line_ends (c ∷ cs) = keep_or_drop c (trim_line_ends cs)

abbrev pub truncate_chars : String → ℕ → String
truncate_chars value max_chars = of_chars (take max_chars (chars value))

-- `while entries.len() > capacity { entries.pop_front() }`
pub pop_over : {A : Type 0} → ℕ → List A → List A
pop_over capacity [] = []
pop_over capacity (x ∷ xs) =
    let rest = pop_over capacity xs in if ltb capacity (length (x ∷ xs)) then rest else x ∷ xs

unfoldable pub push : String → LogBuffer → LogBuffer
unfolding pop_over
push message b =
    let line = of_chars (trim_line_ends (chars message)) in
    let short = truncate_chars line b.max_chars in
    if str_eq line ""
    then b
    else if str_eq short ""
    then b
    else record b { entries = pop_over b.capacity (b.entries ++ (short ∷ [])) }

unfoldable pub push_all : List String → LogBuffer → LogBuffer
unfolding push
push_all [] b = b
push_all (m ∷ ms) b = push_all ms (push m b)

-- `entries(limit)`: the last ones.
unfoldable pub last_entries : ℕ → LogBuffer → List String
last_entries limit b = drop (length b.entries - limit) b.entries

abbrev pub new_buffer : ℕ → ℕ → LogBuffer
new_buffer capacity max_chars = record { entries = []; capacity = capacity; max_chars = max_chars }
