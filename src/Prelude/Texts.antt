-- ===== src/Prelude/Texts.antt =====
-- Texts as lists of characters, and what Rust's `str` does on them.
use Prim.Native.Nat.{ℕ}
use Prim.Native.Char.{Char, code}
use Prim.Native.String.{String}
use mathlib.Core.Bool.{Bool, ◌&&◌, ◌||◌}
use mathlib.Core.List.{List, [], ◌∷◌, ◌++◌}
use mathlib.Core.Path.{◌≡◌, refl, ap}
use xiaoai_agent.Prelude.Tests.{leb, ◌==◌, if◌then◌else◌}
use xiaoai_agent.Prelude.Lists.{length}

abbrev pub chars : String → List Char
chars String.[] = []
chars (String.◌∷◌ c s) = c ∷ chars s

abbrev pub of_chars : List Char → String
of_chars [] = String.[]
of_chars (c ∷ cs) = String.◌∷◌ c (of_chars cs)

pub chars-of_chars : (cs : List Char) → chars (of_chars cs) ≡ cs
chars-of_chars [] = refl
chars-of_chars (c ∷ cs) = ap (c ∷◌) (chars-of_chars cs)

-- `str::chars().count()`
abbrev pub char_count : String → ℕ
char_count s = length (chars s)

-- `char::is_whitespace`: the characters with the property White_Space.
abbrev pub is_space : ℕ → Bool
is_space c =
    (leb 9 c && leb c 13)
    || (c == 32)
    || (c == 133)
    || (c == 160)
    || (c == 5760)
    || (leb 8192 c && leb c 8202)
    || (c == 8232)
    || (c == 8233)
    || (c == 8239)
    || (c == 8287)
    || (c == 12288)

unfoldable pub trim_start : List Char → List Char
trim_start [] = []
trim_start (c ∷ cs) = let rest = trim_start cs in if is_space (code c) then rest else c ∷ cs

-- White space at the end goes: a character stays if it or one behind it is none.
abbrev pub keep_inner : Char → List Char → List Char
keep_inner c [] = if is_space (code c) then [] else c ∷ []
keep_inner c (d ∷ ds) = c ∷ d ∷ ds

unfoldable pub trim_end : List Char → List Char
trim_end [] = []
trim_end (c ∷ cs) = keep_inner c (trim_end cs)

-- `str::trim`
unfoldable pub trim_chars : List Char → List Char
unfolding trim_start trim_end
trim_chars cs = trim_end (trim_start cs)

unfoldable pub trim : String → String
unfolding trim_chars
trim s = of_chars (trim_chars (chars s))

trims : trim "  ab c " ≡ "ab c"
unfolding trim
trims = refl

abbrev pub append : String → String → String
append a b = of_chars (chars a ++ chars b)

-- `path.join(".")`
pub join_dots : List String → String
join_dots [] = ""
join_dots (k ∷ []) = k
join_dots (k ∷ j ∷ path) = append k (append "." (join_dots (j ∷ path)))
