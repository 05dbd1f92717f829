-- ===== src/Airplay/Address.antt =====
-- Hardware addresses as `parse_hwaddr` of xiaoai-agent/src/airplay.rs reads them.
use xiaoai_agent.Prelude.{
  ℕ, ◌+◌, ◌*◌, ◌/◌, ◌%◌, ◌<◌, ◌≡◌, refl, ap, ◌∙◌, Bool, true, false, List, [], ◌∷◌, none, some, ltb,
  ◌==◌, length, if◌then◌else◌, arith,
}
use xiaoai_agent.Airplay.{hex_digit, hex_digits, pair_up, parse_hwaddr}

-- A digit as it is usually written, with small or with capital letters.
abbrev pub show_digit : Bool → ℕ → ℕ
show_digit capital d = if ltb d 10 then 48 + d else if capital then 55 + d else 87 + d

-- Bytes with a separator between them.
abbrev pub show_address : Bool → ℕ → List ℕ → List ℕ
show_address capital separator [] = []
show_address capital separator (b ∷ []) =
    show_digit capital (b / 16) ∷ show_digit capital (b % 16) ∷ []
show_address capital separator (b ∷ c ∷ bs) =
    show_digit capital (b / 16)
    ∷ show_digit capital (b % 16)
    ∷ separator
    ∷ show_address capital separator (c ∷ bs)

abbrev pub AllBytes : List ℕ → Type 0
AllBytes [] = Unit {0}
AllBytes (b ∷ bs) = (b < 256) × AllBytes bs

abbrev nibbles : List ℕ → List ℕ
nibbles [] = []
nibbles (b ∷ bs) = (b / 16) ∷ (b % 16) ∷ nibbles bs

hex_digit-show_digit : (capital : Bool) (d : ℕ) → d < 16 → hex_digit (show_digit capital d) ≡ some d
hex_digit-show_digit true d h = ground arith
hex_digit-show_digit false d h = ground arith

hex_digits-cons :
    (c : ℕ) (cs : List ℕ) {d : ℕ} → hex_digit c ≡ some d → hex_digits (c ∷ cs) ≡ d ∷ hex_digits cs
unfolding hex_digits
hex_digits-cons c cs h = rw (h, hex_digits) refl

hex_digits-skip : (c : ℕ) (cs : List ℕ) → hex_digit c ≡ none → hex_digits (c ∷ cs) ≡ hex_digits cs
unfolding hex_digits
hex_digits-skip c cs h = rw (h, hex_digits) refl

hex_digits-byte :
    (capital : Bool) (b : ℕ) (cs : List ℕ)
    → b < 256
    → hex_digits (show_digit capital (b / 16) ∷ show_digit capital (b % 16) ∷ cs)
      ≡ (b / 16) ∷ (b % 16) ∷ hex_digits cs
hex_digits-byte capital b cs h =
    let high : b / 16 < 16 = omega arith in
    let low : b % 16 < 16 = omega arith in
    hex_digits-cons (show_digit capital (b / 16)) (show_digit capital (b % 16) ∷ cs)
      (hex_digit-show_digit capital (b / 16) high)
    ∙ ap ((b / 16) ∷◌) (
        hex_digits-cons (show_digit capital (b % 16)) cs
          (hex_digit-show_digit capital (b % 16) low))

hex_digits-show_address :
    (capital : Bool) (separator : ℕ) (bs : List ℕ)
    → hex_digit separator ≡ none
    → AllBytes bs
    → hex_digits (show_address capital separator bs) ≡ nibbles bs
unfolding hex_digits
hex_digits-show_address capital separator [] h all = refl
hex_digits-show_address capital separator (b ∷ []) h all = hex_digits-byte capital b [] all.0
hex_digits-show_address capital separator (b ∷ c ∷ bs) h all =
    let rest = show_address capital separator (c ∷ bs) in
    hex_digits-byte capital b (separator ∷ rest) all.0
    ∙ ap (λ (ds : List ℕ). (b / 16) ∷ (b % 16) ∷ ds)
        (hex_digits-skip separator rest h
          ∙ hex_digits-show_address capital separator (c ∷ bs) h all.1)

pair_up-nibbles : (bs : List ℕ) → pair_up (nibbles bs) ≡ bs
pair_up-nibbles [] = refl
pair_up-nibbles (b ∷ bs) = ground (arith, pair_up-nibbles bs)

length-nibbles : (bs : List ℕ) → length (nibbles bs) ≡ 2 * length bs
length-nibbles [] = refl
length-nibbles (b ∷ bs) = ground (arith, length-nibbles bs)

twelve : (n : ℕ) → (2 * n == 12) ≡ (n == 6)
twelve n = ground arith

-- Six bytes that are written in hexadecimal digits, small or capital, with any separator that is no
-- digit are read back as they are; another number of bytes is refused.
pub parse_hwaddr-show_address :
    (capital : Bool) (separator : ℕ) (bs : List ℕ)
    → hex_digit separator ≡ none
    → AllBytes bs
    → parse_hwaddr (show_address capital separator bs) ≡ (if length bs == 6 then some bs else none)
unfolding parse_hwaddr
parse_hwaddr-show_address capital separator bs h all =
    let digits = hex_digits-show_address capital separator bs h all in
    ap (λ (ds : List ℕ). if length ds == 12 then some (pair_up ds) else none) digits
    ∙ ap (λ (n : ℕ). if n == 12 then some (pair_up (nibbles bs)) else none) (length-nibbles bs)
    ∙ ap (λ (t : Bool). if t then some (pair_up (nibbles bs)) else none) (twelve (length bs))
    ∙ ap (λ (cs : List ℕ). if length bs == 6 then some cs else none) (pair_up-nibbles bs)
