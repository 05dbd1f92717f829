-- ===== src/Config/Validate/Bounds.antt =====
-- The single tests of `validate_update` of xiaoai-agent/src/web/config_store.rs.
use xiaoai_agent.Prelude.{
  ℕ, ◌*◌, ◌^◌, ◌%◌, ◌≤◌, ◌<◌, ◌≡◌, refl, Bool, true, false, not, ◌&&◌, ◌||◌, List, [], ◌∷◌, ◌++◌,
  map, String, str_eq, eq_iff, arith, inl, inr, ◌⊎◌,
}
use xiaoai_agent.Prelude.Texts.{char_count}
use xiaoai_agent.Config.Update.{ok, max_secret_chars}
use xiaoai_agent.Config.Validate.{
  Check, one_bits, is_finite, is_not_positive, in_unit_ball, in_unit_interval, acknowledge_check,
  named_check, run_checks,
}

abbrev pub AllPass : List Check → Type 0
AllPass [] = Unit {0}
AllPass (c ∷ cs) = (c.passes ≡ true) × AllPass cs

pub run_checks-AllPass : (cs : List Check) → run_checks cs ≡ ok tt → AllPass cs
unfolding run_checks
run_checks-AllPass [] h = tt
run_checks-AllPass (c ∷ cs) h = (ground arith, run_checks-AllPass cs (ground arith))

pub AllPass-run_checks : (cs : List Check) → AllPass cs → run_checks cs ≡ ok tt
unfolding run_checks
AllPass-run_checks [] h = refl
AllPass-run_checks (c ∷ cs) h = rw h.0 (AllPass-run_checks cs h.1)

pub AllPass-append : (a b : List Check) → AllPass a → AllPass b → AllPass (a ++ b)
AllPass-append [] b ha hb = hb
AllPass-append (c ∷ a) b ha hb = (ha.0, AllPass-append a b ha.1 hb)

pub AllPass-left : (a b : List Check) → AllPass (a ++ b) → AllPass a
AllPass-left [] b h = tt
AllPass-left (c ∷ a) b h = (h.0, AllPass-left a b h.1)

pub AllPass-right : (a b : List Check) → AllPass (a ++ b) → AllPass b
AllPass-right [] b h = h
AllPass-right (c ∷ a) b h = AllPass-right a b h.1

-- The pattern of a positive finite number.
abbrev pub Positive : ℕ → Type 0
Positive bits = (0 < bits) × (bits < 2047 * 2 ^ 52)

abbrev pub positive_timeout : ℕ → Bool
positive_timeout bits = is_finite bits && not (is_not_positive bits)

pub positive_timeout-Positive : (bits : ℕ) → positive_timeout bits ≡ true → Positive bits
positive_timeout-Positive bits h = ground arith

pub Positive-positive_timeout : (bits : ℕ) → Positive bits → positive_timeout bits ≡ true
Positive-positive_timeout bits h = ground arith

-- The pattern of a number from -1 to 1.
abbrev pub InUnitBall : ℕ → Type 0
InUnitBall bits = bits % 2 ^ 63 ≤ one_bits

pub in_unit_ball-InUnitBall :
    (bits : ℕ) → (is_finite bits && in_unit_ball bits) ≡ true → InUnitBall bits
in_unit_ball-InUnitBall bits h = ground arith

pub InUnitBall-in_unit_ball :
    (bits : ℕ) → InUnitBall bits → (is_finite bits && in_unit_ball bits) ≡ true
InUnitBall-in_unit_ball bits h = ground arith

-- The pattern of a number from 0 to 1; the negative zero is one of them.
abbrev pub InUnitInterval : ℕ → Type 0
InUnitInterval bits = (bits ≤ one_bits) ⊎ (bits ≡ 2 ^ 63)

pub in_unit_interval-InUnitInterval :
    (bits : ℕ) → (is_finite bits && in_unit_interval bits) ≡ true → InUnitInterval bits
in_unit_interval-InUnitInterval bits h = ground arith

pub InUnitInterval-in_unit_interval :
    (bits : ℕ) → InUnitInterval bits → (is_finite bits && in_unit_interval bits) ≡ true
InUnitInterval-in_unit_interval bits (inl h) = ground arith
InUnitInterval-in_unit_interval bits (inr h) = ground arith

abbrev pub Short : String → Type 0
Short s = char_count s ≤ max_secret_chars

abbrev pub AllShort : List String → Type 0
AllShort [] = Unit {0}
AllShort (s ∷ ss) = Short s × AllShort ss

pub acknowledge-AllShort : (ss : List String) → AllPass (map acknowledge_check ss) → AllShort ss
acknowledge-AllShort [] h = tt
acknowledge-AllShort (s ∷ ss) h = (ground arith, acknowledge-AllShort ss h.1)

pub AllShort-acknowledge : (ss : List String) → AllShort ss → AllPass (map acknowledge_check ss)
AllShort-acknowledge [] h = tt
AllShort-acknowledge (s ∷ ss) h = (ground arith, AllShort-acknowledge ss h.1)

abbrev pub AllNamedShort : List (String × String) → Type 0
AllNamedShort [] = Unit {0}
AllNamedShort ((field, value) ∷ rest) = Short value × AllNamedShort rest

pub named-AllNamedShort :
    (ts : List (String × String)) → AllPass (map named_check ts) → AllNamedShort ts
named-AllNamedShort [] h = tt
named-AllNamedShort ((field, value) ∷ ts) h = (ground arith, named-AllNamedShort ts h.1)

pub AllNamedShort-named :
    (ts : List (String × String)) → AllNamedShort ts → AllPass (map named_check ts)
AllNamedShort-named [] h = tt
AllNamedShort-named ((field, value) ∷ ts) h = (ground arith, AllNamedShort-named ts h.1)

pub choice3 :
    (s a b c : String)
    → (str_eq s a || (str_eq s b || (str_eq s c || false))) ≡ true
    → (s ≡ a) ⊎ ((s ≡ b) ⊎ (s ≡ c))
choice3 s a b c h = ground (arith, eq_iff s a, eq_iff s b, eq_iff s c)

pub choice3_back :
    (s a b c : String)
    → (s ≡ a) ⊎ ((s ≡ b) ⊎ (s ≡ c))
    → (str_eq s a || (str_eq s b || (str_eq s c || false))) ≡ true
choice3_back s a b c h = ground (arith, eq_iff s a, eq_iff s b, eq_iff s c)

pub choice2 : (s a b : String) → (str_eq s a || (str_eq s b || false)) ≡ true → (s ≡ a) ⊎ (s ≡ b)
choice2 s a b h = ground (arith, eq_iff s a, eq_iff s b)

pub choice2_back :
    (s a b : String) → (s ≡ a) ⊎ (s ≡ b) → (str_eq s a || (str_eq s b || false)) ≡ true
choice2_back s a b h = ground (arith, eq_iff s a, eq_iff s b)
