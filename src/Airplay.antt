-- ===== src/Airplay.antt =====
-- `PlaybackState` and `AirPlayService` of xiaoai-agent/src/airplay.rs as the wake word sees them, and
-- the reader of a hardware address. Gains and the player process are left out.
pub mod Address
use Prim.Native.Char.{Char, code}
use xiaoai_agent.Prelude.{
  ℕ, ◌+◌, ◌-◌, ◌*◌, ◌^◌, ◌%◌, Bool, true, false, ◌&&◌, ◌||◌, List, [], ◌∷◌, Option, none, some,
  String, str_eq, leb, ◌==◌, length, if◌then◌else◌,
}
use xiaoai_agent.Prelude.Texts.{chars}

pub record PlaybackState : Type 0 where
  pub ducked : Bool
  pub active_sessions : ℕ
  pub interruption_mode : String

abbrev pub set_ducked : Bool → PlaybackState → PlaybackState
set_ducked b s = record s { ducked = b }

-- The counters of the sessions wrap as a `usize` of 32 bits does.
abbrev pub session_started : PlaybackState → PlaybackState
session_started s = record s { active_sessions = (s.active_sessions + 1) % 2 ^ 32 }

abbrev pub session_ended : PlaybackState → PlaybackState
session_ended s = record s { active_sessions = (s.active_sessions + (2 ^ 32 - 1)) % 2 ^ 32 }

abbrev pub is_active : PlaybackState → Bool
is_active s = leb 1 s.active_sessions

abbrev pub ducks : String → Bool
ducks mode = str_eq mode "duck" || (str_eq mode "lower_volume" || str_eq mode "volume")

unfoldable pub airplay_interrupt : PlaybackState → PlaybackState × Bool
airplay_interrupt s =
    if is_active s
    then (if ducks s.interruption_mode then (set_ducked true s, true) else (s, false))
    else (s, false)

abbrev pub airplay_restore : PlaybackState → PlaybackState
airplay_restore s = set_ducked false s

-- The value of a hexadecimal digit, `u8::from_str_radix` of one digit.
abbrev pub hex_digit : ℕ → Option ℕ
hex_digit c =
    if leb 48 c && leb c 57
    then some (c - 48)
    else if leb 65 c && leb c 70
    then some (c - 55)
    else if leb 97 c && leb c 102
    then some (c - 87)
    else none

-- `filter(is_ascii_hexdigit)`, with the values of the digits.
unfoldable pub hex_digits : List ℕ → List ℕ
hex_digits [] = []
hex_digits (c ∷ cs) = elim (hex_digit c) [ none ↦ hex_digits cs | some d ↦ d ∷ hex_digits cs ]

-- The digits two by two.
abbrev pub pair_up : List ℕ → List ℕ
pair_up [] = []
pair_up (d ∷ []) = []
pair_up (d ∷ e ∷ ds) = (16 * d + e) ∷ pair_up ds

unfoldable pub parse_hwaddr : List ℕ → Option (List ℕ)
unfolding hex_digits
parse_hwaddr raw = let hex = hex_digits raw in if length hex == 12 then some (pair_up hex) else none
