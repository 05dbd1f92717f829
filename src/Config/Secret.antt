-- ===== src/Config/Secret.antt =====
-- The secrets of the configuration: `redact_secret` and the modes of an update in
-- xiaoai-agent/src/web/config_store.rs.
use Prim.Native.Char.{Char}
use xiaoai_agent.Prelude.{
  ◌-◌, ◌≤◌, ◌<◌, ◌≡◌, ◌⊎◌, inl, inr, ap, sym, ◌∙◌, Bool, true, false, List, ◌++◌, Option, none,
  some, String, str_eq, leb, length, drop, if◌then◌else◌, arith,
}
use xiaoai_agent.Prelude.Texts.{chars, of_chars, trim}

pub record SecretStatus : Type 0 where
  pub configured : Bool
  pub masked : Option String

pub data SecretMode : Type 0 where
  keep replace clear : SecretMode

pub record SecretUpdate : Type 0 where
  pub mode : SecretMode
  pub value : Option String

abbrev pub unset_status : SecretStatus
unset_status = record { configured = false; masked = none }

-- The four bullets in front of what is shown.
abbrev pub bullets : String
bullets = "••••"

-- The mask of a trimmed secret: its last four characters, if it has more.
unfoldable pub mask : List Char → String
mask secret =
    if leb (length secret) 4
    then bullets
    else of_chars (chars bullets ++ drop (length secret - 4) secret)

-- `redact_secret` behind its `trim`.
unfoldable pub redact_trimmed : String → SecretStatus
unfolding mask
redact_trimmed secret =
    if str_eq secret ""
    then unset_status
    else if str_eq secret "EMPTY"
    then unset_status
    else record { configured = true; masked = some (mask (chars secret)) }

unfoldable pub redact_secret : String → SecretStatus
unfolding redact_trimmed trim
redact_secret secret = redact_trimmed (trim secret)

redact-shown :
    (s : String)
    → (redact_trimmed s).configured ≡ true
    → redact_trimmed s ≡ record { configured = true; masked = some (mask (chars s)) }
unfolding redact_trimmed
redact-shown s h = ground arith

mask-same :
    (a b : List Char)
    → ((length a ≤ 4) × (length b ≤ 4))
      ⊎ ((4 < length a) × (4 < length b) × (drop (length a - 4) a ≡ drop (length b - 4) b))
    → mask a ≡ mask b
unfolding mask
mask-same a b (inl h) = ground arith
mask-same a b (inr h) = ground (arith, ap (λ (t : List Char). of_chars (chars bullets ++ t)) h.2)

-- What is shown of a secret depends on nothing but its last four characters: two configured secrets
-- of more than four characters that agree in those are shown alike, and all shorter ones are.
pub redact_secret-hides :
    (a b : String)
    → (redact_secret a).configured ≡ true
    → (redact_secret b).configured ≡ true
    → ((length (chars (trim a)) ≤ 4) × (length (chars (trim b)) ≤ 4))
      ⊎ ((4 < length (chars (trim a)))
          × (4 < length (chars (trim b)))
          × (drop (length (chars (trim a)) - 4) (chars (trim a))
              ≡ drop (length (chars (trim b)) - 4) (chars (trim b))))
    → redact_secret a ≡ redact_secret b
unfolding redact_secret
redact_secret-hides a b ha hb h =
    redact-shown (trim a) ha
    ∙ ap (λ m. record { configured = true; masked = some m })
        (mask-same (chars (trim a)) (chars (trim b)) h)
    ∙ sym (redact-shown (trim b) hb)
