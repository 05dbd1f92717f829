-- ===== src/MainLoop/Wakes.antt =====
-- The turn of xiaoai-agent/src/main.rs behind a wake word, and the sound around it.
use xiaoai_agent.Prelude.{◌≡◌, true, false, none, some, ◌⊎◌}
use xiaoai_agent.MainLoop.{note, interrupted_session, ActiveTurn, Main, Wake, is_interrupted}
use xiaoai_agent.MainLoop.Inv.{Inv}

-- The active turn is a session that was activated and whose task runs, and the status says so.
abbrev pub Started : Main → Type 0
Started s =
    (t : ActiveTurn) × (s.active ≡ some t)
    × (t.is_native ≡ true)
    × (t.activated ≡ true)
    × (t.finished ≡ false)
    × (s.active_turn ≡ true)

-- No session could be had, and so it is shown.
abbrev pub Unanswered : Wake → Main → Type 0
Unanswered w s =
    (w.can_spawn ≡ false) × (s.active ≡ none) × (s.active_turn ≡ false) × (s.last_error ≡ true)

-- What a wake word makes of a state.
abbrev pub HandedOn : Wake → Main → Main → Type 0
HandedOn w s t =
    ((is_interrupted s ≡ true) × (t ≡ note interrupted_session s))
    ⊎ ((is_interrupted s ≡ false) × (Started t ⊎ Unanswered w t))
