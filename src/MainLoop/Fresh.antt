-- ===== src/MainLoop/Fresh.antt =====
-- The warm session of xiaoai-agent/src/main.rs behind a tick.
use xiaoai_agent.Prelude.{ℕ, ◌-◌, Bool, true, false, not, ◌&&◌, none, some, ltb}
use xiaoai_agent.MainLoop.{Main, warm_session_max_age}
use xiaoai_agent.MainLoop.Inv.{Inv}

-- The warm session, if there is one, lives, and is known to be young at the time.
abbrev pub is_fresh : ℕ → Main → Bool
is_fresh now s = elim s.warm [
  | none ↦ true
  | some t ↦
      not t.finished
      && elim s.warm_spawned_at [ none ↦ false | some at ↦ ltb (now - at) warm_session_max_age ]
]
