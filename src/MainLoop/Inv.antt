-- ===== src/MainLoop/Inv.antt =====
-- The turn, the warm session and the flags of the main loop of xiaoai-agent/src/main.rs.
use xiaoai_agent.Prelude.{
  ℕ, ◌+◌, ◌≤◌, ◌≡◌, refl, Bool, true, false, not, ◌&&◌, ◌||◌, List, [], ◌∷◌, Option, none, some,
  if◌then◌else◌, arith, inl, inr, Bool-cases,
}
use xiaoai_agent.Music.Service.{MusicService}
use xiaoai_agent.Airplay.{PlaybackState}
use xiaoai_agent.MainLoop.{
  ActiveTurn, Main, Wake, Tick, Event, kws_ready, keyword, tick, active_turn_ends,
  warm_session_ends, sound_changes, is_some, drop_active, quiet, start_native, start_legacy,
  is_interrupted, on_keyword, collect_turn, reconnect_mcp, follow_generation, rotate_warm,
  collect_warm, respawn_warm, on_tick, active_ends, warm_ends, step, run, initial,
}

abbrev pub native_count : Option ActiveTurn → ℕ
native_count none = 0
native_count (some t) = if t.is_native then 1 else 0

abbrev pub of_kind : Bool → Option ActiveTurn → Bool
of_kind is_native none = true
of_kind true (some t) = t.is_native
of_kind false (some t) = not t.is_native

abbrev pub all_activated : Option ActiveTurn → Bool
all_activated none = true
all_activated (some t) = t.activated

-- With the native runtime every turn is a session, and a warm one and an active one are never there
-- together; with another runtime no session is there at all.
abbrev pub Inv : Bool → Main → Type 0
Inv has_qwen s =
    (of_kind has_qwen s.active ≡ true)
    × ((if has_qwen then of_kind true s.warm else not (is_some s.warm)) ≡ true)
    × ((is_some s.active && is_some s.warm) ≡ false)
    × (s.sessions ≡ native_count s.active + native_count s.warm)
    × (all_activated s.active ≡ true)
    × ((not (is_some s.warm) || is_some s.warm_spawned_at) ≡ true)
    × ((not s.active_turn || is_some s.active) ≡ true)

abbrev Kept : Bool → (Main → Main) → Type 0
Kept has_qwen f = (s : Main) → Inv has_qwen s → Inv has_qwen (f s)

collect_warm-Inv : (has_qwen : Bool) → Kept has_qwen (collect_warm)
unfolding collect_warm
collect_warm-Inv true s inv = ground arith
collect_warm-Inv false s inv = ground arith

rotate_warm-Inv : (has_qwen : Bool) (k : Tick) → Kept has_qwen (rotate_warm k)
unfolding rotate_warm
rotate_warm-Inv true k s inv = ground arith
rotate_warm-Inv false k s inv = ground arith

pub follow_generation-Inv : (has_qwen : Bool) (k : Tick) → Kept has_qwen (follow_generation k)
unfolding follow_generation
follow_generation-Inv true k s inv = ground arith
follow_generation-Inv false k s inv = ground arith

pub reconnect_mcp-Inv : (has_qwen : Bool) (k : Tick) → Kept has_qwen (reconnect_mcp k)
unfolding reconnect_mcp
reconnect_mcp-Inv true k s inv = ground arith
reconnect_mcp-Inv false k s inv = ground arith

warm_ends-Inv : (has_qwen : Bool) (well : Bool) → Kept has_qwen (warm_ends well)
unfolding warm_ends
warm_ends-Inv true well s inv = ground arith
warm_ends-Inv false well s inv = ground arith

active_ends-Inv : (has_qwen : Bool) (well works : Bool) → Kept has_qwen (active_ends well works)
unfolding active_ends
active_ends-Inv true well works s inv = ground arith
active_ends-Inv false well works s inv = ground arith

respawn_warm-Inv : (has_qwen : Bool) (k : Tick) → Kept has_qwen (respawn_warm has_qwen k)
unfolding respawn_warm
respawn_warm-Inv true k s inv = ground arith
respawn_warm-Inv false k s inv = ground arith

pub collect_turn-Inv : (has_qwen : Bool) (k : Tick) → Kept has_qwen (collect_turn has_qwen k)
unfolding collect_turn
collect_turn-Inv true k s inv = ground arith
collect_turn-Inv false k s inv = ground arith

pub drop_active-Inv :
    (has_qwen : Bool) (w : Wake) (s : Main)
    → Inv has_qwen s
    → Inv has_qwen (record (drop_active w s) { active_turn = false })
drop_active-Inv true w s inv = ground arith
drop_active-Inv false w s inv = ground arith

pub drop_active-none : (w : Wake) (s : Main) → (drop_active w s).active ≡ none
drop_active-none w s = ground arith

-- The facts that a quiet world does not change.
pub quiet-Inv :
    (has_qwen : Bool) (w : Wake) (s : Main)
    → s.active ≡ none
    → Inv has_qwen (record s { active_turn = false })
    → ((quiet w s).active ≡ none) × Inv has_qwen (record (quiet w s) { active_turn = false })
quiet-Inv true w s e inv = ground arith
quiet-Inv false w s e inv = ground arith

start_native-Inv :
    (w : Wake) (s : Main)
    → s.active ≡ none
    → Inv true (record s { active_turn = false })
    → Inv true (start_native w s)
start_native-Inv w s e inv = ground arith

start_legacy-Inv :
    (s : Main)
    → s.active ≡ none
    → Inv false (record s { active_turn = false })
    → Inv false (start_legacy s)
start_legacy-Inv s e inv = ground arith

fresh_turn-Inv :
    (has_qwen : Bool) (w : Wake) (s : Main)
    → Inv has_qwen s
    → Inv has_qwen (
        if has_qwen
        then start_native w (quiet w (drop_active w s))
        else start_legacy (quiet w (drop_active w s)))
fresh_turn-Inv true w s inv =
    let (none_left, kept) =
      quiet-Inv true w (drop_active w s) (drop_active-none w s) (drop_active-Inv true w s inv) in
    start_native-Inv w (quiet w (drop_active w s)) none_left kept
fresh_turn-Inv false w s inv =
    let (none_left, kept) =
      quiet-Inv false w (drop_active w s) (drop_active-none w s) (drop_active-Inv false w s inv) in
    start_legacy-Inv (quiet w (drop_active w s)) none_left kept

on_keyword-Inv : (has_qwen : Bool) (w : Wake) → Kept has_qwen (on_keyword has_qwen w)
unfolding on_keyword
on_keyword-Inv has_qwen w s inv = elim (Bool-cases (is_interrupted s)) [
  | inl interrupted ↦ rw (interrupted, on_keyword) inv
  | inr free ↦ rw (free, on_keyword) (fresh_turn-Inv has_qwen w s inv)
]

on_tick-Inv : (has_qwen : Bool) (k : Tick) → Kept has_qwen (on_tick has_qwen k)
unfolding on_tick
on_tick-Inv has_qwen k s inv =
    let s1 = collect_turn has_qwen k s in
    let s2 = reconnect_mcp k s1 in
    let s3 = follow_generation k s2 in
    let s4 = rotate_warm k s3 in
    respawn_warm-Inv has_qwen k (collect_warm s4) (
      collect_warm-Inv has_qwen s4 (
        rotate_warm-Inv has_qwen k s3 (
          follow_generation-Inv has_qwen k s2
            (reconnect_mcp-Inv has_qwen k s1 (collect_turn-Inv has_qwen k s inv)))))

pub step-Inv : (has_qwen : Bool) (e : Event) → Kept has_qwen (step has_qwen e)
unfolding step
step-Inv has_qwen kws_ready s inv = inv
step-Inv has_qwen (keyword w) s inv = on_keyword-Inv has_qwen w s inv
step-Inv has_qwen (tick k) s inv = on_tick-Inv has_qwen k s inv
step-Inv has_qwen (active_turn_ends well works) s inv = active_ends-Inv has_qwen well works s inv
step-Inv has_qwen (warm_session_ends well) s inv = warm_ends-Inv has_qwen well s inv
step-Inv has_qwen (sound_changes music airplay) s inv = inv

pub run-Inv :
    (has_qwen : Bool) (events : List Event) (s : Main)
    → Inv has_qwen s
    → Inv has_qwen (run has_qwen events s)
unfolding run
run-Inv has_qwen [] s inv = inv
run-Inv has_qwen (e ∷ events) s inv =
    run-Inv has_qwen events (step has_qwen e s) (step-Inv has_qwen e s inv)

pub initial-Inv :
    (has_qwen : Bool) (now generation : ℕ) (music : MusicService) (airplay : PlaybackState)
    → Inv has_qwen (initial has_qwen now generation music airplay)
initial-Inv true now generation music airplay = (refl, refl, refl, refl, refl, refl, refl)
initial-Inv false now generation music airplay = (refl, refl, refl, refl, refl, refl, refl)

-- Whatever happens, and in whatever order, at most one session of Qwen is there, and none with
-- another runtime; the flag of an active turn is set only while there is one; and never are a turn and
-- a warm session there together.
pub one_session :
    (has_qwen : Bool) (events : List Event) (now generation : ℕ) (music : MusicService)
    (airplay : PlaybackState)
    → let s = run has_qwen events (initial has_qwen now generation music airplay) in
      (s.sessions ≤ (if has_qwen then 1 else 0))
      × (s.active_turn ≡ true → is_some s.active ≡ true)
      × ((is_some s.active && is_some s.warm) ≡ false)
one_session true events now generation music airplay =
    let inv =
      run-Inv true events (initial true now generation music airplay)
        (initial-Inv true now generation music airplay) in
    ground arith
one_session false events now generation music airplay =
    let inv =
      run-Inv false events (initial false now generation music airplay)
        (initial-Inv false now generation music airplay) in
    ground arith
