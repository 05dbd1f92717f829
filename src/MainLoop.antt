-- ===== src/MainLoop.antt =====
-- The main loop of xiaoai-agent/src/main.rs: the turn that is active, the session that is kept warm,
-- and what a wake word and a tick of the clock do to them. Times are milliseconds. Whether a session
-- can be spawned and whether a cancelled one ends well, what the loudspeaker answers and what the MCP client says are arguments; the tasks
-- of the turns end by events of their own.
pub mod Inv
pub mod Fresh
pub mod Wakes
pub mod Sound
use xiaoai_agent.Prelude.{
  ℕ, ◌+◌, ◌-◌, Bool, true, false, not, ◌&&◌, ◌||◌, List, [], ◌∷◌, Option, none, some, leb, ◌==◌,
  if◌then◌else◌,
}
use xiaoai_agent.Music.Service.{
  MusicService, InterruptionAction, interrupt_for_wake, restore_after_interruption,
}
use xiaoai_agent.Airplay.{PlaybackState, airplay_interrupt, airplay_restore}

-- `ActiveTurn`: a session of Qwen, or a legacy turn.
pub record ActiveTurn : Type 0 where
  pub is_native : Bool
  pub finished : Bool
  pub activated : Bool

-- What the loop asks of the rest of the program, as far as it is not state here.
pub data Effect : Type 0 where
  interrupted_session stopped_recording aborted_output leds_off reset_session : Effect
  cancelled_session aborted_task joined_task spawned spawn_failed : Effect
  acknowledged blinked reconnected_mcp : Effect

-- The locals of `main`, the flags of `RuntimeStatus`, the sources of sound, and `sessions`, the
-- sessions that are spawned and neither joined nor cancelled.
pub record Main : Type 0 where
  pub active : Option ActiveTurn
  pub warm : Option ActiveTurn
  pub warm_spawned_at : Option ℕ
  pub last_warm_respawn : Option ℕ
  pub last_mcp_reconnect : Option ℕ
  pub last_mcp_generation : ℕ
  pub kws_started : Bool
  pub active_turn : Bool
  pub last_error : Bool
  pub music : MusicService
  pub airplay : PlaybackState
  pub sessions : ℕ
  pub effects : List Effect

abbrev pub warm_respawn_min_interval : ℕ
warm_respawn_min_interval = 5000

abbrev pub warm_session_max_age : ℕ
warm_session_max_age = 240000

abbrev pub mcp_reconnect_min_interval : ℕ
mcp_reconnect_min_interval = 30000

abbrev pub note : Effect → Main → Main
note e s = record s { effects = e ∷ s.effects }

abbrev pub is_some : {A : Type 0} → Option A → Bool
is_some none = false
is_some (some a) = true

-- `is_none_or(|at| at.elapsed() >= interval)`
abbrev pub elapsed : Option ℕ → ℕ → ℕ → Bool
elapsed none now interval = true
elapsed (some at) now interval = leb interval (now - at)

abbrev pub interrupts : ActiveTurn → Bool
interrupts t = if t.finished || not t.activated then false else t.is_native

abbrev pub activate_native : ActiveTurn → ActiveTurn
activate_native t = if t.is_native then record t { activated = true } else t

abbrev pub gone : ActiveTurn → Main → Main
gone t s = if t.is_native then record s { sessions = s.sessions - 1 } else s

-- A session is cancelled and awaited: its task still turns the LEDs off, and shows an error when the
-- session does not end well, but clears none. A legacy task is aborted where it stands.
abbrev pub cancel_for_replacement : Bool → ActiveTurn → Main → Main
cancel_for_replacement ends_well t s =
    let u = note cancelled_session (gone t s) in
    let shown = if ends_well then u else record u { last_error = true } in
    if t.is_native
    then (if t.finished then u else note leds_off shown)
    else if t.finished
    then note joined_task s
    else note aborted_task s

abbrev pub join : ActiveTurn → Main → Main
join t s = note joined_task (gone t s)

abbrev pub new_turn : Bool → ActiveTurn
new_turn is_native = record { is_native = is_native; finished = false; activated = not is_native }

-- What a wake word meets: whether a session can be spawned, the mode of the music and whether its
-- command succeeds, whether an acknowledgement is configured, and whether the session that is
-- cancelled ends well.
pub record Wake : Type 0 where
  pub can_spawn : Bool
  pub mode : InterruptionAction
  pub music_works : Bool
  pub acknowledges : Bool
  pub cancel_ends_well : Bool

-- What a tick meets: the time, the two spawns it may try, the MCP client, and whether the session that
-- it cancels ends well.
pub record Tick : Type 0 where
  pub now : ℕ
  pub can_spawn_after_turn : Bool
  pub can_respawn : Bool
  pub needs_reconnect : Bool
  pub generation : ℕ
  pub cancel_ends_well : Bool

abbrev pub drop_active : Wake → Main → Main
drop_active w s = elim s.active [
  | none ↦ s
  | some t ↦ cancel_for_replacement w.cancel_ends_well t (record s { active = none })
]

-- What sounds when the wake word comes is interrupted.
abbrev pub quiet : Wake → Main → Main
quiet w s =
    let (music, music_interrupted) = interrupt_for_wake w.mode w.music_works s.music in
    let (airplay, airplay_interrupted) = airplay_interrupt s.airplay in
    let t = note stopped_recording (record s { music = music; airplay = airplay }) in
    let u = if music_interrupted || airplay_interrupted then t else note aborted_output t in
    note reset_session (note leds_off u)

abbrev pub start_turn : Wake → ActiveTurn → Main → Main
start_turn w t s =
    let u = if w.acknowledges then note acknowledged s else s in
    record u { active = some (activate_native t); active_turn = true }

abbrev pub spawn_and_start : Wake → Main → Main
spawn_and_start w s =
    if w.can_spawn
    then start_turn w (new_turn true) (note spawned (record s { sessions = s.sessions + 1 }))
    else note spawn_failed (record s { active_turn = false; last_error = true })

-- The warm session, if it still lives, or a new one.
abbrev pub start_by : Wake → Option ActiveTurn → Main → Main
start_by w none s = spawn_and_start w (record s { warm_spawned_at = none })
start_by w (some t) s =
    let u = record s { warm = none; warm_spawned_at = none } in
    if t.finished then spawn_and_start w (join t u) else start_turn w t u

abbrev pub start_native : Wake → Main → Main
start_native w s = start_by w s.warm s

abbrev pub start_legacy : Main → Main
start_legacy s = record s { active = some (new_turn false); active_turn = true }

abbrev pub is_interrupted : Main → Bool
is_interrupted s = elim s.active [ none ↦ false | some t ↦ interrupts t ]

-- A wake word; `has_qwen` says whether the runtime is the native one.
unfoldable pub on_keyword : Bool → Wake → Main → Main
on_keyword has_qwen w s =
    let started =
      (let t = quiet w (drop_active w s) in
        if has_qwen then start_native w t else start_legacy t) in
    if is_interrupted s then note interrupted_session s else started

-- The parts of a tick, in their order.
unfoldable pub collect_turn : Bool → Tick → Main → Main
collect_turn has_qwen k s = elim s.active [
  | none ↦ s
  | some t ↦
      let joined = join t (record s { active = none }) in
      let spawns = t.is_native && has_qwen in
      let u =
        if spawns && k.can_spawn_after_turn
        then note spawned (record joined {
          warm = some (new_turn true);
          warm_spawned_at = some k.now;
          sessions = joined.sessions + 1;
        })
        else if spawns
        then record joined { warm = none }
        else joined in
      if t.finished then note blinked (record u { active_turn = false }) else s
]

unfoldable pub reconnect_mcp : Tick → Main → Main
reconnect_mcp k s =
    if not (is_some s.active)
      && (k.needs_reconnect && elapsed s.last_mcp_reconnect k.now mcp_reconnect_min_interval)
    then note reconnected_mcp (record s { last_mcp_reconnect = some k.now })
    else s

abbrev pub cancel_warm : Tick → Main → Main
cancel_warm k s = elim s.warm [
  | none ↦ s
  | some t ↦
      cancel_for_replacement k.cancel_ends_well t (record s { warm = none; warm_spawned_at = none })
]

unfoldable pub follow_generation : Tick → Main → Main
follow_generation k s =
    if k.generation == s.last_mcp_generation
    then s
    else cancel_warm k (record s { last_mcp_generation = k.generation })

abbrev pub too_old : Option ℕ → ℕ → Bool
too_old none now = false
too_old (some at) now = leb warm_session_max_age (now - at)

unfoldable pub rotate_warm : Tick → Main → Main
rotate_warm k s = if is_some s.warm && too_old s.warm_spawned_at k.now then cancel_warm k s else s

unfoldable pub collect_warm : Main → Main
collect_warm s = elim s.warm [
  | none ↦ s
  | some t ↦ if t.finished then join t (record s { warm = none; warm_spawned_at = none }) else s
]

unfoldable pub respawn_warm : Bool → Tick → Main → Main
respawn_warm has_qwen k s =
    if not (is_some s.warm)
      && (not (is_some s.active)
          && (has_qwen && elapsed s.last_warm_respawn k.now warm_respawn_min_interval))
    then (let t = record s { last_warm_respawn = some k.now } in
        if k.can_respawn
        then note spawned (record t {
          warm = some (new_turn true);
          warm_spawned_at = some k.now;
          sessions = t.sessions + 1;
        })
        else note spawn_failed t)
    else s

unfoldable pub on_tick : Bool → Tick → Main → Main
unfolding collect_turn reconnect_mcp follow_generation rotate_warm collect_warm respawn_warm
on_tick has_qwen k s = respawn_warm has_qwen k (
    collect_warm
      (rotate_warm k (follow_generation k (reconnect_mcp k (collect_turn has_qwen k s)))))

-- The end of a session's task, well or with an error.
abbrev pub session_ends : Bool → ActiveTurn → Main → Main
session_ends well t s =
    let u = note leds_off s in
    if well
    then (if t.activated then record u { last_error = false } else u)
    else record u { last_error = true }

-- The end of a legacy turn's task: `run_turn` restores what was interrupted.
abbrev pub legacy_ends : Bool → Bool → Main → Main
legacy_ends well music_works s = record (note leds_off s) {
  music = restore_after_interruption music_works s.music;
  airplay = airplay_restore s.airplay;
  last_error = not well;
  active_turn = false;
}

-- The task of the active turn ends.
unfoldable pub active_ends : Bool → Bool → Main → Main
active_ends well music_works s = elim s.active [
  | none ↦ s
  | some t ↦
      let u = record s { active = some (record t { finished = true }) } in
      if t.finished
      then s
      else if t.is_native
      then session_ends well t u
      else legacy_ends well music_works u
]

-- The task of the warm session ends.
unfoldable pub warm_ends : Bool → Main → Main
warm_ends well s = elim s.warm [
  | none ↦ s
  | some t ↦
      let u = record s { warm = some (record t { finished = true }) } in
      if t.finished then s else session_ends well t u
]

-- What happens, one thing after the other; tools and AirPlay clients change what sounds.
pub data Event : Type 0 where
  kws_ready : Event
  keyword : Wake → Event
  tick : Tick → Event
  active_turn_ends : Bool → Bool → Event
  warm_session_ends : Bool → Event
  sound_changes : MusicService → PlaybackState → Event

unfoldable pub step : Bool → Event → Main → Main
unfolding on_keyword on_tick active_ends warm_ends
step has_qwen kws_ready s = record s { kws_started = true }
step has_qwen (keyword w) s = on_keyword has_qwen w s
step has_qwen (tick k) s = on_tick has_qwen k s
step has_qwen (active_turn_ends well music_works) s = active_ends well music_works s
step has_qwen (warm_session_ends well) s = warm_ends well s
step has_qwen (sound_changes music airplay) s = record s { music = music; airplay = airplay }

unfoldable pub run : Bool → List Event → Main → Main
unfolding step
run has_qwen [] s = s
run has_qwen (e ∷ events) s = run has_qwen events (step has_qwen e s)

-- The state in front of the loop: with the native runtime a session is warm.
abbrev pub initial : Bool → ℕ → ℕ → MusicService → PlaybackState → Main
initial has_qwen now generation music airplay = record {
  active = none;
  warm = if has_qwen then some (new_turn true) else none;
  warm_spawned_at = if has_qwen then some now else none;
  last_warm_respawn = none;
  last_mcp_reconnect = none;
  last_mcp_generation = generation;
  kws_started = false;
  active_turn = false;
  last_error = false;
  music = music;
  airplay = airplay;
  sessions = if has_qwen then 1 else 0;
  effects = [];
}
