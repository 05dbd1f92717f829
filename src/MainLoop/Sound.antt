-- ===== src/MainLoop/Sound.antt =====
-- The music and the AirPlay sound around the turns of xiaoai-agent/src/main.rs.
use xiaoai_agent.Prelude.{
  ℕ, ◌≡◌, refl, Bool, true, false, List, [], ◌∷◌, some, arith, inl, inr, ap, ◌∙◌, Bool-cases,
}
use xiaoai_agent.Music.Service.{MusicService, InterruptionAction, interrupt_for_wake}
use xiaoai_agent.Airplay.{PlaybackState}
use xiaoai_agent.Music.Service.{interrupt_check}
use xiaoai_agent.Airplay.{airplay_interrupt}
use xiaoai_agent.MainLoop.{
  Main, Wake, Tick, Event, kws_ready, keyword, tick, active_turn_ends, warm_session_ends,
  sound_changes, drop_active, quiet, start_native, is_interrupted, on_keyword, collect_turn,
  reconnect_mcp, follow_generation, rotate_warm, collect_warm, respawn_warm, on_tick, active_ends,
  warm_ends, step, run, initial,
}
use xiaoai_agent.MainLoop.Inv.{Inv, of_kind, run-Inv, initial-Inv, step-Inv}

-- The loop alone: nobody else touches the music or the AirPlay sound.
abbrev pub all_silent : List Event → Bool
all_silent [] = true
all_silent (sound_changes music airplay ∷ events) = false
all_silent (_ ∷ events) = all_silent events

interrupt-held :
    (mode : InterruptionAction) (works : Bool) (m : MusicService) {a : InterruptionAction}
    → m.state.interruption ≡ some a
    → (interrupt_for_wake mode works m).0 ≡ m
unfolding interrupt_for_wake interrupt_check
interrupt-held mode works m h = ground arith

duck-held : (p : PlaybackState) → p.ducked ≡ true → (airplay_interrupt p).0.ducked ≡ true
unfolding airplay_interrupt
duck-held p h = ground arith

-- Sound that is held back, and by whom.
abbrev Held : MusicService → Main → Type 0
Held m s = (s.music ≡ m) × (s.airplay.ducked ≡ true)

abbrev Same : (Main → Main) → Type 0
Same f = (s : Main) → ((f s).music ≡ s.music) × ((f s).airplay ≡ s.airplay)

collect_turn-Same : (k : Tick) → Same (collect_turn true k)
unfolding collect_turn
collect_turn-Same k s = ground arith

reconnect_mcp-Same : (k : Tick) → Same (reconnect_mcp k)
unfolding reconnect_mcp
reconnect_mcp-Same k s = ground arith

follow_generation-Same : (k : Tick) → Same (follow_generation k)
unfolding follow_generation
follow_generation-Same k s = ground arith

rotate_warm-Same : (k : Tick) → Same (rotate_warm k)
unfolding rotate_warm
rotate_warm-Same k s = ground arith

collect_warm-Same : Same collect_warm
unfolding collect_warm
collect_warm-Same s = ground arith

respawn_warm-Same : (k : Tick) → Same (respawn_warm true k)
unfolding respawn_warm
respawn_warm-Same k s = ground arith

warm_ends-Same : (well : Bool) → Same (warm_ends well)
unfolding warm_ends
warm_ends-Same well s = ground arith

drop_active-Same : (w : Wake) → Same (drop_active w)
drop_active-Same w s = ground arith

start_native-Same : (w : Wake) → Same (start_native w)
start_native-Same w s = ground arith

quiet_sound :
    (w : Wake) (s : Main)
    → ((quiet w s).music ≡ (interrupt_for_wake w.mode w.music_works s.music).0)
      × ((quiet w s).airplay ≡ (airplay_interrupt s.airplay).0)
quiet_sound w s = ground arith

active_ends-Same :
    (well works : Bool) (s : Main)
    → of_kind true s.active ≡ true
    → ((active_ends well works s).music ≡ s.music)
      × ((active_ends well works s).airplay ≡ s.airplay)
unfolding active_ends
active_ends-Same well works s native = ground arith

Held-same :
    (m : MusicService) (f : Main → Main) (s : Main)
    → ((f s).music ≡ s.music) × ((f s).airplay ≡ s.airplay)
    → Held m s
    → Held m (f s)
Held-same m f s same h = (same.0 ∙ h.0, ap (λ (p : PlaybackState). p.ducked) same.1 ∙ h.1)

quiet-Held :
    (w : Wake) (m : MusicService) (s : Main) {a : InterruptionAction}
    → m.state.interruption ≡ some a
    → Held m s
    → Held m (quiet w s)
quiet-Held w m s pending h =
    let (music, airplay) = quiet_sound w s in
    (
      music
          ∙ ap (λ (x : MusicService). (interrupt_for_wake w.mode w.music_works x).0) h.0
          ∙ interrupt-held w.mode w.music_works m pending,
      ap (λ (p : PlaybackState). p.ducked) airplay ∙ duck-held s.airplay h.1,
    )

on_keyword-Held :
    (w : Wake) (m : MusicService) (s : Main) {a : InterruptionAction}
    → m.state.interruption ≡ some a
    → Held m s
    → Held m (on_keyword true w s)
unfolding on_keyword
on_keyword-Held w m s pending h = elim (Bool-cases (is_interrupted s)) [
  | inl interrupted ↦ rw (interrupted, on_keyword) h
  | inr free ↦
      let dropped = Held-same m (drop_active w) s (drop_active-Same w s) h in
      let quieted = quiet-Held w m (drop_active w s) pending dropped in
      rw (free, on_keyword)
        (Held-same m (start_native w) (quiet w (drop_active w s))
          (start_native-Same w (quiet w (drop_active w s))) quieted)
]

on_tick-Held : (k : Tick) (m : MusicService) (s : Main) → Held m s → Held m (on_tick true k s)
unfolding on_tick
on_tick-Held k m s h =
    let s1 = collect_turn true k s in
    let s2 = reconnect_mcp k s1 in
    let s3 = follow_generation k s2 in
    let s4 = rotate_warm k s3 in
    let s5 = collect_warm s4 in
    Held-same m (respawn_warm true k) s5 (respawn_warm-Same k s5) (
      Held-same m collect_warm s4 (collect_warm-Same s4) (
        Held-same m (rotate_warm k) s3 (rotate_warm-Same k s3) (
          Held-same m (follow_generation k) s2 (follow_generation-Same k s2) (
            Held-same m (reconnect_mcp k) s1 (reconnect_mcp-Same k s1)
              (Held-same m (collect_turn true k) s (collect_turn-Same k s) h)))))

run-Held :
    (events : List Event) (m : MusicService) (s : Main) {a : InterruptionAction}
    → m.state.interruption ≡ some a
    → all_silent events ≡ true
    → Inv true s
    → Held m s
    → Held m (run true events s)
unfolding run step
run-Held [] m s pending silent inv h = h
run-Held (kws_ready ∷ events) m s pending silent inv h =
    run-Held events m (record s { kws_started = true }) pending silent
      (step-Inv true kws_ready s inv) h
run-Held (keyword w ∷ events) m s pending silent inv h =
    run-Held events m (on_keyword true w s) pending silent (step-Inv true (keyword w) s inv)
      (on_keyword-Held w m s pending h)
run-Held (tick k ∷ events) m s pending silent inv h =
    run-Held events m (on_tick true k s) pending silent (step-Inv true (tick k) s inv)
      (on_tick-Held k m s h)
run-Held (active_turn_ends well works ∷ events) m s pending silent inv h =
    run-Held events m (active_ends well works s) pending silent
      (step-Inv true (active_turn_ends well works) s inv)
      (Held-same m (active_ends well works) s (active_ends-Same well works s inv.0) h)
run-Held (warm_session_ends well ∷ events) m s pending silent inv h =
    run-Held events m (warm_ends well s) pending silent
      (step-Inv true (warm_session_ends well) s inv)
      (Held-same m (warm_ends well) s (warm_ends-Same well s) h)
run-Held (sound_changes music airplay ∷ events) m s pending silent inv h = ground arith

-- With the native runtime the loop never gives the sound back: once a wake word has interrupted the
-- music and lowered AirPlay, every later wake word, tick and end of a session leaves the music service
-- just as it is, interruption and pause included, and AirPlay lowered.
pub native-keeps_interrupted :
    (before after : List Event) (now generation : ℕ) (music : MusicService)
    (airplay : PlaybackState) {a : InterruptionAction}
    → let s = run true before (initial true now generation music airplay) in
      s.music.state.interruption ≡ some a
      → s.airplay.ducked ≡ true
      → all_silent after ≡ true
      → ((run true after s).music ≡ s.music) × ((run true after s).airplay.ducked ≡ true)
native-keeps_interrupted before after now generation music airplay pending ducked silent =
    let start = initial true now generation music airplay in
    let s = run true before start in
    run-Held after s.music s pending silent
      (run-Inv true before start (initial-Inv true now generation music airplay)) (refl, ducked)
