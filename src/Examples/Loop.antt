-- ===== src/Examples/Loop.antt =====
-- Runs of the main loop, xiaoai-agent/src/main.rs, and of the reader of a hardware address,
-- xiaoai-agent/src/airplay.rs.
use xiaoai_agent.Prelude.{ℕ, ◌≡◌, ◌≤◌, refl, true, false, ◌&&◌, List, [], ◌∷◌, some, arith}
use xiaoai_agent.Music.Service.{pause_action, interrupt_for_wake, interrupt_check}
use xiaoai_agent.Airplay.{PlaybackState, parse_hwaddr, airplay_interrupt}
use xiaoai_agent.Airplay.Address.{show_address, parse_hwaddr-show_address}
use xiaoai_agent.Examples.Songs.{two_songs}
use xiaoai_agent.MainLoop.{
  Wake, Tick, Event, keyword, tick, active_turn_ends, warm_session_ends, is_some, step, run,
  initial, on_keyword,
}
use xiaoai_agent.MainLoop.Inv.{one_session}
use xiaoai_agent.MainLoop.Sound.{native-keeps_interrupted}

abbrev address : List ℕ
address = 161 ∷ 178 ∷ 3 ∷ 0 ∷ 255 ∷ 16 ∷ []

parse_hwaddr-show_address_example : parse_hwaddr (show_address true 58 address) ≡ some address
parse_hwaddr-show_address_example =
    parse_hwaddr-show_address true 58 address refl
      (omega arith, (omega arith, (omega arith, (omega arith, (omega arith, (omega arith, tt))))))

abbrev wake : Wake
wake = record {
  can_spawn = true;
  mode = pause_action;
  music_works = true;
  acknowledges = true;
  cancel_ends_well = true;
}

abbrev tick_at : ℕ → Tick
tick_at time = record {
  now = time;
  can_spawn_after_turn = true;
  can_respawn = true;
  needs_reconnect = false;
  generation = 0;
  cancel_ends_well = false;
}

abbrev streaming : PlaybackState
streaming = record { ducked = false; active_sessions = 1; interruption_mode = "duck" }

-- A wake word, the end of the session it started, and what follows it for a while.
abbrev evening : List Event
evening =
    keyword wake
    ∷ active_turn_ends true true
    ∷ tick (tick_at 20000)
    ∷ tick (tick_at 270000)
    ∷ warm_session_ends false
    ∷ []

one_session_example :
    let s = run true evening (initial true 0 0 two_songs streaming) in
    (s.sessions ≤ 1)
    × (s.active_turn ≡ true → is_some s.active ≡ true)
    × ((is_some s.active && is_some s.warm) ≡ false)
one_session_example = one_session true evening 0 0 two_songs streaming

abbrev first_wake : List Event
first_wake = keyword wake ∷ []

native-keeps_interrupted_example :
    let s = run true first_wake (initial true 0 0 two_songs streaming) in
    ((run true evening s).music ≡ s.music) × ((run true evening s).airplay.ducked ≡ true)
unfolding run step on_keyword interrupt_for_wake interrupt_check airplay_interrupt
native-keeps_interrupted_example =
    native-keeps_interrupted first_wake evening 0 0 two_songs streaming refl refl refl
