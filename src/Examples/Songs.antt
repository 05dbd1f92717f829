-- ===== src/Examples/Songs.antt =====
-- Runs of the music player: xiaoai-agent/src/music.rs.
use xiaoai_agent.Prelude.{◌≡◌, refl, true, false, List, [], ◌∷◌, ◌++◌, none, some, String}
use xiaoai_agent.Music.Service.{
  QueueItem, MusicService, duck_action, pause_action, resume_audio, pause, interrupt_for_wake,
  restore_after_interruption,
}
use xiaoai_agent.Music.Playlist.{Op, op_query, op_pause, op_interrupt, op_stop}
use xiaoai_agent.Music.Interruption.{matched, restore-interrupt_for_wake, restore-pause}

abbrev item : String → QueueItem
item name = record {
  song = record { id = name; name = name; artists = []; album = ""; duration_ms = none };
  url = name;
}

abbrev pub two_songs : MusicService
two_songs = record {
  state = record {
    current = some (item "a");
    queue = item "b" ∷ [];
    history = [];
    paused = false;
    interruption = none;
  };
  commands = [];
}

abbrev evening : List Op
evening =
    op_query (some (item "a")) true
    ∷ op_interrupt pause_action true
    ∷ op_pause true
    ∷ op_stop false true
    ∷ []

restore-interrupt_for_wake_example :
    restore_after_interruption true (interrupt_for_wake duck_action true two_songs).0
    ≡ record two_songs { commands = two_songs.commands ++ matched duck_action }
restore-interrupt_for_wake_example = restore-interrupt_for_wake duck_action two_songs refl refl refl

restore-pause_example :
    let paused = (pause true (interrupt_for_wake pause_action true two_songs).0).0 in
    (paused.state.paused ≡ true)
    × ((restore_after_interruption true paused).state ≡ two_songs.state)
    × ((restore_after_interruption true paused).commands ≡ paused.commands ++ resume_audio ∷ [])
restore-pause_example = restore-pause two_songs refl refl refl
