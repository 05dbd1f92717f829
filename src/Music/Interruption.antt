-- ===== src/Music/Interruption.antt =====
-- The wake interruption of `MusicService` in xiaoai-agent/src/music.rs.
use xiaoai_agent.Prelude.{
  ◌≡◌, ◌⊎◌, refl, ap, Bool, true, false, List, [], ◌∷◌, ◌++◌, none, some, arith,
}
use xiaoai_agent.Music.Service.{
  InterruptionAction, MusicState, MusicService, has_current, pause, interrupt_check,
  interrupt_commit, interrupt_for_wake, restore_take, restore_commit, restore_after_interruption,
  pause_action, duck_action, none_action, Command, pause_audio, resume_audio, duck_audio,
  unduck_audio,
}

-- The commands of an interruption and of its end.
abbrev pub matched : InterruptionAction → List Command
matched pause_action = pause_audio ∷ resume_audio ∷ []
matched duck_action = duck_audio ∷ unduck_audio ∷ []
matched none_action = []

abbrev pub interrupted : MusicState → Bool
interrupted s = elim s.interruption [ none ↦ false | some action ↦ true ]

append_two {ℓ} : {A : Type ℓ} (xs : List A) (x y : A) → (xs ++ x ∷ []) ++ y ∷ [] ≡ xs ++ x ∷ y ∷ []
append_two [] x y = refl
append_two (z ∷ xs) x y = ap (z ∷◌) (append_two xs x y)

append_nil {ℓ} : {A : Type ℓ} (xs : List A) → xs ≡ xs ++ []
append_nil [] = refl
append_nil (x ∷ xs) = ap (x ∷◌) (append_nil xs)

-- Music that plays when the wake word is heard, with no interruption under way, plays again afterwards
-- exactly as before, when the commands succeed: the state is the same, and what was sent is the command
-- of the mode and the one that undoes it.
pub restore-interrupt_for_wake :
    (mode : InterruptionAction) (m : MusicService)
    → has_current m.state ≡ true
    → m.state.paused ≡ false
    → m.state.interruption ≡ none
    → restore_after_interruption true (interrupt_for_wake mode true m).0
      ≡ record m { commands = m.commands ++ matched mode }
unfolding interrupt_for_wake interrupt_check interrupt_commit restore_after_interruption
    restore_take restore_commit
restore-interrupt_for_wake pause_action m playing running fresh =
    ground (arith, append_two m.commands pause_audio resume_audio)
restore-interrupt_for_wake duck_action m playing running fresh =
    ground (arith, append_two m.commands duck_audio unduck_audio)
restore-interrupt_for_wake none_action m playing running fresh =
    ground (arith, append_nil m.commands)

-- A wake during an interruption, while nothing plays or while the music is paused changes nothing and
-- sends nothing, and the answer says whether an interruption is under way.
pub interrupt_for_wake-frame :
    (mode : InterruptionAction) (ok : Bool) (m : MusicService)
    → (interrupted m.state ≡ true) ⊎ ((has_current m.state ≡ false) ⊎ (m.state.paused ≡ true))
    → interrupt_for_wake mode ok m ≡ (m, interrupted m.state)
unfolding interrupt_for_wake interrupt_check interrupt_commit
interrupt_for_wake-frame mode ok m h = ground arith

-- A pause that the listener asks for during a pausing interruption does not outlast it: the end of the
-- interruption sends `resume_audio` and the service says it is playing.
pub restore-pause :
    (m : MusicService)
    → has_current m.state ≡ true
    → m.state.paused ≡ false
    → m.state.interruption ≡ none
    → let paused = (pause true (interrupt_for_wake pause_action true m).0).0 in
      (paused.state.paused ≡ true)
      × ((restore_after_interruption true paused).state ≡ m.state)
      × ((restore_after_interruption true paused).commands ≡ paused.commands ++ resume_audio ∷ [])
unfolding interrupt_for_wake interrupt_check interrupt_commit restore_after_interruption
    restore_take restore_commit pause
restore-pause m playing running fresh = ground arith
