-- ===== src/Music/Playlist.antt =====
-- The order of the songs under `MusicService` in xiaoai-agent/src/music.rs, and what `paused` says.
use xiaoai_agent.Prelude.{
  ◌≡◌, ◌⊎◌, inl, refl, Bool, true, false, List, [], ◌∷◌, Option, none, some, arith,
}
use xiaoai_agent.Music.Service.{
  QueueItem, InterruptionAction, MusicState, MusicService, music_new, has_current, push_current,
  play_next_from_queue, play_previous_from_history, next, previous, play_query, add_to_queue,
  add_random, play_random, pause, resume, stop, interrupt_check, interrupt_commit,
  interrupt_for_wake, restore_take, restore_commit, restore_after_interruption, enqueue,
}

-- `xs` in reverse before `ys`.
abbrev pub rev_append {ℓ} : {A : Type ℓ} → List A → List A → List A
rev_append [] ys = ys
rev_append (x ∷ xs) ys = rev_append xs (x ∷ ys)

-- All songs in the order of play.
unfoldable pub playlist : MusicState → List QueueItem
playlist s = rev_append s.history (push_current s.current s.queue)

next_keeps :
    (ok : Bool) (m : MusicService) (current : Option QueueItem) (queue : List QueueItem)
    → m.state.current ≡ current
    → m.state.queue ≡ queue
    → playlist (next ok m).0.state ≡ playlist m.state
unfolding playlist next play_next_from_queue
next_keeps ok m none [] hc hq = ground arith
next_keeps ok m none (item ∷ rest) hc hq = ground arith
next_keeps ok m (some c) [] hc hq = ground arith
next_keeps ok m (some c) (item ∷ rest) hc hq = ground arith

previous_keeps :
    (ok : Bool) (m : MusicService) (current : Option QueueItem) (history : List QueueItem)
    → m.state.current ≡ current
    → m.state.history ≡ history
    → playlist (previous ok m).0.state ≡ playlist m.state
unfolding playlist previous play_previous_from_history
previous_keeps ok m none [] hc hq = ground arith
previous_keeps ok m none (item ∷ rest) hc hq = ground arith
previous_keeps ok m (some c) [] hc hq = ground arith
previous_keeps ok m (some c) (item ∷ rest) hc hq = ground arith

-- Neither `next` nor `previous` loses, repeats or reorders a song, whether there is one to go to or not
-- and whether the loudspeaker takes the command or not.
next-playlist :
    (ok : Bool) (m : MusicService)
    → (playlist (next ok m).0.state ≡ playlist m.state)
      × (playlist (previous ok m).0.state ≡ playlist m.state)
unfolding playlist next previous play_next_from_queue play_previous_from_history
next-playlist ok m = (
  next_keeps ok m m.state.current m.state.queue refl refl,
  previous_keeps ok m m.state.current m.state.history refl refl,
)

-- With a current song and one that waits, `previous` after `next` is back at the same songs, with the
-- music not paused.
pub previous-next :
    (a b : Bool) (m : MusicService) (c item : QueueItem) (rest : List QueueItem)
    → m.state.current ≡ some c
    → m.state.queue ≡ item ∷ rest
    → (previous b (next a m).0).0.state ≡ record m.state { paused = false }
unfolding next previous play_next_from_queue play_previous_from_history
previous-next a b m c item rest hc hq = ground arith

-- One operation of the service, with the answers of the commands that it sends.
pub data Op : Type 0 where
  op_next op_previous op_pause op_resume op_restore : Bool → Op
  op_query : Option QueueItem → Bool → Op
  op_add op_random op_play_random : List QueueItem → Bool → Op
  op_stop : Bool → Bool → Op
  op_interrupt : InterruptionAction → Bool → Op

unfoldable pub run_op : Op → MusicService → MusicService
run_op (op_next ok) m = (next ok m).0
run_op (op_previous ok) m = (previous ok m).0
run_op (op_pause ok) m = (pause ok m).0
run_op (op_resume ok) m = (resume ok m).0
run_op (op_restore ok) m = restore_after_interruption ok m
run_op (op_query item ok) m = (play_query item ok m).0
run_op (op_add items ok) m = (add_to_queue items ok m).0
run_op (op_random items ok) m = (add_random items ok m).0
run_op (op_play_random items ok) m = (play_random items ok m).0
run_op (op_stop restored ok) m = (stop restored ok m).0
run_op (op_interrupt mode ok) m = (interrupt_for_wake mode ok m).0

unfoldable pub run_ops : List Op → MusicService → MusicService
unfolding run_op
run_ops [] m = m
run_ops (op ∷ ops) m = run_ops ops (run_op op m)

-- Only a current song is paused.
abbrev pub IsSettled : MusicState → Type 0
IsSettled s = (s.paused ≡ false) ⊎ (has_current s ≡ true)

play_next-IsSettled :
    (ok : Bool) (m : MusicService)
    → IsSettled m.state
    → IsSettled (play_next_from_queue ok m).0.state
unfolding play_next_from_queue
play_next-IsSettled ok m h = ground arith

restore-IsSettled :
    (ok : Bool) (m : MusicService)
    → IsSettled m.state
    → IsSettled (restore_after_interruption ok m).state
unfolding restore_after_interruption restore_take restore_commit
restore-IsSettled ok m h = ground arith

run_op-IsSettled : (op : Op) (m : MusicService) → IsSettled m.state → IsSettled (run_op op m).state
unfolding run_op next previous pause resume play_query add_to_queue add_random play_random stop
    interrupt_for_wake interrupt_check interrupt_commit play_previous_from_history
run_op-IsSettled (op_next ok) m h = play_next-IsSettled ok m h
run_op-IsSettled (op_previous ok) m h = ground arith
run_op-IsSettled (op_pause ok) m h = ground arith
run_op-IsSettled (op_resume ok) m h = ground arith
run_op-IsSettled (op_restore ok) m h = restore-IsSettled ok m h
run_op-IsSettled (op_query none ok) m h = h
run_op-IsSettled (op_query (some item) ok) m h = ground arith
run_op-IsSettled (op_add [] ok) m h = h
run_op-IsSettled (op_add (item ∷ items) ok) m h =
    ground (arith, play_next-IsSettled ok (enqueue (item ∷ items) m) h)
run_op-IsSettled (op_random [] ok) m h = h
run_op-IsSettled (op_random (item ∷ items) ok) m h =
    ground (arith, play_next-IsSettled ok (enqueue (item ∷ items) m) h)
run_op-IsSettled (op_play_random [] ok) m h = h
run_op-IsSettled (op_play_random (item ∷ items) ok) m h =
    play_next-IsSettled ok
      (record m {
        state = record m.state {
          current = none;
          history = [];
          queue = item ∷ items;
          paused = false;
        };
      })
      (inl refl)
run_op-IsSettled (op_stop restored ok) m h = inl refl
run_op-IsSettled (op_interrupt mode ok) m h = ground arith

run_from : (ops : List Op) (m : MusicService) → IsSettled m.state → IsSettled (run_ops ops m).state
unfolding run_ops
run_from [] m h = h
run_from (op ∷ ops) m h = run_from ops (run_op op m) (run_op-IsSettled op m h)

new-IsSettled : IsSettled music_new.state
unfolding music_new
new-IsSettled = inl refl

-- However the operations follow each other on a new service, and whatever the loudspeaker answers, the
-- service never says that it is paused without a current song.
run_ops-IsSettled : (ops : List Op) → IsSettled (run_ops ops music_new).state
run_ops-IsSettled ops = run_from ops music_new new-IsSettled
