-- ===== src/Session/Player/Task.antt =====
-- The player task `run_player` of xiaoai-agent/src/qwen_voice.rs: its `select` loop and the drain
-- behind it. What the channels and the child process do is the list of events; a write that does not
-- end has put its first bytes into the pipe.
pub mod Plays
use xiaoai_agent.Prelude.{
  ℕ, ◌+◌, Bool, true, false, not, ◌&&◌, List, [], ◌∷◌, ◌++◌, Option, none, some, take,
  if◌then◌else◌,
}
use xiaoai_agent.Session.Player.{PlaybackControl, running, drain, shutdown}

-- Behind `construct_player_if_running`: the child, no child since the session has ended, or an error.
pub data SpawnAnswer : Type 0 where
  spawned refused spawn_failed : SpawnAnswer

pub data WriteEnd : Type 0 where
  completed : WriteEnd
  write_cleared write_failed : ℕ → WriteEnd
  write_control : PlaybackControl → ℕ → WriteEnd

pub data Event : Type 0 where
  arrive : List ℕ → Event
  clear_changed : Event
  senders_gone : Event
  control_changed : PlaybackControl → Event
  receive : SpawnAnswer → WriteEnd → Event

-- Why the loop is left.
pub data Ending : Type 0 where
  stopping draining failing : Ending

-- `process` is what the child that runs has been given, `stopped` what each child that was stopped
-- had been given, newest first.
pub record Task : Type 0 where
  pub queue : List (List ℕ)
  pub process : Option (List ℕ)
  pub stopped : List (List ℕ)
  pub may_spawn : Bool
  pub ending : Option Ending

abbrev pub new_task : Task
new_task = record { queue = []; process = none; stopped = []; may_spawn = true; ending = none }

abbrev pub leave : Ending → Task → Task
leave e t = record t { ending = some e }

abbrev pub stop_child : Task → Task
stop_child t = elim t.process [
  | none ↦ t
  | some out ↦ record t { process = none; stopped = out ∷ t.stopped }
]

-- The branch of a clear, the same in the `select` and in the write.
unfoldable pub clear : Bool → Task → Task
clear restart_on_clear t =
    let emptied = record t { queue = [] } in
    if restart_on_clear then stop_child emptied else emptied

abbrev pub on_control : PlaybackControl → Task → Task
on_control running t = t
on_control drain t = leave draining t
on_control shutdown t = leave stopping t

abbrev pub written : List ℕ → List ℕ → Task → Task
written out bytes t = record t { process = some (out ++ bytes) }

-- A control that changes during a write is a drain unless it is a shutdown.
unfoldable pub write_block : Bool → List ℕ → List ℕ → WriteEnd → Task → Task
unfolding clear
write_block restart_on_clear out bytes completed t = written out bytes t
write_block restart_on_clear out bytes (write_cleared n) t =
    clear restart_on_clear (written out (take n bytes) t)
write_block restart_on_clear out bytes (write_failed n) t =
    leave failing (written out (take n bytes) t)
write_block restart_on_clear out bytes (write_control shutdown n) t =
    leave stopping (written out (take n bytes) t)
write_block restart_on_clear out bytes (write_control c n) t =
    leave draining (written out (take n bytes) t)

-- `initial_spawn.take()`, or another child if the player is restarted on a clear.
unfoldable pub with_process : Bool → SpawnAnswer → List ℕ → WriteEnd → Task → Task
unfolding write_block
with_process restart_on_clear spawned bytes end t =
    write_block restart_on_clear [] bytes end (record t { may_spawn = false })
with_process restart_on_clear refused bytes end t = leave stopping (record t { may_spawn = false })
with_process restart_on_clear spawn_failed bytes end t =
    leave failing (record t { may_spawn = false })

unfoldable pub take_block : Bool → SpawnAnswer → List ℕ → WriteEnd → Task → Task
unfolding with_process write_block
take_block restart_on_clear answer bytes end t = elim t.process [
  | some out ↦ write_block restart_on_clear out bytes end t
  | none ↦
      if t.may_spawn
      then with_process restart_on_clear answer bytes end t
      else (if restart_on_clear
          then with_process restart_on_clear answer bytes end t
          else leave stopping t)
]

-- `audio_rx.recv()` yields only when a block is there.
unfoldable pub step : Bool → Event → Task → Task
unfolding clear take_block
step restart_on_clear (arrive bytes) t = record t { queue = t.queue ++ (bytes ∷ []) }
step restart_on_clear clear_changed t = clear restart_on_clear t
step restart_on_clear senders_gone t = leave stopping t
step restart_on_clear (control_changed c) t = on_control c t
step restart_on_clear (receive answer end) t = elim t.queue [
  | [] ↦ t
  | bytes ∷ rest ↦ take_block restart_on_clear answer bytes end (record t { queue = rest })
]

abbrev pub has_ended : Task → Bool
has_ended t = elim t.ending [ none ↦ false | some e ↦ true ]

unfoldable pub player_loop : Bool → List Event → Task → Task
unfolding step
player_loop restart_on_clear [] t = t
player_loop restart_on_clear (e ∷ events) t =
    player_loop restart_on_clear events (if has_ended t then t else step restart_on_clear e t)

abbrev pub flatten : List (List ℕ) → List ℕ
flatten [] = []
flatten (b ∷ bs) = b ++ flatten bs

-- The drain behind the loop, where no write fails: the queue is written if there is a child.
unfoldable pub drain_queue : Task → Task
drain_queue t = elim t.process [
  | none ↦ record t { queue = [] }
  | some out ↦ record t { queue = []; process = some (out ++ flatten t.queue) }
]

-- What the child has been given that is drained at the end.
unfoldable pub run_player : Bool → List Event → Task
unfolding player_loop drain_queue
run_player restart_on_clear events =
    let t = player_loop restart_on_clear events new_task in
    elim t.ending [ none ↦ t | some draining ↦ drain_queue t | some other ↦ stop_child t ]
