-- ===== src/Music/Service.antt =====
-- The state of `MusicService` in xiaoai-agent/src/music.rs and its operations. The requests to the
-- music providers and the answers of the loudspeaker's shell commands are arguments: a song that
-- resolved, and whether a command succeeded. The commands sent are recorded.
use xiaoai_agent.Prelude.{
  ℕ, Bool, true, false, ◌||◌, List, [], ◌∷◌, ◌++◌, Option, none, some, String, if◌then◌else◌,
}

-- `fee`, a JSON value that is only passed through, is left out.
pub record Song : Type 0 where
  pub id : String
  pub name : String
  pub artists : List String
  pub album : String
  pub duration_ms : Option ℕ

pub record QueueItem : Type 0 where
  pub song : Song
  pub url : String

pub data InterruptionAction : Type 0 where
  pause_action duck_action none_action : InterruptionAction

pub record MusicState : Type 0 where
  pub current : Option QueueItem
  pub queue : List QueueItem
  pub history : List QueueItem
  pub paused : Bool
  pub interruption : Option InterruptionAction

-- The commands of `Device`, xiaoai-agent/src/device.rs.
pub data Command : Type 0 where
  play_url : String → Command
  pause_audio resume_audio stop_audio duck_audio unduck_audio : Command

pub record MusicService : Type 0 where
  pub state : MusicState
  pub commands : List Command

-- What an operation answers: `playing`, `paused`, `stopped` and `added` are the JSON answers without an
-- error.
pub data Answer : Type 0 where
  playing : Song → Answer
  resumed paused_answer stopped : Answer
  added : List QueueItem → Answer
  error : String → Answer

unfoldable pub music_new : MusicService
music_new = record {
  state = record { current = none; queue = []; history = []; paused = false; interruption = none };
  commands = [];
}

abbrev pub has_current : MusicState → Bool
has_current s = elim s.current [ none ↦ false | some item ↦ true ]

abbrev pub send : Command → MusicService → MusicService
send command m = record m { commands = m.commands ++ command ∷ [] }

abbrev pub push_current : Option QueueItem → List QueueItem → List QueueItem
push_current none items = items
push_current (some item) items = item ∷ items

-- `history` is the source's vector with its last element first: `push` and `pop` work at the head.
unfoldable pub play_next_from_queue : Bool → MusicService → MusicService × Option QueueItem
play_next_from_queue ok m = elim m.state.queue [
  | [] ↦ (m, none)
  | item ∷ rest ↦
      let s = record m.state {
        queue = rest;
        history = push_current m.state.current m.state.history;
        current = some item;
        paused = false;
      } in
      (send (play_url item.url) (record m { state = s }), if ok then some item else none)
]

unfoldable pub play_previous_from_history : Bool → MusicService → MusicService × Option QueueItem
play_previous_from_history ok m = elim m.state.history [
  | [] ↦ (m, none)
  | item ∷ rest ↦
      let s = record m.state {
        history = rest;
        queue = push_current m.state.current m.state.queue;
        current = some item;
        paused = false;
      } in
      (send (play_url item.url) (record m { state = s }), if ok then some item else none)
]

abbrev pub answer_item : String → Option QueueItem → Answer
answer_item reason none = error reason
answer_item reason (some item) = playing item.song

unfoldable pub next : Bool → MusicService → MusicService × Answer
unfolding play_next_from_queue
next ok m = let (n, item) = play_next_from_queue ok m in (n, answer_item "queue is empty" item)

unfoldable pub previous : Bool → MusicService → MusicService × Answer
unfolding play_previous_from_history
previous ok m =
    let (n, item) = play_previous_from_history ok m in (n, answer_item "history is empty" item)

-- `resolved` is the answer of `resolve_one`.
unfoldable pub play_query : Option QueueItem → Bool → MusicService → MusicService × Answer
play_query none ok m = (m, error "no songs found")
play_query (some item) ok m =
    let n = send (play_url item.url) m in
    if ok
    then (
      record n {
        state = record m.state { current = some item; queue = []; history = []; paused = false };
      },
      playing item.song,
    )
    else (n, error "play_url")

abbrev pub enqueue : List QueueItem → MusicService → MusicService
enqueue items m = record m { state = record m.state { queue = m.state.queue ++ items } }

-- `items` are those that resolved, in the order of `song_ids` and then `queries`.
unfoldable pub add_to_queue : List QueueItem → Bool → MusicService → MusicService × Answer
unfolding play_next_from_queue
add_to_queue [] ok m = (m, error "no playable songs resolved")
add_to_queue (item ∷ items) ok m =
    let n = enqueue (item ∷ items) m in
    if has_current m.state
    then (n, added (item ∷ items))
    else let (t, first) = play_next_from_queue ok n in
      (t, elim first [ none ↦ error "play_url" | some _ ↦ added (item ∷ items) ])

-- `random_queue_items` fails rather than answer with no item.
unfoldable pub add_random : List QueueItem → Bool → MusicService → MusicService × Answer
unfolding add_to_queue
add_random [] ok m = (m, error "no playable random songs resolved")
add_random (item ∷ items) ok m = add_to_queue (item ∷ items) ok m

unfoldable pub play_random : List QueueItem → Bool → MusicService → MusicService × Answer
unfolding play_next_from_queue
play_random [] ok m = (m, error "no playable random songs resolved")
play_random (item ∷ items) ok m =
    let s = record m.state { current = none; history = []; queue = item ∷ items; paused = false } in
    let (n, first) = play_next_from_queue ok (record m { state = s }) in
    (n, answer_item "play_url" first)

unfoldable pub pause : Bool → MusicService → MusicService × Answer
pause ok m =
    let n = send pause_audio m in
    if has_current m.state
    then if ok
      then (record n { state = record m.state { paused = true } }, paused_answer)
      else (n, error "pause_audio")
    else (m, error "no current song")

unfoldable pub resume : Bool → MusicService → MusicService × Answer
resume ok m =
    let n = send resume_audio m in
    if has_current m.state
    then if ok
      then (record n { state = record m.state { paused = false } }, resumed)
      else (n, error "resume_audio")
    else (m, error "no current song")

-- The two halves of `interrupt_for_wake`: what is decided under the first lock, and what is stored under
-- the second one, when the command has answered and the state may be another.
pub data Decision : Type 0 where
  answer_now : Bool → Decision
  go_ahead : Decision

unfoldable pub interrupt_check : MusicState → Decision
interrupt_check s = elim s.interruption [
  | some action ↦ answer_now true
  | none ↦ elim s.current [
    | none ↦ answer_now false
    | some item ↦ if s.paused then answer_now false else go_ahead
  ]
]

abbrev pub interrupt_command : InterruptionAction → MusicService → MusicService
interrupt_command pause_action m = send pause_audio m
interrupt_command duck_action m = send duck_audio m
interrupt_command none_action m = m

abbrev pub pauses : InterruptionAction → Bool
pauses pause_action = true
pauses duck_action = false
pauses none_action = false

unfoldable pub interrupt_commit : InterruptionAction → MusicState → MusicState × Bool
interrupt_commit mode s =
    if has_current s
    then (record s { paused = s.paused || pauses mode; interruption = some mode }, true)
    else (s, false)

-- No command is sent in the mode `none_action`, and then none can fail.
abbrev pub failed : InterruptionAction → Bool → Bool
failed pause_action ok = if ok then false else true
failed duck_action ok = if ok then false else true
failed none_action ok = false

-- The whole handler, when nothing else ran between its halves.
unfoldable pub interrupt_for_wake : InterruptionAction → Bool → MusicService → MusicService × Bool
unfolding interrupt_check interrupt_commit
interrupt_for_wake mode ok m = elim (interrupt_check m.state) [
  | answer_now b ↦ (m, b)
  | go_ahead ↦
      let n = interrupt_command mode m in
      let (s, done) = interrupt_commit mode m.state in
      if failed mode ok then (n, false) else (record n { state = s }, done)
]

-- `state.interruption.take()`
unfoldable pub restore_take : MusicState → MusicState × Option InterruptionAction
restore_take s = (record s { interruption = none }, s.interruption)

unfoldable pub restore_commit : Bool → MusicState → MusicState
restore_commit ok s = if ok then (if has_current s then record s { paused = false } else s) else s

unfoldable pub restore_after_interruption : Bool → MusicService → MusicService
unfolding restore_take restore_commit
restore_after_interruption ok m =
    let (s, action) = restore_take m.state in
    let n = record m { state = s } in
    elim action [
      | none ↦ n
      | some pause_action ↦ record (send resume_audio n) { state = restore_commit ok s }
      | some duck_action ↦ send unduck_audio n
      | some none_action ↦ n
    ]

-- `restored` and `ok` are the answers of the commands of the restoration and of `stop_audio`.
unfoldable pub stop : Bool → Bool → MusicService → MusicService × Answer
unfolding restore_after_interruption
stop restored ok m =
    let n = send stop_audio (restore_after_interruption restored m) in
    let s = record n.state {
      current = none;
      queue = [];
      history = [];
      paused = false;
      interruption = none;
    } in
    (record n { state = s }, if ok then stopped else error "stop_audio")
