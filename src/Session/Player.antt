-- ===== src/Session/Player.antt =====
-- `PcmPlayerHandle` of xiaoai-agent/src/qwen_voice.rs. What the tokio channels answer is an argument:
-- whether `control_tx.send` still found a receiver, and what `audio_tx.try_send` returned.
pub mod Gate
pub mod Task
use xiaoai_agent.Prelude.{
  ℕ, ◌+◌, ◌%◌, ◌^◌, Bool, true, false, List, [], ◌∷◌, Option, none, some, if◌then◌else◌,
}

pub data PlaybackControl : Type 0 where
  running drain shutdown : PlaybackControl

pub data QueueError : Type 0 where
  full queue_closed suppressed : QueueError

-- What `mpsc::Sender::try_send` answers.
pub data TrySend : Type 0 where
  sent send_full send_closed : TrySend

pub data AudioResult : Type 0 where
  queued : AudioResult
  dropped : QueueError → AudioResult

-- `queue` lists every block that `audio_tx` has taken, newest first.
pub record Player : Type 0 where
  pub control : PlaybackControl
  pub spawn_gate : PlaybackControl
  pub clear_generation : ℕ
  pub accepting_audio : Bool
  pub response_started_at : Option ℕ
  pub queue : List (List ℕ)

abbrev pub is_running : PlaybackControl → Bool
is_running running = true
is_running _ = false

-- A call of `try_audio` between its accesses to what the handle shares, where other tasks can come in:
-- behind the test of the control, behind that of the gate, behind `try_send`, and at its return.
pub data TryAudio : Type 0 where
  running_seen gate_passed : List ℕ → TryAudio
  block_taken : TryAudio
  answered : AudioResult → TryAudio

unfoldable pub try_audio : List ℕ → Player → TryAudio
try_audio bytes p =
    if is_running p.control then running_seen bytes else answered (dropped queue_closed)

unfoldable pub load_gate : List ℕ → Player → TryAudio
load_gate bytes p = if p.accepting_audio then gate_passed bytes else answered (dropped suppressed)

unfoldable pub send_block : TrySend → List ℕ → Player → Player × TryAudio
send_block sent bytes p = (record p { queue = bytes ∷ p.queue }, block_taken)
send_block send_full bytes p = (p, answered (dropped full))
send_block send_closed bytes p = (p, answered (dropped queue_closed))

-- The next access of a call.
unfoldable pub try_audio_on : TrySend → TryAudio → Player → Player × TryAudio
unfolding load_gate send_block
try_audio_on answer (running_seen bytes) p = (p, load_gate bytes p)
try_audio_on answer (gate_passed bytes) p = send_block answer bytes p
try_audio_on answer block_taken p = (record p { response_started_at = none }, answered queued)
try_audio_on answer (answered r) p = (p, answered r)

-- `watch::Sender::send` leaves the value alone when no receiver is left.
abbrev pub announce : Bool → PlaybackControl → Player → Player
announce delivered c p = if delivered then record p { control = c } else p

unfoldable pub stop : Bool → Player → Player
stop delivered p = announce delivered shutdown (record p { spawn_gate = shutdown })

abbrev pub u64 : ℕ → ℕ
u64 n = n % 2 ^ 64

-- `interrupt_playback` up to the store that shuts the gate, and behind it.
abbrev pub shut_gate : Player → Player
shut_gate p = record p { accepting_audio = false }

abbrev pub send_clear : Player → Player
send_clear p = record p {
  response_started_at = none;
  clear_generation = u64 (p.clear_generation + 1);
}

unfoldable pub interrupt_playback : Player → Player
interrupt_playback p = if is_running p.control then send_clear (shut_gate p) else p

unfoldable pub begin_response : ℕ → Player → Player
begin_response now p =
    if is_running p.control
    then record p { response_started_at = some now; accepting_audio = true }
    else p

unfoldable pub finish : Bool → Player → Player
finish delivered p =
    if is_running p.spawn_gate
    then announce delivered drain (record p { spawn_gate = drain })
    else p
