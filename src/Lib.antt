-- ===== src/Lib.antt =====
-- Verification of xiaoai-agent, a voice assistant for a loudspeaker.
--
-- The program hears a wake word, opens a realtime session with a speech model over WebRTC, streams
-- the microphone to it, plays what comes back, runs the tools that the model asks for, and
-- interrupts and restores the music around it. The parts and the files that model them:
--
-- - Session/Machine: `SessionMachine` of xiaoai-agent/src/qwen_voice.rs. `transition` answers `moved`
--   or `refused`; Session/Machine/Paths is about lists of requests.
-- - Session/Player: `PcmPlayerHandle` of the same file. A method is a function on the handle's shared
--   state; what the tokio channels answer is an argument. `try_audio` takes no lock, and is one step for
--   each of its accesses (`try_audio_on`); Session/Player/Gate interleaves them with the event loop.
-- - Session/Player/Task: `run_player` of the same file, a step for each event of its `select!` loop and
--   the drain behind it. A child process is the list of the bytes that it has been given.
-- - Session/Supervisor: the handles, the active slot and the supervisor task of the same file. An
--   `Action` is what one task does between two points where another can come in; `run` runs any list of
--   them. Sessions are numbered as they are prepared, and their ids wrap at 2^64.
-- - Session/Tools: `execute` and `GenericToolCall::wait` of the same file.
-- - Session/Wire: the events of xiaoai-agent/src/qwen_realtime.rs that the session reads and sends.
-- - Session/LoopState, Session/ServerEvents, Session/EventLoop: `run_event_loop` of
--   xiaoai-agent/src/qwen_voice/webrtc_session.rs. `Loop` has the locals of the loop, `turn` is one
--   round of its `select!`, with one function for each branch and each server event, and `Reach` are
--   the states between two turns, over any clock, any branches that can fire and any answers of the
--   DataChannel. An early return by `?`, `ensure!` or `bail!` is the outcome `broken`. The proofs are
--   in the modules below Session/EventLoop, named for what they prove.
-- - Session/Reconnect: `run` and `run_once` of the same file. `Attempt` lists what an attempt meets, in
--   the order in which the code asks for it; the transitions that the event loop asks for are
--   arbitrary.
-- - Audio/Bytes, Audio/Upsample, Audio/Decoder: the 16-bit samples, `enqueue_upsampled_pcm`,
--   `flush_upsampled_pcm`, `trim_stale_input`, the frames of `run_opus_writer`, the sequence numbers of
--   `run_opus_decoder` and the mixing of `queue_decoded_pcm`, in the same file.
-- - Vad/Level, Vad/Collector: `apply_gain`, `rms_norm` and `SpeechCollector` of
--   xiaoai-agent/src/vad.rs. The clock is an argument of `push`, the same for all blocks of one call.
--   Floating-point operations are the parameter `Float`, on which no law is assumed.
-- - Music/Service: `MusicService` of xiaoai-agent/src/music.rs. What resolved at a provider and whether
--   a command of the loudspeaker succeeded are arguments; the commands sent are recorded.
-- - Monitor/Vpm, Monitor/InitBlock, Monitor/Debounce: `frame_bytes`, the event callbacks, the init block
--   and `feed_vpm_audio` of xiaoai-agent/src/monitor/kws.rs. The library libvpm is third-party; the frames
--   and what waits behind each are arguments. Numbers are stored with the low byte first.
-- - Config/Secret, Config/Yaml, Config/Update, Config/Validate: `redact_secret`, `set_yaml`,
--   `apply_secret`, `EditableConfig`, `apply_update_to_yaml` and `validate_update` of
--   xiaoai-agent/src/web/config_store.rs. The writes of an update are a list of steps, the tests of the
--   validation a list of checks, both in the order of the source. Config/Update/Layout is the table of the
--   fields by the sections of the file. A floating-point number is its bits.
-- - Config/Store: `ConfigStore` of the same file. A run lists the disks that it passes through; the
--   outcome of every file operation is an argument. Reading and printing YAML and `AppConfig::load` are
--   the parameter `Codec`, on which no law is assumed.
-- - Config/Restart: `ProcessRestarter` of xiaoai-agent/src/web/restart.rs and the requests of the web
--   interface to the store and to it.
-- - Mcp: `NativeMcpRouting` of xiaoai-agent/src/mcp.rs. Status: `LogBuffer` of
--   xiaoai-agent/src/web/status.rs.
-- - MainLoop: the loop of xiaoai-agent/src/main.rs with its `ActiveTurn`. `Main` has the locals of `main`
--   and what they share with the tasks; an `Event` is a wake word, a tick, or the end of a task. A
--   session is a flag for its kind and one for its end; `sessions` counts those that were spawned and
--   neither joined nor cancelled. Airplay: `PlaybackState` and `parse_hwaddr` of
--   xiaoai-agent/src/airplay.rs.
-- - Agent/Speech, Agent/Turns: `sanitize_speech_text` and `AgentRuntime` of xiaoai-agent/src/agent.rs.
--   Agent/Conversation: `run_session` of xiaoai-agent/src/main.rs. A text is the list of its code points.
--   The language model is a function of the prompt and of the number of the attempt.
-- - Capture: the loops over the detector in xiaoai-agent/src/capture.rs, which differ only in whether they
--   have callbacks and whether their channel can lag.
-- - Asr: `run_realtime_stream` of xiaoai-agent/src/asr.rs.
-- - Examples: the theorems at concrete inputs. Prelude: the shared helpers.
--
-- Numbers are natural numbers, and a counter that the source lets wrap wraps at its width. The loop
-- of `SpeechCollector::push` runs on as much fuel as bytes wait, which is enough, since every round
-- takes at least two bytes. The rounds of `strip_think_blocks` run on one more than the characters,
-- which is enough, since every round takes a character away. The attempts of `run` are counted down from their number.
--
-- Not modelled: the network, codec and audio processes, serde, tracing, the WebSocket session of
-- xiaoai-agent/src/qwen_voice.rs (test-only code), the HTTP routes of the web interface, the agent's
-- single tools, the HTTP and vendor clients of the speech recognition, and the probes.
pub mod Prelude
pub mod Session
pub mod Audio
pub mod Vad
pub mod Music
pub mod Monitor
pub mod Config
pub mod Mcp
pub mod Status
pub mod Airplay
pub mod MainLoop
pub mod Agent
pub mod Capture
pub mod Asr
pub mod Examples
