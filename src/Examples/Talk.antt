-- ===== src/Examples/Talk.antt =====
-- Runs of the agent's turns and of what is spoken: xiaoai-agent/src/agent.rs,
-- xiaoai-agent/src/main.rs and xiaoai-agent/src/asr.rs.
use xiaoai_agent.Prelude.{◌≡◌, refl, ℕ, suc, zero, true, false, List, [], ◌∷◌, ◌++◌, none, some}
use xiaoai_agent.Agent.Speech.{
  open_think, close_think, find, open_at, after_block, strip_rounds, strip_think_blocks,
  split_lines, kept_lines, collapse, sanitize_speech_text,
}
use xiaoai_agent.Agent.Speech.Tags.{open_tag, close_tag}
use xiaoai_agent.Agent.Speech.Blocks.{strip_think_blocks-closed}
use xiaoai_agent.Agent.Speech.Speakable.{is_speakable, is_tight}
use xiaoai_agent.Agent.Speech.Lines.{sanitize_speech_text-clean}
use xiaoai_agent.Asr.{
  Input, command, clear, commit, message, messages_end, delta, ok, running, stopped,
  run_realtime_stream, open_stream,
}
use xiaoai_agent.Asr.Answers.{Answered, run_realtime_stream-Answered}
use xiaoai_agent.Agent.Turns.{
  Attempt, AgentTurnResult, clear_control, prompt_with_history, try_attempts, run_turn,
}
use xiaoai_agent.Agent.Conversation.{Round, captured, capture_timeout, round, run_session, start}
use xiaoai_agent.Agent.Conversation.History.{SessionOutcome, run_session-Outcome}
use xiaoai_agent.Agent.Conversation.Silent.{OpenEnd, round-silent_end}

-- "<t", "a" and "b"
abbrev thought : List ℕ
thought = 60 ∷ 116 ∷ []

abbrev said_before : List ℕ
said_before = 97 ∷ []

abbrev said_behind : List ℕ
said_behind = 98 ∷ []

-- A block that opens twice and closes twice: what stands between the two ends is spoken.
nested_leaks :
    strip_think_blocks
      (open_think ++ (open_think ++ (close_think ++ (said_behind ++ (close_think ++ [])))))
    ≡ said_behind ++ close_think
unfolding strip_think_blocks strip_rounds open_at after_block find
nested_leaks = refl

strip_think_blocks-closed_example :
    strip_think_blocks
      (said_before ++ (open_tag false ++ ((thought ++ close_tag false) ++ said_behind)))
    ≡ said_before ++ strip_think_blocks said_behind
unfolding find
strip_think_blocks-closed_example =
    strip_think_blocks-closed false said_before thought said_behind refl refl

-- "✅ ok" and, behind empty lines, "b"
abbrev progress : List ℕ
progress = 9989 ∷ 32 ∷ 111 ∷ 107 ∷ 10 ∷ 10 ∷ 10 ∷ 10 ∷ 98 ∷ []

-- The line of progress is left out, and so are the line ends around it.
progress_dropped : sanitize_speech_text progress ≡ said_behind
unfolding sanitize_speech_text strip_think_blocks strip_rounds open_at after_block find split_lines
    kept_lines collapse
progress_dropped = refl

sanitize_speech_text-clean_example :
    (is_speakable true (sanitize_speech_text progress) ≡ true)
    × (is_tight 2 (sanitize_speech_text progress) ≡ true)
sanitize_speech_text-clean_example = sanitize_speech_text-clean progress

-- The model fails once and then answers "b".
abbrev asks : List ℕ → ℕ → Attempt
asks prompt (suc zero) = record { ends = none; reply = none }
asks prompt attempt = record { ends = none; reply = some said_behind }

abbrev talk : Round
talk = record {
  stream = some true;
  capture = captured;
  transcript = some said_before;
  asks = asks;
  speaks = true;
}

abbrev silence : Round
silence = record {
  stream = some true;
  capture = capture_timeout;
  transcript = none;
  asks = asks;
  speaks = true;
}

run_session-Outcome_example : SessionOutcome true (talk ∷ talk ∷ silence ∷ []) [] (
    run_session true 1 true
      (talk ∷ talk ∷ silence ∷ [])
      (start (record { history = []; control = clear_control })))
run_session-Outcome_example =
    run_session-Outcome true 1 true (talk ∷ talk ∷ silence ∷ []) clear_control

-- The model ends the conversation without a word.
abbrev ends : List ℕ → ℕ → Attempt
ends prompt attempt = record { ends = some said_behind; reply = some [] }

abbrev farewell : Round
farewell = record {
  stream = none;
  capture = capture_timeout;
  transcript = none;
  asks = ends;
  speaks = true;
}

abbrev silent_reply : AgentTurnResult
silent_reply = record { text = []; should_end = true; end_reason = said_behind }

round-silent_end_example : OpenEnd (
    round true 1 true
      (record farewell { stream = some false; capture = captured; transcript = some said_before })
      (start (record { history = []; control = clear_control })))
unfolding run_turn prompt_with_history try_attempts sanitize_speech_text strip_think_blocks
    strip_rounds open_at find split_lines kept_lines collapse
round-silent_end_example =
    round-silent_end true 1 true false farewell said_before
      (start (record { history = []; control = clear_control })) silent_reply refl refl refl refl

-- Two deltas around a command to clear, and the end.
abbrev dictation : List Input
dictation =
    message (delta (some thought))
    ∷ command clear true
    ∷ message (delta (some said_before))
    ∷ command commit true
    ∷ []

run_realtime_stream-Answered_example :
    Answered dictation open_stream (run_realtime_stream dictation open_stream)
run_realtime_stream-Answered_example = run_realtime_stream-Answered dictation

-- An end without a transcript: what was heard behind the command to clear is the result.
heard_so_far :
    elim (run_realtime_stream (dictation ++ (messages_end ∷ [])) open_stream) [
      | running t ↦ none
      | stopped t ↦ t.result
    ]
    ≡ some (ok said_before)
unfolding run_realtime_stream
heard_so_far = refl
