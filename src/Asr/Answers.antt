-- ===== src/Asr/Answers.antt =====
-- The result of `run_realtime_stream` of xiaoai-agent/src/asr.rs and what it sends.
use mathlib.Core.List.{append_assoc, append-nil}
use xiaoai_agent.Prelude.{
  ℕ, ◌≡◌, refl, sym, ap, ◌∙◌, Bool, true, false, ◌||◌, List, [], ◌∷◌, ◌++◌, Option, none, some,
  if◌then◌else◌, arith, inl, inr, Bool-cases,
}
use xiaoai_agent.Agent.Conversation.{is_blank}
use xiaoai_agent.Agent.Turns.{trim}
use xiaoai_agent.Asr.{
  fail, RealtimeStreamCommand, append, clear, commit, close, completed, delta, error_event,
  failed_event, other_event, invalid_json, read_error, close_frame, other_frame, Input, command,
  dropped, message, messages_end, Transcript, ok, err, Stream, Status, running, stopped,
  send_realtime_result, send_failed, reported, transcription_failed, bad_json, read_failed,
  closed_early, ended_early, run_realtime_stream, open_stream, text_or_empty,
}

-- The commands among the inputs, the last first, before those in front.
abbrev pub commands : List Input → List RealtimeStreamCommand → List RealtimeStreamCommand
commands [] before = before
commands (command c works ∷ inputs) before = commands inputs (c ∷ before)
commands (i ∷ inputs) before = commands inputs before

abbrev pub has_clear : List Input → Bool
has_clear [] = false
has_clear (command clear works ∷ inputs) = true
has_clear (i ∷ inputs) = has_clear inputs

-- The inputs behind the last command to clear, or all.
abbrev pub after_clear : List Input → List Input
after_clear [] = []
after_clear (i ∷ inputs) =
    if has_clear inputs
    then after_clear inputs
    else (if has_clear (i ∷ []) then inputs else i ∷ inputs)

-- The text of the deltas.
abbrev pub deltas : List Input → List ℕ
deltas [] = []
deltas (message (delta text) ∷ inputs) = text_or_empty text ++ deltas inputs
deltas (i ∷ inputs) = deltas inputs

-- The session closed the stream, or is gone.
abbrev pub hangs_up : List Input → Bool
hangs_up [] = false
hangs_up (command close works ∷ inputs) = true
hangs_up (dropped ∷ inputs) = true
hangs_up (i ∷ inputs) = hangs_up inputs

abbrev pub has_result : Option Transcript → Bool
has_result none = false
has_result (some t) = true

-- The text of the deltas behind the last command to clear; without one, of all, behind what was there.
abbrev pub heard : List Input → List ℕ → List ℕ
heard inputs before =
    if has_clear inputs then deltas (after_clear inputs) else before ++ deltas inputs

-- What a run from a state may come to.
abbrev pub Answered : List Input → Stream → Status → Type 0
Answered inputs s (running t) =
    (t.result ≡ none)
    × (t.sent ≡ commands inputs s.sent)
    × (t.last_delta ≡ heard inputs s.last_delta)
Answered inputs s (stopped t) = (hangs_up inputs || has_result t.result) ≡ true

heard-delta :
    (text : Option (List ℕ)) (inputs : List Input) (before : List ℕ)
    → heard (message (delta text) ∷ inputs) before ≡ heard inputs (before ++ text_or_empty text)
heard-delta text inputs before = elim (Bool-cases (has_clear inputs)) [
  | inl h ↦ rw h refl
  | inr h ↦ rw h (sym (append_assoc before (text_or_empty text) (deltas inputs)))
]

heard-clear :
    (works : Bool) (inputs : List Input) (before : List ℕ)
    → heard (command clear works ∷ inputs) before ≡ heard inputs []
heard-clear works inputs before = elim (Bool-cases (has_clear inputs)) [
  | inl h ↦ rw h refl
  | inr h ↦ rw h refl
]

heard-same :
    (i : Input) (inputs : List Input) (before : List ℕ)
    → has_clear (i ∷ inputs) ≡ has_clear inputs
    → deltas (i ∷ inputs) ≡ deltas inputs
    → heard (i ∷ inputs) before ≡ heard inputs before
heard-same i inputs before h g = elim (Bool-cases (has_clear inputs)) [
  | inl clears ↦ rw (h, clears) refl
  | inr keeps ↦ rw (h, keeps, g) refl
]

-- One input more in front.
carry :
    (i : Input) (inputs : List Input) (s t : Stream) (end : Status)
    → commands inputs t.sent ≡ commands (i ∷ inputs) s.sent
    → heard inputs t.last_delta ≡ heard (i ∷ inputs) s.last_delta
    → hangs_up (i ∷ inputs) ≡ hangs_up inputs
    → Answered inputs t end
    → Answered (i ∷ inputs) s end
carry i inputs s t (running u) h g hangs (fresh, sends, hears) = (fresh, sends ∙ h, hears ∙ g)
carry i inputs s t (stopped u) h g hangs answered =
    ap (λ b. b || has_result u.result) hangs ∙ answered

result-sent :
    (inputs : List Input) (r : Transcript) (s : Stream)
    → s.result ≡ none
    → (hangs_up inputs || has_result (send_realtime_result r s).result) ≡ true
result-sent inputs r s fresh = rw fresh (ground arith)

end-Answered :
    (blank : Bool) (inputs : List Input) (s : Stream)
    → s.result ≡ none
    → Answered
        (messages_end ∷ inputs)
        s
        (elim (if blank
          then fail ended_early s
          else stopped (send_realtime_result (ok (trim s.last_delta)) s)) [
            | running t ↦ run_realtime_stream inputs t
            | stopped t ↦ stopped t
          ])
end-Answered true inputs s fresh = result-sent (messages_end ∷ inputs) (err ended_early) s fresh
end-Answered false inputs s fresh =
    result-sent (messages_end ∷ inputs) (ok (trim s.last_delta)) s fresh

run-Answered :
    (inputs : List Input) (s : Stream)
    → s.result ≡ none
    → Answered inputs s (run_realtime_stream inputs s)
unfolding run_realtime_stream
run-Answered [] s fresh = (fresh, refl, sym (append-nil s.last_delta))
run-Answered (command (append audio) true ∷ inputs) s fresh =
    let t : Stream = record s { sent = append audio ∷ s.sent } in
    carry (command (append audio) true) inputs s t (run_realtime_stream inputs t) refl
      (sym (heard-same (command (append audio) true) inputs s.last_delta refl refl)) refl
      (run-Answered inputs t fresh)
run-Answered (command (append audio) false ∷ inputs) s fresh =
    result-sent (command (append audio) false ∷ inputs) (err send_failed) s fresh
run-Answered (command clear true ∷ inputs) s fresh =
    let t : Stream = record s { last_delta = []; sent = clear ∷ s.sent } in
    carry (command clear true) inputs s t (run_realtime_stream inputs t) refl
      (sym (heard-clear true inputs s.last_delta)) refl (run-Answered inputs t fresh)
run-Answered (command clear false ∷ inputs) s fresh =
    result-sent (command clear false ∷ inputs) (err send_failed) (record s { last_delta = [] })
      fresh
run-Answered (command commit true ∷ inputs) s fresh =
    let t : Stream = record s { sent = commit ∷ s.sent } in
    carry (command commit true) inputs s t (run_realtime_stream inputs t) refl
      (sym (heard-same (command commit true) inputs s.last_delta refl refl)) refl
      (run-Answered inputs t fresh)
run-Answered (command commit false ∷ inputs) s fresh =
    result-sent (command commit false ∷ inputs) (err send_failed) s fresh
run-Answered (command close works ∷ inputs) s fresh = refl
run-Answered (dropped ∷ inputs) s fresh = refl
run-Answered (message (completed text) ∷ inputs) s fresh =
    result-sent (message (completed text) ∷ inputs) (ok (trim (text_or_empty text))) s fresh
run-Answered (message (delta text) ∷ inputs) s fresh =
    let t : Stream = record s { last_delta = s.last_delta ++ text_or_empty text } in
    carry (message (delta text)) inputs s t (run_realtime_stream inputs t) refl
      (sym (heard-delta text inputs s.last_delta)) refl (run-Answered inputs t fresh)
run-Answered (message error_event ∷ inputs) s fresh =
    result-sent (message error_event ∷ inputs) (err reported) s fresh
run-Answered (message failed_event ∷ inputs) s fresh =
    result-sent (message failed_event ∷ inputs) (err transcription_failed) s fresh
run-Answered (message other_event ∷ inputs) s fresh =
    carry (message other_event) inputs s s (run_realtime_stream inputs s) refl
      (sym (heard-same (message other_event) inputs s.last_delta refl refl)) refl
      (run-Answered inputs s fresh)
run-Answered (message invalid_json ∷ inputs) s fresh =
    result-sent (message invalid_json ∷ inputs) (err bad_json) s fresh
run-Answered (message read_error ∷ inputs) s fresh =
    result-sent (message read_error ∷ inputs) (err read_failed) s fresh
run-Answered (message close_frame ∷ inputs) s fresh =
    result-sent (message close_frame ∷ inputs) (err closed_early) s fresh
run-Answered (message other_frame ∷ inputs) s fresh =
    carry (message other_frame) inputs s s (run_realtime_stream inputs s) refl
      (sym (heard-same (message other_frame) inputs s.last_delta refl refl)) refl
      (run-Answered inputs s fresh)
run-Answered (messages_end ∷ inputs) s fresh = end-Answered (is_blank s.last_delta) inputs s fresh

-- While the stream runs, no result was sent, every command was sent in its order, and the text that is
-- kept is that of the deltas behind the last command to clear. When it has stopped, a result was sent,
-- or else the session closed it or was gone.
pub run_realtime_stream-Answered :
    (inputs : List Input) → Answered inputs open_stream (run_realtime_stream inputs open_stream)
run_realtime_stream-Answered inputs = run-Answered inputs open_stream refl
