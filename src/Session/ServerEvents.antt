-- ===== src/Session/ServerEvents.antt =====
-- The branches of `run_event_loop` on a decoded server event
-- (xiaoai-agent/src/qwen_voice/webrtc_session.rs). One clock reading `now` serves a whole turn.
use xiaoai_agent.Prelude.{
  ℕ, suc, ◌+◌, ◌*◌, String, len, Bool, true, false, not, ◌&&◌, ◌||◌, List, [], ◌∷◌, ◌++◌, Option,
  none, some, if◌then◌else◌, leb, ◌==◌, length, str_eq,
}
use xiaoai_agent.Prelude.Keys.{contains, keys, get, insert}
use xiaoai_agent.Session.Machine.{ready, capturing, responding, same_state}
use xiaoai_agent.Session.Player.{interrupt_playback, begin_response}
use xiaoai_agent.Session.Wire.{
  ResponseStatus, completed, canceled, OutputItem, message, function_call, RealtimeResponse,
  ArgumentsDone, ClientEvent, function_call_output, response_create,
  tool_budget_exhausted as refusal,
}
use xiaoai_agent.Session.LoopState.{
  PendingFunctionCall, Effect, executes, Loop, Config, Outcome, going, broken, ◌>>=◌, ensure, go_to,
  send, none_or_eq, tool_budget_exhausted, call_while_tools_run, call_conflict, call_replayed,
  bad_call_id, bad_name, bad_arguments, bad_status, done_conflict, done_omitted_call, done_mismatch,
  done_incomplete, done_missing_arguments, done_call_conflict, budget_runaway,
}

abbrev pub max_call_id_bytes : ℕ
max_call_id_bytes = 256

abbrev pub max_tool_name_bytes : ℕ
max_tool_name_bytes = 256

abbrev pub max_tool_argument_bytes : ℕ
max_tool_argument_bytes = 64 * 1024

abbrev pub webrtc_audio_quiet_period : ℕ
webrtc_audio_quiet_period = 400

abbrev pub tool_budget_exhausted_grace : ℕ
tool_budget_exhausted_grace = 2

abbrev pub end_conversation_tool_name : String
end_conversation_tool_name = "end_conversation"

abbrev pub is_empty {ℓ} : {A : Type ℓ} → List A → Bool
is_empty [] = true
is_empty (x ∷ xs) = false

abbrev pub fits : ℕ → String → Bool
fits bytes s = not (str_eq s "") && leb (len s) bytes

-- `ServerEvent::ResponseFunctionCallArgumentsDone`
unfoldable pub on_arguments_done : ArgumentsDone → Loop → Outcome
on_arguments_done call s = do
  s ← ensure (not s.waiting_for_tools && is_empty s.pending_tools) call_while_tools_run s
  s ← ensure (none_or_eq str_eq s.active_response call.response_id) call_conflict s
  s ← ensure (not (contains call.call_id s.seen_call_ids)) call_replayed s
  s ← ensure (fits max_call_id_bytes call.call_id) bad_call_id s
  s ← ensure (fits max_tool_name_bytes call.name) bad_name s
  s ← ensure (leb (len call.arguments) max_tool_argument_bytes) bad_arguments s
  going (record s {
    active_response = some call.response_id;
    seen_call_ids = call.call_id ∷ s.seen_call_ids;
    response_calls = insert call.call_id pending s.response_calls;
  })
  where
    pending : PendingFunctionCall
    pending = record {
      item_id = call.item_id;
      output_index = call.output_index;
      name = call.name;
      arguments = call.arguments;
    }

-- The function calls of `response.done`, each with its index among the output items.
pub record DoneCall : Type 0 where
  pub output_index : ℕ
  pub id : String
  pub status : ResponseStatus
  pub call_id : String
  pub name : String
  pub arguments : String

unfoldable pub done_calls : ℕ → List OutputItem → List DoneCall
done_calls i [] = []
done_calls i (message ∷ items) = done_calls (suc i) items
done_calls i (function_call id status call_id name arguments ∷ items) =
    record {
      output_index = i;
      id = id;
      status = status;
      call_id = call_id;
      name = name;
      arguments = arguments;
    }
    ∷ done_calls (suc i) items

abbrev pub is_completed : ResponseStatus → Bool
is_completed completed = true
is_completed _ = false

abbrev pub ends_conversation : List DoneCall → Bool
ends_conversation [] = false
ends_conversation (c ∷ cs) = str_eq c.name end_conversation_tool_name || ends_conversation cs

-- The received call agrees with the one that `response.done` lists.
abbrev pub agrees : DoneCall → PendingFunctionCall → Bool
agrees c received =
    received.output_index == c.output_index
    && str_eq received.item_id c.id
    && str_eq received.name c.name
    && str_eq received.arguments c.arguments

abbrev pub check_received : DoneCall → Option PendingFunctionCall → Loop → Outcome
check_received c none s = broken done_missing_arguments s
check_received c (some received) s = ensure (agrees c received) done_call_conflict s

-- The loop over `done_calls`; `done_ids` are the ids that it has met.
unfoldable pub check_calls : List String → List DoneCall → Loop → Outcome
check_calls done_ids [] s = going s
check_calls done_ids (c ∷ cs) s = do
  s ← ensure (is_completed c.status && not (contains c.call_id done_ids)) done_incomplete s
  s ← check_received c (get c.call_id s.response_calls) s
  check_calls (c.call_id ∷ done_ids) cs s

-- `response_calls.drain()` with a refusal for each call.
unfoldable pub refuse_calls : (ClientEvent → Bool) → List String → Loop → Outcome
refuse_calls delivered [] s = going s
refuse_calls delivered (id ∷ ids) s = do
  s ← send delivered (function_call_output id refusal) s
  refuse_calls delivered ids s

unfoldable pub refuse_budget : Config → ℕ → (ClientEvent → Bool) → Loop → Outcome
unfolding refuse_calls
refuse_budget c now delivered s = do
  s ← going (record s { budget_refusals = s.budget_refusals + 1 })
  s ← ensure (leb s.budget_refusals tool_budget_exhausted_grace) budget_runaway s
  s ← refuse_calls delivered (keys s.response_calls) (record s { response_calls = [] })
  s ← send delivered response_create s
  going (record s { active_response = none; response_deadline = some (now + c.event_timeout) })

-- Starting a tool: the effect names the call that `NativeToolRuntime::execute` is given.
abbrev pub started : List (String × PendingFunctionCall) → List Effect → List Effect
started [] effects = effects
started ((id, call) ∷ calls) effects = executes id call ∷ started calls effects

unfoldable pub execute_calls : Loop → Loop
execute_calls s = record s {
  tool_iterations = s.tool_iterations + 1;
  tool_calls = s.tool_calls + length s.response_calls;
  waiting_for_tools = true;
  response_deadline = none;
  pending_tools = keys s.response_calls ++ s.pending_tools;
  effects = started s.response_calls s.effects;
  response_calls = [];
}

-- Both branches behind the checks on the calls.
unfoldable pub dispatch_calls : Config → ℕ → (ClientEvent → Bool) → Loop → Outcome
unfolding tool_budget_exhausted refuse_budget execute_calls
dispatch_calls c now delivered s =
    if tool_budget_exhausted c s.tool_iterations s.tool_calls (length s.response_calls)
    then refuse_budget c now delivered s
    else going (execute_calls s)

unfoldable pub on_done_with_calls :
    Config → ℕ → (ClientEvent → Bool) → List DoneCall → Loop → Outcome
unfolding check_calls dispatch_calls
on_done_with_calls c now delivered calls s = do
  s ←
      ensure (leb (length calls) c.max_calls && length calls == length s.response_calls)
        done_mismatch s
  s ← going (if ends_conversation calls then record s { end_after_response = true } else s)
  s ← check_calls [] calls s
  dispatch_calls c now delivered s

unfoldable pub on_done_without_calls : ℕ → Loop → Outcome
unfolding go_to
on_done_without_calls now s = do
  s ← ensure (is_empty s.response_calls) done_omitted_call s
  s ← if same_state s.machine capturing then go_to responding s else going s
  going (record s {
    active_response = none;
    response_deadline = none;
    drain_deadline = some (now + webrtc_audio_quiet_period);
  })

-- A canceled response; `response.done` of another response is passed over.
unfoldable pub on_canceled : String → Loop → Outcome
unfolding go_to
on_canceled id s =
    if none_or_eq str_eq s.active_response id
    then (let t = record s {
      active_response = none;
      response_calls = [];
      response_deadline = none;
    } in
        if same_state t.machine responding then go_to capturing t else going t)
    else going s

abbrev pub is_canceled : ResponseStatus → Bool
is_canceled canceled = true
is_canceled _ = false

-- `ServerEvent::ResponseDone`
unfoldable pub on_response_done :
    Config → ℕ → (ClientEvent → Bool) → RealtimeResponse → Loop → Outcome
unfolding on_canceled on_done_without_calls on_done_with_calls done_calls
on_response_done c now delivered r s = if is_canceled r.status then on_canceled r.id s else do
  s ← ensure (is_completed r.status) bad_status s
  s ← ensure (none_or_eq str_eq s.active_response r.id) done_conflict s
  (let calls = done_calls 0 r.output in
      if is_empty calls
      then on_done_without_calls now s
      else on_done_with_calls c now delivered calls s)

-- `ServerEvent::ResponseCreated`
unfoldable pub on_response_created : Config → ℕ → String → Loop → Outcome
unfolding begin_response go_to
on_response_created c now id s = do
  s ← going (record s { player = begin_response now s.player; active_response = some id })
  s ←
      if same_state s.machine capturing || same_state s.machine ready
      then go_to responding s
      else going s
  going
      (record s { session_idle_deadline = none; response_deadline = some (now + c.event_timeout) })

-- `ServerEvent::InputAudioSpeechStarted`
unfoldable pub on_speech_started : Loop → Outcome
unfolding interrupt_playback go_to
on_speech_started s = do
  s ← going (record s {
    player = interrupt_playback s.player;
    drain_deadline = none;
    session_idle_deadline = none;
    response_deadline = none;
  })
  if same_state s.machine responding || same_state s.machine ready
      then go_to capturing s
      else going s
