-- ===== src/Session/EventLoop/Budget.antt =====
-- The limits on the tools of one session: calls, iterations and refusals.
use xiaoai_agent.Prelude.{
  ℕ, ◌+◌, ◌≤◌, ◌<◌, Bool, true, false, ◌≡◌, ◌≢◌, refl, ◌⊎◌, inl, inr, Bool-cases, length,
  if◌then◌else◌, String, List, [], ◌∷◌, arith, Option, none, some,
}
use xiaoai_agent.Prelude.Keys.{keys}
use xiaoai_agent.Session.Player.{Player}
use xiaoai_agent.Session.Wire.{
  ClientEvent, ArgumentsDone, RealtimeResponse, ServerEvent, response_function_call_arguments_done,
  response_done, TransportEvent, data_event, connection, audio_error, peer_other, peer_failed,
  peer_closed, function_call_output, response_create, tool_budget_exhausted as refusal,
}
use xiaoai_agent.Session.LoopState.{
  Effect, sends, post, PendingFunctionCall, Loop, Config, going, broken, loop_start,
  tool_budget_exhausted, budget_runaway, iteration_limit,
}
use xiaoai_agent.Session.ServerEvents.{
  on_arguments_done, on_response_done, on_done_with_calls, dispatch_calls, refuse_budget,
  refuse_calls, execute_calls, DoneCall, done_calls, ends_conversation, started,
}
use xiaoai_agent.Session.Outcomes.{
  Always, Always-going, executed, check_calls-frame, refuse_calls-frame,
}
use xiaoai_agent.Session.EventLoop.{
  Wake, tool_finished, transport, on_server_event, on_transport, refresh, turn, Reach, start, next,
}

record IsBudgeted (c : Config) (s : Loop) : Type 0 where
  calls : s.tool_calls ≤ c.max_calls
  iterations : s.tool_iterations ≤ c.max_iterations
  refusals : s.budget_refusals ≤ 2
  counted : length (executed s.effects) ≡ s.tool_calls
  idle : s.waiting_for_tools ≡ false → s.pending_tools ≡ []
  drained : s.waiting_for_tools ≡ true → s.response_calls ≡ []

length-started :
    (calls : List (String × PendingFunctionCall)) (es : List Effect)
    → length (executed (started calls es)) ≡ length calls + length (executed es)
length-started [] es = omega arith
length-started ((id, call) ∷ calls) es = omega (arith, length-started calls es)

execute-IsBudgeted :
    (c : Config) (s : Loop)
    → IsBudgeted c s
    → tool_budget_exhausted c s.tool_iterations s.tool_calls (length s.response_calls) ≡ false
    → IsBudgeted c (execute_calls s)
unfolding execute_calls tool_budget_exhausted
execute-IsBudgeted c s h e = ground (arith, length-started s.response_calls s.effects)

refuse-IsBudgeted :
    (c : Config) (now : ℕ) (delivered : ClientEvent → Bool) (s : Loop)
    → IsBudgeted c s
    → Always (IsBudgeted c) (refuse_budget c now delivered s)
unfolding refuse_budget
refuse-IsBudgeted c now delivered s h = ground (
  arith,
  refuse_calls-frame delivered (keys s.response_calls)
      (record s { budget_refusals = s.budget_refusals + 1; response_calls = [] }),
)

dispatch-IsBudgeted :
    (c : Config) (now : ℕ) (delivered : ClientEvent → Bool) (s : Loop)
    → IsBudgeted c s
    → Always (IsBudgeted c) (dispatch_calls c now delivered s)
dispatch-IsBudgeted c now delivered s h =
    unfold dispatch_calls in
    elim (Bool-cases
      (tool_budget_exhausted c s.tool_iterations s.tool_calls (length s.response_calls))) [
        | inl e ↦ rw e (refuse-IsBudgeted c now delivered s h)
        | inr e ↦ rw e (execute-IsBudgeted c s h e)
      ]

done_with_calls-IsBudgeted :
    (c : Config) (now : ℕ) (delivered : ClientEvent → Bool) (calls : List DoneCall) (s : Loop)
    → IsBudgeted c s
    → Always (IsBudgeted c) (on_done_with_calls c now delivered calls s)
unfolding on_done_with_calls
done_with_calls-IsBudgeted c now delivered calls s h =
    let s' : Loop = if ends_conversation calls then record s { end_after_response = true } else s in
    ground (arith, check_calls-frame [] calls s', dispatch-IsBudgeted c now delivered s')

response_done-IsBudgeted :
    (c : Config) (now : ℕ) (delivered : ClientEvent → Bool) (r : RealtimeResponse) (s : Loop)
    → IsBudgeted c s
    → Always (IsBudgeted c) (on_response_done c now delivered r s)
unfolding on_response_done
response_done-IsBudgeted c now delivered r s h =
    ground (arith, done_with_calls-IsBudgeted c now delivered (done_calls 0 r.output) s)

arguments-IsBudgeted :
    (c : Config) (call : ArgumentsDone) (s : Loop)
    → IsBudgeted c s
    → Always (IsBudgeted c) (on_arguments_done call s)
unfolding on_arguments_done
arguments-IsBudgeted c call s h = ground arith

server-IsBudgeted :
    (c : Config) (now : ℕ) (delivered : ClientEvent → Bool) (event : ServerEvent) (s : Loop)
    → IsBudgeted c s
    → Always (IsBudgeted c) (on_server_event c now delivered event s)
unfolding on_server_event
server-IsBudgeted c now delivered (response_function_call_arguments_done call) s h =
    arguments-IsBudgeted c call s h
server-IsBudgeted c now delivered (response_done r) s h =
    response_done-IsBudgeted c now delivered r s h
server-IsBudgeted c now delivered event s h = ground arith

refresh-IsBudgeted :
    (c : Config) (now : ℕ) (s : Loop) → IsBudgeted c s → IsBudgeted c (refresh c now s)
refresh-IsBudgeted c now s h = ground arith

transport-IsBudgeted :
    (c : Config) (now : ℕ) (delivered : ClientEvent → Bool) (event : Option TransportEvent)
    (s : Loop)
    → IsBudgeted c s
    → Always (IsBudgeted c) (on_transport c now delivered event s)
unfolding on_transport
transport-IsBudgeted c now delivered (some (data_event (some event))) s h =
    server-IsBudgeted c now delivered event (refresh c now s) (refresh-IsBudgeted c now s h)
transport-IsBudgeted c now delivered (some (data_event none)) s h = tt
transport-IsBudgeted c now delivered (some (connection peer_other)) s h = h
transport-IsBudgeted c now delivered (some (connection peer_failed)) s h = tt
transport-IsBudgeted c now delivered (some (connection peer_closed)) s h = tt
transport-IsBudgeted c now delivered (some (audio_error message)) s h = tt
transport-IsBudgeted c now delivered none s h = tt

turn-IsBudgeted :
    (c : Config) (now : ℕ) (delivered : ClientEvent → Bool) (wake : Wake) (s : Loop)
    → IsBudgeted c s
    → Always (IsBudgeted c) (turn c now delivered wake s)
unfolding turn
turn-IsBudgeted c now delivered (transport event) s h =
    transport-IsBudgeted c now delivered event s h
turn-IsBudgeted c now delivered wake s h = ground arith

reach-IsBudgeted :
    (c : Config) (s₀ : Loop) {s : Loop} → IsBudgeted c s₀ → Reach c s₀ s → IsBudgeted c s
reach-IsBudgeted c s₀ h start = h
reach-IsBudgeted c s₀ h (next {s} now delivered wake before can step) =
    Always-going (IsBudgeted c) (turn c now delivered wake s)
      (turn-IsBudgeted c now delivered wake s (reach-IsBudgeted c s₀ h before)) step

start-IsBudgeted : (c : Config) (now : ℕ) (player : Player) → IsBudgeted c (loop_start c now player)
unfolding loop_start
start-IsBudgeted c now player = ground arith

-- The check on `tool_iterations` behind the last tool of a round never fails: no turn of a session
-- ends with the iteration limit.
pub iteration_limit_unreached :
    (c : Config) (begin : ℕ) (player : Player) (s t : Loop) (now : ℕ)
    (delivered : ClientEvent → Bool) (id output : String)
    → Reach c (loop_start c begin player) s
    → turn c now delivered (tool_finished id output) s ≢ broken iteration_limit t
unfolding turn
iteration_limit_unreached c begin player s t now delivered id output r =
    let h = reach-IsBudgeted c (loop_start c begin player) (start-IsBudgeted c begin player) r in
    ground arith

-- A refusal for each id, the last one newest.
abbrev pub refusals_sent : List String → List Effect → List Effect
refusals_sent [] es = es
refusals_sent (id ∷ ids) es = refusals_sent ids (sends (function_call_output id refusal) ∷ es)

refuse_all :
    (delivered : ClientEvent → Bool) (ids : List String) (s : Loop)
    → ((e : ClientEvent) → delivered e ≡ true)
    → refuse_calls delivered ids s ≡ going (record s { effects = refusals_sent ids s.effects })
unfolding refuse_calls
refuse_all delivered [] s all = refl
refuse_all delivered (id ∷ ids) s all = ground (
  arith,
  all (function_call_output id refusal),
  refuse_all delivered ids (post (function_call_output id refusal) s) all,
)

-- What a request beyond the budget leads to, when every send is delivered: within the grace each
-- call is answered with the refusal, one new response is asked for, and no tool is started; behind
-- the grace the session fails.
beyond_budget :
    (c : Config) (now : ℕ) (delivered : ClientEvent → Bool) (s : Loop)
    → tool_budget_exhausted c s.tool_iterations s.tool_calls (length s.response_calls) ≡ true
    → ((e : ClientEvent) → delivered e ≡ true)
    → ((s.budget_refusals < 2)
        × (dispatch_calls c now delivered s
            ≡ going (record s {
              budget_refusals = s.budget_refusals + 1;
              response_calls = [];
              effects = sends response_create ∷ refusals_sent (keys s.response_calls) s.effects;
              active_response = none;
              response_deadline = some (now + c.event_timeout);
            })))
      ⊎ ((2 ≤ s.budget_refusals)
          × (dispatch_calls c now delivered s
              ≡ broken budget_runaway (record s { budget_refusals = s.budget_refusals + 1 })))
unfolding dispatch_calls
beyond_budget c now delivered s exhausted all = ground (
  arith,
  all response_create,
  refuse_all delivered (keys s.response_calls)
      (record s { budget_refusals = s.budget_refusals + 1; response_calls = [] }) all,
)
