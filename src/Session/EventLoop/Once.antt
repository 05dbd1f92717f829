-- ===== src/Session/EventLoop/Once.antt =====
-- A call id reaches the tools at most once in a session.
use xiaoai_agent.Prelude.{
  ℕ, Bool, true, false, ◌≡◌, refl, sym, ◌⊎◌, inl, inr, Bool-cases, length, if◌then◌else◌, ap, subst,
  ◌+◌, String, List, [], ◌∷◌, ◌++◌, arith, Option, none, some, eq_refl,
}
use mathlib.Core.Path.{subst₂}
use xiaoai_agent.Prelude.Keys.{
  keys, contains, without, Distinct, Within, insert, without_absent, contains-append, Within-cons,
  Distinct-append_right, Within-append_right, not-Within,
}
use xiaoai_agent.Session.Player.{Player}
use xiaoai_agent.Session.Wire.{
  ClientEvent, ArgumentsDone, RealtimeResponse, ServerEvent, response_function_call_arguments_done,
  response_done, response_created, input_audio_speech_started, TransportEvent, data_event,
  connection, audio_error, peer_other, peer_failed, peer_closed,
}
use xiaoai_agent.Session.LoopState.{Loop, Config, Outcome, going, loop_start, tool_budget_exhausted}
use xiaoai_agent.Session.ServerEvents.{
  on_arguments_done, on_response_done, on_response_created, on_speech_started, on_done_with_calls,
  dispatch_calls, refuse_budget, execute_calls, DoneCall, done_calls, ends_conversation,
}
use xiaoai_agent.Session.Outcomes.{
  Always, Always-going, executed, executed-started, check_calls-frame, refuse_calls-frame,
}
use xiaoai_agent.Session.EventLoop.{
  Wake, transport, on_server_event, on_transport, refresh, turn, Reach, start, next,
}

-- The ids that wait for `response.done` or have gone to the tools.
abbrev used : Loop → List String
used s = keys s.response_calls ++ executed s.effects

record IsOnce (s : Loop) : Type 0 where
  distinct : Distinct (used s)
  seen : Within (used s) s.seen_call_ids

-- What an accepted function call has passed, and what it leaves.
accepted_arguments :
    (call : ArgumentsDone) (s : Loop) {t : Loop}
    → on_arguments_done call s ≡ going t
    → (contains call.call_id s.seen_call_ids ≡ false)
      × (t.seen_call_ids ≡ call.call_id ∷ s.seen_call_ids)
      × (t.effects ≡ s.effects)
      × (keys t.response_calls ≡ call.call_id ∷ keys (without call.call_id s.response_calls))
unfolding on_arguments_done insert
accepted_arguments call s h = ground arith

fresh :
    (id : String) (s : Loop)
    → IsOnce s
    → contains id s.seen_call_ids ≡ false
    → contains id (used s) ≡ false
fresh id s h n = not-Within id (used s) s.seen_call_ids h.seen n

fresh-without :
    (id : String) (s : Loop)
    → contains id (used s) ≡ false
    → keys (without id s.response_calls) ≡ keys s.response_calls
fresh-without id s n = ap keys (
    without_absent id s.response_calls
      (ground (arith, contains-append id (keys s.response_calls) (executed s.effects))))

grow :
    (s : Loop) (id : String) {t : Loop}
    → used t ≡ id ∷ used s
    → t.seen_call_ids ≡ id ∷ s.seen_call_ids
    → IsOnce s
    → contains id (used s) ≡ false
    → IsOnce t
grow s id {t} more seen h absent = record {
  distinct = subst Distinct (sym more) (absent, h.distinct);
  seen =
      subst₂ Within (sym more) (sym seen)
        (ground (arith, eq_refl id), Within-cons id (used s) s.seen_call_ids h.seen);
}

arguments-IsOnce :
    (call : ArgumentsDone) (s : Loop) {t : Loop}
    → IsOnce s
    → on_arguments_done call s ≡ going t
    → IsOnce t
arguments-IsOnce call s h e =
    let id = call.call_id in
    let (new, seen, same, calls) = accepted_arguments call s e in
    let absent = fresh id s h new in
    grow s id (ground (arith, fresh-without id s absent)) seen h absent

-- A turn that takes no new id: the ids in use stay, or those that waited are dropped.
abbrev Quiet : Loop → Loop → Type 0
Quiet s t =
    ((used t ≡ used s) ⊎ (used t ≡ executed s.effects)) × (t.seen_call_ids ≡ s.seen_call_ids)

Quiet-IsOnce : (s t : Loop) → Quiet s t → IsOnce s → IsOnce t
Quiet-IsOnce s t (inl u, e) h = record {
  distinct = subst Distinct (sym u) h.distinct;
  seen = subst₂ Within (sym u) (sym e) h.seen;
}
Quiet-IsOnce s t (inr u, e) h = record {
  distinct = subst Distinct (sym u) (Distinct-append_right (keys s.response_calls) _ h.distinct);
  seen = subst₂ Within (sym u) (sym e) (Within-append_right (keys s.response_calls) _ _ h.seen);
}

execute-Quiet : (s : Loop) → Quiet s (execute_calls s)
unfolding execute_calls
execute-Quiet s = (inl (executed-started s.response_calls s.effects), refl)

refuse-Quiet :
    (c : Config) (now : ℕ) (delivered : ClientEvent → Bool) (s : Loop)
    → Always (Quiet s) (refuse_budget c now delivered s)
unfolding refuse_budget
refuse-Quiet c now delivered s = ground (
  arith,
  refuse_calls-frame delivered (keys s.response_calls)
      (record s { budget_refusals = s.budget_refusals + 1; response_calls = [] }),
)

dispatch-Quiet :
    (c : Config) (now : ℕ) (delivered : ClientEvent → Bool) (s : Loop)
    → Always (Quiet s) (dispatch_calls c now delivered s)
unfolding tool_budget_exhausted
dispatch-Quiet c now delivered s =
    unfold dispatch_calls in
    elim (Bool-cases
      (tool_budget_exhausted c s.tool_iterations s.tool_calls (length s.response_calls))) [
        | inl e ↦ rw e (refuse-Quiet c now delivered s)
        | inr e ↦ rw e (execute-Quiet s)
      ]

done_with_calls-Quiet :
    (c : Config) (now : ℕ) (delivered : ClientEvent → Bool) (calls : List DoneCall) (s : Loop)
    → Always (Quiet s) (on_done_with_calls c now delivered calls s)
unfolding on_done_with_calls
done_with_calls-Quiet c now delivered calls s =
    let ended_s : Loop =
      if ends_conversation calls then record s { end_after_response = true } else s in
    ground (arith, check_calls-frame [] calls ended_s, dispatch-Quiet c now delivered ended_s)

response_done-Quiet :
    (c : Config) (now : ℕ) (delivered : ClientEvent → Bool) (r : RealtimeResponse) (s : Loop)
    → Always (Quiet s) (on_response_done c now delivered r s)
unfolding on_response_done
response_done-Quiet c now delivered r s =
    ground (arith, done_with_calls-Quiet c now delivered (done_calls 0 r.output) s)

by-Quiet :
    (s : Loop) (o : Outcome) {t : Loop} → Always (Quiet s) o → IsOnce s → o ≡ going t → IsOnce t
by-Quiet s o {t} q h e = Quiet-IsOnce s t (Always-going (Quiet s) o q e) h

server-IsOnce :
    (c : Config) (now : ℕ) (delivered : ClientEvent → Bool) (event : ServerEvent) (s : Loop)
    {t : Loop}
    → IsOnce s
    → on_server_event c now delivered event s ≡ going t
    → IsOnce t
unfolding on_server_event
server-IsOnce c now delivered (response_function_call_arguments_done call) s h e =
    arguments-IsOnce call s h e
server-IsOnce c now delivered (response_done r) s h e =
    by-Quiet s (on_response_done c now delivered r s) (response_done-Quiet c now delivered r s) h e
server-IsOnce c now delivered (response_created id) s h e =
    by-Quiet s (on_response_created c now id s) (ground arith) h e
server-IsOnce c now delivered input_audio_speech_started s h e =
    by-Quiet s (on_speech_started s) (ground arith) h e
server-IsOnce c now delivered event s h e =
    by-Quiet s (on_server_event c now delivered event s) (ground arith) h e

refresh-IsOnce : (c : Config) (now : ℕ) (s : Loop) → IsOnce s → IsOnce (refresh c now s)
refresh-IsOnce c now s h = ground arith

transport-IsOnce :
    (c : Config) (now : ℕ) (delivered : ClientEvent → Bool) (event : Option TransportEvent)
    (s : Loop) {t : Loop}
    → IsOnce s
    → on_transport c now delivered event s ≡ going t
    → IsOnce t
unfolding on_transport
transport-IsOnce c now delivered (some (data_event (some event))) s h e =
    server-IsOnce c now delivered event (refresh c now s) (refresh-IsOnce c now s h) e
transport-IsOnce c now delivered (some (data_event none)) s h e = cc
transport-IsOnce c now delivered (some (connection peer_other)) s h e = ground arith
transport-IsOnce c now delivered (some (connection peer_failed)) s h e = cc
transport-IsOnce c now delivered (some (connection peer_closed)) s h e = cc
transport-IsOnce c now delivered (some (audio_error message)) s h e = cc
transport-IsOnce c now delivered none s h e = cc

turn-IsOnce :
    (c : Config) (now : ℕ) (delivered : ClientEvent → Bool) (wake : Wake) (s : Loop) {t : Loop}
    → IsOnce s
    → turn c now delivered wake s ≡ going t
    → IsOnce t
unfolding turn
turn-IsOnce c now delivered (transport event) s h e = transport-IsOnce c now delivered event s h e
turn-IsOnce c now delivered wake s h e = by-Quiet s (turn c now delivered wake s) (ground arith) h e

reach-IsOnce : (c : Config) (s₀ : Loop) {s : Loop} → IsOnce s₀ → Reach c s₀ s → IsOnce s
reach-IsOnce c s₀ h start = h
reach-IsOnce c s₀ h (next {s} now delivered wake before can step) =
    turn-IsOnce c now delivered wake s (reach-IsOnce c s₀ h before) step

start-IsOnce : (c : Config) (now : ℕ) (player : Player) → IsOnce (loop_start c now player)
unfolding loop_start
start-IsOnce c now player = record { distinct = tt; seen = tt }

-- No call id reaches the tools twice in a session, and every id that reached them or waits for its
-- `response.done` is among the seen ones, over any server events, any clock and any deliveries.
pub executed_once :
    (c : Config) (begin : ℕ) (player : Player) (s : Loop)
    → Reach c (loop_start c begin player) s
    → Distinct (keys s.response_calls ++ executed s.effects)
      × Within (keys s.response_calls ++ executed s.effects) s.seen_call_ids
executed_once c begin player s r =
    let h = reach-IsOnce c (loop_start c begin player) (start-IsOnce c begin player) r in
    (h.distinct, h.seen)
