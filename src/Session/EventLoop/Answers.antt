-- ===== src/Session/EventLoop/Answers.antt =====
-- Each started tool is answered at most once, and no answer is made up.
use mathlib.Core.List.{Perm, perm_middle, append_assoc}
use mathlib.Core.List.Perm
use xiaoai_agent.Prelude.{
  ℕ, ◌+◌, Bool, true, ◌≡◌, refl, sym, inl, inr, Bool-cases, length, if◌then◌else◌, String, List, [],
  ◌∷◌, ◌++◌, arith, Option, none, some, str_eq, eq_iff,
}
use xiaoai_agent.Prelude.Keys.{keys, contains}
use xiaoai_agent.Session.Player.{Player}
use xiaoai_agent.Session.Wire.{
  ClientEvent, response_cancel, function_call_output, response_create, tool_output,
  tool_budget_exhausted as refusal, RealtimeResponse, ServerEvent,
  response_function_call_arguments_done, response_done, TransportEvent, data_event, connection,
  audio_error, peer_other, peer_failed, peer_closed,
}
use xiaoai_agent.Session.LoopState.{
  Effect, executes, sends, PendingFunctionCall, Loop, Config, Outcome, going, ended, broken,
  loop_start, post, tool_budget_exhausted,
}
use xiaoai_agent.Session.ServerEvents.{
  on_arguments_done, on_response_done, on_done_with_calls, dispatch_calls, refuse_budget,
  refuse_calls, execute_calls, DoneCall, done_calls, ends_conversation, started,
}
use xiaoai_agent.Session.Outcomes.{
  Always, Always-going, executed, executed-started, check_calls-frame,
}
use xiaoai_agent.Session.EventLoop.{
  Wake, tool_finished, transport, enabled, remove_one, on_tool_finished, on_server_event,
  on_transport, refresh, turn, Reach, start, next,
}

-- The ids of the tool outputs that were sent, newest first; a refusal is no output.
abbrev pub answered : List Effect → List String
answered [] = []
answered (executes id call ∷ es) = answered es
answered (sends (response_cancel id) ∷ es) = answered es
answered (sends response_create ∷ es) = answered es
answered (sends (function_call_output id refusal) ∷ es) = answered es
answered (sends (function_call_output id (tool_output output)) ∷ es) = id ∷ answered es

-- What the tools owe: the started ids against the pending and the answered ones.
record IsBalanced (s : Loop) : Type 0 where
  owed : Perm (executed s.effects) (s.pending_tools ++ answered s.effects)

abbrev Still : Loop → Loop → Type 0
Still s t =
    (t.pending_tools ≡ s.pending_tools)
    × (executed t.effects ≡ executed s.effects)
    × (answered t.effects ≡ answered s.effects)

Still-IsBalanced : (s t : Loop) → Still s t → IsBalanced s → IsBalanced t
Still-IsBalanced s t h b = record { owed = rw (h.0, h.1, h.2) b.owed }

answered-started :
    (calls : List (String × PendingFunctionCall)) (es : List Effect)
    → answered (started calls es) ≡ answered es
answered-started [] es = refl
answered-started ((id, call) ∷ calls) es = answered-started calls es

perm-append_left :
    (xs : List String) {ys zs : List String} → Perm ys zs → Perm (xs ++ ys) (xs ++ zs)
perm-append_left [] p = p
perm-append_left (x ∷ xs) p = Perm.cons x (perm-append_left xs p)

execute-IsBalanced : (s : Loop) → IsBalanced s → IsBalanced (execute_calls s)
unfolding execute_calls
execute-IsBalanced s b = record {
  owed =
      rw
        (
          executed-started s.response_calls s.effects,
          answered-started s.response_calls s.effects,
          append_assoc (keys s.response_calls) s.pending_tools (answered s.effects),
        )
        (perm-append_left (keys s.response_calls) b.owed);
}

remove_one-perm :
    (x : String) (ys : List String) → contains x ys ≡ true → Perm ys (x ∷ remove_one x ys)
remove_one-perm x [] h = cc
remove_one-perm x (y ∷ ys) h = elim (Bool-cases (str_eq x y)) [
  | inl e ↦ rw (e, sym ((eq_iff x y).0 e)) (Perm.refl (x ∷ ys))
  | inr e ↦
      rw (e, remove_one)
        (Perm.trans (Perm.cons y (remove_one-perm x ys (ground arith))) (Perm.swap x y _))
]

refuse_calls-Still :
    (delivered : ClientEvent → Bool) (ids : List String) (s : Loop)
    → Always (Still s) (refuse_calls delivered ids s)
unfolding refuse_calls
refuse_calls-Still delivered [] s = (refl, refl, refl)
refuse_calls-Still delivered (id ∷ ids) s =
    ground (arith, refuse_calls-Still delivered ids (post (function_call_output id refusal) s))

refuse-Still :
    (c : Config) (now : ℕ) (delivered : ClientEvent → Bool) (s : Loop)
    → Always (Still s) (refuse_budget c now delivered s)
unfolding refuse_budget
refuse-Still c now delivered s = ground (
  arith,
  refuse_calls-Still delivered (keys s.response_calls)
      (record s { budget_refusals = s.budget_refusals + 1; response_calls = [] }),
)

Still-on : (s : Loop) (o : Outcome) → IsBalanced s → Always (Still s) o → Always IsBalanced o
Still-on s (going t) b h = Still-IsBalanced s t h b
Still-on s (ended t) b h = tt
Still-on s (broken e t) b h = tt

dispatch-IsBalanced :
    (c : Config) (now : ℕ) (delivered : ClientEvent → Bool) (s : Loop)
    → IsBalanced s
    → Always IsBalanced (dispatch_calls c now delivered s)
dispatch-IsBalanced c now delivered s b =
    unfold dispatch_calls in
    elim (Bool-cases
      (tool_budget_exhausted c s.tool_iterations s.tool_calls (length s.response_calls))) [
        | inl e ↦
            rw e (Still-on s (refuse_budget c now delivered s) b (refuse-Still c now delivered s))
        | inr e ↦ rw e (execute-IsBalanced s b)
      ]

done_with_calls-IsBalanced :
    (c : Config) (now : ℕ) (delivered : ClientEvent → Bool) (calls : List DoneCall) (s : Loop)
    → IsBalanced s
    → Always IsBalanced (on_done_with_calls c now delivered calls s)
unfolding on_done_with_calls
done_with_calls-IsBalanced c now delivered calls s b =
    let s' : Loop = if ends_conversation calls then record s { end_after_response = true } else s in
    let b' : IsBalanced s' = Still-IsBalanced s s' (ground arith) b in
    ground (arith, check_calls-frame [] calls s', dispatch-IsBalanced c now delivered s' b')

response_done-IsBalanced :
    (c : Config) (now : ℕ) (delivered : ClientEvent → Bool) (r : RealtimeResponse) (s : Loop)
    → IsBalanced s
    → Always IsBalanced (on_response_done c now delivered r s)
unfolding on_response_done
response_done-IsBalanced c now delivered r s b =
    ground (arith, done_with_calls-IsBalanced c now delivered (done_calls 0 r.output) s b)

server-IsBalanced :
    (c : Config) (now : ℕ) (delivered : ClientEvent → Bool) (event : ServerEvent) (s : Loop)
    → IsBalanced s
    → Always IsBalanced (on_server_event c now delivered event s)
unfolding on_server_event
server-IsBalanced c now delivered (response_function_call_arguments_done call) s b =
    Still-on s (on_arguments_done call s) b (ground arith)
server-IsBalanced c now delivered (response_done r) s b =
    response_done-IsBalanced c now delivered r s b
server-IsBalanced c now delivered event s b =
    Still-on s (on_server_event c now delivered event s) b (ground arith)

transport-IsBalanced :
    (c : Config) (now : ℕ) (delivered : ClientEvent → Bool) (event : Option TransportEvent)
    (s : Loop)
    → IsBalanced s
    → Always IsBalanced (on_transport c now delivered event s)
unfolding on_transport
transport-IsBalanced c now delivered (some (data_event (some event))) s b =
    server-IsBalanced c now delivered event (refresh c now s)
      (Still-IsBalanced s (refresh c now s) (ground arith) b)
transport-IsBalanced c now delivered (some (data_event none)) s b = tt
transport-IsBalanced c now delivered (some (connection peer_other)) s b = b
transport-IsBalanced c now delivered (some (connection peer_failed)) s b = tt
transport-IsBalanced c now delivered (some (connection peer_closed)) s b = tt
transport-IsBalanced c now delivered (some (audio_error message)) s b = tt
transport-IsBalanced c now delivered none s b = tt

-- The lists behind one finished tool.
Answers : String → Loop → Loop → Type 0
Answers id s t =
    (t.pending_tools ≡ remove_one id s.pending_tools)
    × (executed t.effects ≡ executed s.effects)
    × (answered t.effects ≡ id ∷ answered s.effects)

tool-Answers :
    (c : Config) (now : ℕ) (delivered : ClientEvent → Bool) (id output : String) (s : Loop)
    → Always (Answers id s) (on_tool_finished c now delivered id output s)
unfolding Answers on_tool_finished
tool-Answers c now delivered id output s = ground arith

Answers-IsBalanced :
    (id : String) (s t : Loop)
    → contains id s.pending_tools ≡ true
    → Answers id s t
    → IsBalanced s
    → IsBalanced t
unfolding Answers
Answers-IsBalanced id s t m (pending, same, more) b = record {
  owed =
      rw (pending, same, more)
        (Perm.trans b.owed (
          Perm.trans
            (Perm.append (remove_one-perm id s.pending_tools m) (Perm.refl (answered s.effects)))
            (Perm.symm (perm_middle (remove_one id s.pending_tools) (answered s.effects)))));
}

turn-IsBalanced :
    (c : Config) (now : ℕ) (delivered : ClientEvent → Bool) (wake : Wake) (s : Loop) {t : Loop}
    → IsBalanced s
    → enabled now wake s ≡ true
    → turn c now delivered wake s ≡ going t
    → IsBalanced t
turn-IsBalanced c now delivered (transport event) s b can e =
    Always-going IsBalanced _ (transport-IsBalanced c now delivered event s b) (unfold turn in e)
turn-IsBalanced c now delivered (tool_finished id output) s {t = t} b can e =
    Answers-IsBalanced id s t (unfold enabled in can)
      (Always-going (Answers id s) (on_tool_finished c now delivered id output s)
        (tool-Answers c now delivered id output s) (unfold turn in e))
      b
turn-IsBalanced c now delivered wake s b can e =
    Always-going IsBalanced (turn c now delivered wake s)
      (Still-on s (turn c now delivered wake s) b (unfold turn in ground arith)) e

reach-IsBalanced : (c : Config) (s₀ : Loop) {s : Loop} → IsBalanced s₀ → Reach c s₀ s → IsBalanced s
reach-IsBalanced c s₀ b start = b
reach-IsBalanced c s₀ b (next {s} now delivered wake before can step) =
    turn-IsBalanced c now delivered wake s (reach-IsBalanced c s₀ b before) can step

-- The calls that were started are, as a multiset, those still pending and those answered with an
-- output: in every state of a session no started call is lost, answered twice or made up.
pub started_pending_or_answered :
    (c : Config) (begin : ℕ) (player : Player) (s : Loop)
    → Reach c (loop_start c begin player) s
    → Perm (executed s.effects) (s.pending_tools ++ answered s.effects)
started_pending_or_answered c begin player s r =
    (reach-IsBalanced c (loop_start c begin player)
      (record { owed = unfold loop_start in Perm.refl [] }) r).owed
