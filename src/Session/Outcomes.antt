-- ===== src/Session/Outcomes.antt =====
-- Postconditions of a turn, with the rules for its parts.
use xiaoai_agent.Prelude.{Bool, ◌≡◌, refl, String, List, [], ◌∷◌, ◌++◌, arith, ap}
use xiaoai_agent.Prelude.Keys.{keys}
use xiaoai_agent.Session.Wire.{ClientEvent, function_call_output, tool_budget_exhausted as refusal}
use xiaoai_agent.Session.LoopState.{
  PendingFunctionCall, Effect, sends, executes, Loop, Outcome, going, ended, broken, ◌>>=◌,
}
use xiaoai_agent.Session.ServerEvents.{DoneCall, check_calls, refuse_calls, started}

-- `P` holds of the state, if the loop goes on.
abbrev pub Always : (Loop → Type 0) → Outcome → Type 0
Always P (going s) = P s
Always P (ended s) = Unit {0}
Always P (broken e s) = Unit {0}

pub Always-going : (P : Loop → Type 0) (o : Outcome) {t : Loop} → Always P o → o ≡ going t → P t
Always-going P (going s) h e = ground arith
Always-going P (ended s) h e = cc
Always-going P (broken x s) h e = cc

pub Always-bind :
    (P Q : Loop → Type 0) (o : Outcome) (k : Loop → Outcome)
    → Always P o
    → ((s : Loop) → P s → Always Q (k s))
    → Always Q (o >>= k)
Always-bind P Q (going s) k h next = next s h
Always-bind P Q (ended s) k h next = tt
Always-bind P Q (broken e s) k h next = tt

-- The ids of the calls that were handed to the tools, newest first.
abbrev pub executed : List Effect → List String
executed [] = []
executed (sends e ∷ es) = executed es
executed (executes id call ∷ es) = id ∷ executed es

pub executed-started :
    (calls : List (String × PendingFunctionCall)) (es : List Effect)
    → executed (started calls es) ≡ keys calls ++ executed es
executed-started [] es = refl
executed-started ((id, call) ∷ calls) es =
    ap (λ (l : List String). id ∷ l) (executed-started calls es)

-- The checks on the calls change nothing.
pub check_calls-frame :
    (ids : List String) (cs : List DoneCall) (s : Loop) → Always (λ t. t ≡ s) (check_calls ids cs s)
unfolding check_calls
check_calls-frame ids [] s = refl
check_calls-frame ids (c ∷ cs) s = ground (arith, check_calls-frame (c.call_id ∷ ids) cs s)

-- A refusal to every call sends, and starts nothing.
abbrev pub OnlySends : Loop → Loop → Type 0
OnlySends s t = (t ≡ record s { effects = t.effects }) × (executed t.effects ≡ executed s.effects)

pub refuse_calls-frame :
    (delivered : ClientEvent → Bool) (ids : List String) (s : Loop)
    → Always (OnlySends s) (refuse_calls delivered ids s)
unfolding refuse_calls
refuse_calls-frame delivered [] s = (refl, refl)
refuse_calls-frame delivered (id ∷ ids) s = ground (
  arith,
  refuse_calls-frame delivered ids
      (record s { effects = sends (function_call_output id refusal) ∷ s.effects }),
)
