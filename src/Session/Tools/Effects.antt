-- ===== src/Session/Tools/Effects.antt =====
-- What the tool calls of xiaoai-agent/src/qwen_voice.rs leave behind, and what they answer.
use xiaoai_agent.Prelude.{
  ℕ, ◌≡◌, ◌≤◌, refl, ap, Bool, true, false, not, ◌||◌, List, [], ◌∷◌, String, arith, ◌⊎◌, inl, inr,
}
use xiaoai_agent.Session.Tools.{
  Arguments, object, no_object, invalid, Answer, text, error, NativeAnswer, native_answer,
  native_timeout, native_fail_closed, GenericAnswer, generic_completed, generic_cancelled,
  generic_stopped, generic_deadline, success, ToolRuntime, ToolCall, max_tool_output_bytes, wait,
  output_of, native_output, execute_object, execute_by, execute, execute_all,
  transparent_reconnect_allowed, new_runtime,
}

abbrev pub is_object : Arguments → Bool
is_object object = true
is_object _ = false

abbrev pub any_object : List ToolCall → Bool
any_object [] = false
any_object (c ∷ cs) = is_object c.arguments || any_object cs

wait-effects :
    (g : GenericAnswer) (s : ToolRuntime) → (wait g s).0.effects_observed ≡ s.effects_observed
unfolding wait
wait-effects g s = ground arith

execute-effects :
    (c : ToolCall) (s : ToolRuntime)
    → (execute c s).0.effects_observed ≡ (s.effects_observed || is_object c.arguments)
unfolding execute execute_by execute_object wait
execute-effects c s = ground arith

execute_all-effects :
    (cs : List ToolCall) (s : ToolRuntime)
    → (execute_all cs s).effects_observed ≡ (s.effects_observed || any_object cs)
unfolding execute_all
execute_all-effects [] s = ground arith
execute_all-effects (c ∷ cs) s =
    ground (arith, execute_all-effects cs (execute c s).0, execute-effects c s)

-- A session may reconnect unnoticed exactly as long as no tool call had a JSON object for its
-- arguments, whatever the calls answered.
reconnect_allowed-exact :
    (cs : List ToolCall)
    → transparent_reconnect_allowed (execute_all cs new_runtime) ≡ not (any_object cs)
reconnect_allowed-exact cs = ap not (execute_all-effects cs new_runtime)

-- What the tool itself has to have answered.
abbrev pub Answered : ToolCall → Answer → Type 0
Answered c a =
    ((c.is_native ≡ true) × (c.native ≡ native_answer a))
    ⊎ ((c.is_native ≡ false) × (c.generic ≡ generic_completed a))

output_of-success :
    (a : Answer) {t : String}
    → output_of a ≡ success t
    → (bytes : ℕ) × (a ≡ text t bytes) × (bytes ≤ max_tool_output_bytes)
unfolding output_of
output_of-success (error message) h = ground arith
output_of-success (text t bytes) h = (bytes, ground arith, ground arith)

native_output-success :
    (n : NativeAnswer) {t : String}
    → native_output n ≡ success t
    → (bytes : ℕ) × (n ≡ native_answer (text t bytes)) × (bytes ≤ max_tool_output_bytes)
unfolding native_output
native_output-success (native_answer a) h =
    let (bytes, e, short) = output_of-success a h in (bytes, ap native_answer e, short)
native_output-success native_timeout h = ground arith
native_output-success native_fail_closed h = ground arith

wait-success :
    (g : GenericAnswer) (s : ToolRuntime) {t : String}
    → output_of (wait g s).1 ≡ success t
    → (bytes : ℕ) × (g ≡ generic_completed (text t bytes)) × (bytes ≤ max_tool_output_bytes)
unfolding wait output_of
wait-success (generic_completed a) s h =
    let (bytes, e, short) = output_of-success a h in (bytes, ap generic_completed e, short)
wait-success generic_cancelled s h = ground arith
wait-success generic_stopped s h = ground arith
wait-success (generic_deadline true) s h = ground arith
wait-success (generic_deadline false) s h = ground arith

object-success :
    (native : Bool) (c : ToolCall) (s : ToolRuntime) {t : String}
    → c.is_native ≡ native
    → (execute_object native c s).1 ≡ success t
    → (bytes : ℕ) × (bytes ≤ max_tool_output_bytes) × Answered c (text t bytes)
unfolding execute_object
object-success true c s e h =
    let (bytes, answer, short) = native_output-success c.native h in (bytes, short, inl (e, answer))
object-success false c s e h =
    let (bytes, answer, short) = wait-success c.generic _ h in (bytes, short, inr (e, answer))

by-success :
    (a : Arguments) (c : ToolCall) (s : ToolRuntime) {t : String}
    → c.arguments ≡ a
    → (execute_by a c s).1 ≡ success t
    → (bytes : ℕ) × (is_object c.arguments ≡ true)
      × (bytes ≤ max_tool_output_bytes)
      × Answered c (text t bytes)
unfolding execute_by
by-success object c s e h =
    let (bytes, short, answered) = object-success c.is_native c s refl h in
    (bytes, ap is_object e, short, answered)
by-success no_object c s e h = ground arith
by-success invalid c s e h = ground arith

-- A call has the output of a success only if its arguments are an object and the tool that the name
-- leads to answered that text, within the limit.
pub execute-success :
    (c : ToolCall) (s : ToolRuntime) {t : String}
    → (execute c s).1 ≡ success t
    → (bytes : ℕ) × (is_object c.arguments ≡ true)
      × (bytes ≤ max_tool_output_bytes)
      × Answered c (text t bytes)
unfolding execute
execute-success c s h = by-success c.arguments c s refl h

-- The flag that a call behind its deadline sets is not looked at: the next call answers the same
-- whether it is set or not.
pub execute-ignores_fail_closed :
    (c : ToolCall) (s : ToolRuntime) (b : Bool)
    → (execute c (record s { fail_closed = b })).1 ≡ (execute c s).1
unfolding execute execute_by execute_object wait
execute-ignores_fail_closed c s b = ground arith
