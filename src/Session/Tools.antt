-- ===== src/Session/Tools.antt =====
-- The tool runtime of xiaoai-agent/src/qwen_voice.rs: one tool call from its arguments to its output.
-- What the JSON reader, the native MCP client and the generic tool task answer is an argument.
pub mod Effects
use xiaoai_agent.Prelude.{
  ℕ, ◌*◌, ◌+◌, Bool, true, false, not, List, [], ◌∷◌, Option, none, some, String, leb, take,
  if◌then◌else◌,
}
use xiaoai_agent.Prelude.Texts.{chars, of_chars}

-- What `serde_json::from_str` makes of the arguments.
pub data Arguments : Type 0 where
  object no_object invalid : Arguments

-- A text with its length in bytes, or an error.
pub data Answer : Type 0 where
  text : String → ℕ → Answer
  error : String → Answer

pub data NativeAnswer : Type 0 where
  native_answer : Answer → NativeAnswer
  native_timeout native_fail_closed : NativeAnswer

-- How the wait for a generic call ends; behind a deadline, whether the cleanup is in time.
pub data GenericAnswer : Type 0 where
  generic_completed : Answer → GenericAnswer
  generic_cancelled generic_stopped : GenericAnswer
  generic_deadline : Bool → GenericAnswer

pub data Output : Type 0 where
  success : String → Output
  failure : String → String → Output

pub record ToolRuntime : Type 0 where
  pub effects_observed : Bool
  pub fail_closed : Bool
  pub started : ℕ
  pub cancelled : ℕ

pub record ToolCall : Type 0 where
  pub arguments : Arguments
  pub is_native : Bool
  pub native : NativeAnswer
  pub generic : GenericAnswer

abbrev pub max_tool_output_bytes : ℕ
max_tool_output_bytes = 64 * 1024

abbrev pub observe : ToolRuntime → ToolRuntime
observe s = record s { effects_observed = true }

-- The cancellation sender of the call is taken at a normal end, sent at the deadline, and sent by the
-- drop otherwise.
unfoldable pub wait : GenericAnswer → ToolRuntime → ToolRuntime × Answer
wait (generic_completed a) s = (s, a)
wait generic_cancelled s = (s, error "generic tool call was cancelled")
wait generic_stopped s =
    (record s { cancelled = s.cancelled + 1 }, error "generic tool supervisor stopped unexpectedly")
wait (generic_deadline in_time) s = (
  record s { fail_closed = true; cancelled = s.cancelled + 1 },
  if in_time
      then error "generic tool deadline exceeded; turn failed closed after cancellation"
      else error "timed out cleaning up generic tool call",
)

-- `structured_tool_error` keeps 256 characters of a message; those written out here are shorter.
abbrev pub structured_tool_error : String → String → Output
structured_tool_error kind message = failure kind (of_chars (take 256 (chars message)))

unfoldable pub output_of : Answer → Output
output_of (error message) = structured_tool_error "tool_error" message
output_of (text t bytes) =
    if leb bytes max_tool_output_bytes
    then success t
    else failure "result_too_large" "tool result exceeded the safety limit"

unfoldable pub native_output : NativeAnswer → Output
unfolding output_of
native_output (native_answer a) = output_of a
native_output native_timeout =
    failure "timeout" "tool call deadline exceeded and MCP request was cancelled"
native_output native_fail_closed =
    failure "mcp_fail_closed" "MCP execution disabled after an ambiguous in-flight call"

abbrev pub start_generic_call : ToolRuntime → ToolRuntime
start_generic_call s = record s { started = s.started + 1 }

unfoldable pub execute_object : Bool → ToolCall → ToolRuntime → ToolRuntime × Output
unfolding native_output wait output_of
execute_object true c s = (observe s, native_output c.native)
execute_object false c s =
    let (after, answer) = wait c.generic (start_generic_call (observe s)) in
    (after, output_of answer)

unfoldable pub execute_by : Arguments → ToolCall → ToolRuntime → ToolRuntime × Output
unfolding execute_object
execute_by object c s = execute_object c.is_native c s
execute_by no_object c s = (s, failure "invalid_arguments" "arguments must be a JSON object")
execute_by invalid c s = (s, failure "invalid_arguments" "arguments are not valid JSON")

unfoldable pub execute : ToolCall → ToolRuntime → ToolRuntime × Output
unfolding execute_by
execute c s = execute_by c.arguments c s

unfoldable pub execute_all : List ToolCall → ToolRuntime → ToolRuntime
unfolding execute
execute_all [] s = s
execute_all (c ∷ cs) s = execute_all cs (execute c s).0

abbrev pub transparent_reconnect_allowed : ToolRuntime → Bool
transparent_reconnect_allowed s = not s.effects_observed

abbrev pub new_runtime : ToolRuntime
new_runtime = record { effects_observed = false; fail_closed = false; started = 0; cancelled = 0 }
