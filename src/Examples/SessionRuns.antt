-- ===== src/Examples/SessionRuns.antt =====
-- Runs of the native Qwen session: xiaoai-agent/src/qwen_voice/webrtc_session.rs.
use xiaoai_agent.Prelude.{Bool, true, ◌≡◌, refl, [], ◌∷◌, ◌++◌, none, some, length}
use mathlib.Core.List.{Perm}
use xiaoai_agent.Prelude.Keys.{insert, keys, Distinct, Within}
use xiaoai_agent.Session.Machine.{shutting_down}
use xiaoai_agent.Session.Player.{Player, running}
use xiaoai_agent.Session.Wire.{
  ClientEvent, ServerEvent, response_created, response_done, response_function_call_arguments_done,
  completed, function_call, data_event,
}
use xiaoai_agent.Session.LoopState.{
  Loop, Config, Outcome, going, ended, broken, loop_start, tool_budget_exhausted,
}
use xiaoai_agent.Session.Outcomes.{executed}
use xiaoai_agent.Session.EventLoop.{
  Wake, cancel_changed, transport, turn, enabled, cancel_response, Reach, start, next,
}
use xiaoai_agent.Session.EventLoop.Once.{executed_once}
use xiaoai_agent.Session.EventLoop.Answers.{answered, started_pending_or_answered}
use xiaoai_agent.Session.EventLoop.Control.{cancel_shuts_down}

abbrev pub config : Config
config = record { event_timeout = 10; idle_timeout = 30; max_calls = 1; max_iterations = 4 }

abbrev pub speaker : Player
speaker = record {
  control = running;
  spawn_gate = running;
  clear_generation = 0;
  accepting_audio = true;
  response_started_at = none;
  queue = [];
}

abbrev pub all_delivered : ClientEvent → Bool
all_delivered e = true

abbrev pub loop_of : Outcome → Loop
loop_of (going s) = s
loop_of (ended s) = s
loop_of (broken e s) = s

abbrev pub server : ServerEvent → Wake
server event = transport (some (data_event (some event)))

-- A session in which the model asks for the weather.
abbrev created : Wake
created = server (response_created "r1")

abbrev arguments : Wake
arguments = server (
    response_function_call_arguments_done (record {
      response_id = "r1";
      item_id = "i1";
      output_index = 0;
      call_id = "c1";
      name = "weather";
      arguments = "{}";
    }))

abbrev done_with_call : Wake
done_with_call = server (
    response_done (record {
      id = "r1";
      status = completed;
      output = function_call "i1" completed "c1" "weather" "{}" ∷ [];
    }))

after_created : Loop
unfolding turn loop_start
after_created = loop_of (turn config 1 all_delivered created (loop_start config 0 speaker))

after_arguments : Loop
unfolding turn
after_arguments = loop_of (turn config 2 all_delivered arguments after_created)

after_tools : Loop
unfolding turn
after_tools = loop_of (turn config 3 all_delivered done_with_call after_arguments)

reach_created : Reach config (loop_start config 0 speaker) after_created
unfolding after_created turn enabled loop_start
reach_created = next {s = loop_start config 0 speaker} 1 all_delivered created start refl refl

reach_arguments : Reach config (loop_start config 0 speaker) after_arguments
unfolding after_created after_arguments turn enabled loop_start insert
reach_arguments = next {s = after_created} 2 all_delivered arguments reach_created refl refl

reach_tools : Reach config (loop_start config 0 speaker) after_tools
unfolding after_created after_arguments after_tools turn enabled loop_start insert
reach_tools = next {s = after_arguments} 3 all_delivered done_with_call reach_arguments refl refl

runs_weather : executed after_tools.effects ≡ "c1" ∷ []
unfolding after_created after_arguments after_tools turn loop_start insert
runs_weather = refl

executed_once_example :
    Distinct (keys after_tools.response_calls ++ executed after_tools.effects)
    × Within
        (keys after_tools.response_calls ++ executed after_tools.effects)
        after_tools.seen_call_ids
executed_once_example = executed_once config 0 speaker after_tools reach_tools

started_pending_or_answered_example :
    Perm (executed after_tools.effects) (after_tools.pending_tools ++ answered after_tools.effects)
started_pending_or_answered_example =
    started_pending_or_answered config 0 speaker after_tools reach_tools

cancel_shuts_down_example :
    turn config 4 all_delivered (cancel_changed (some true)) after_tools
    ≡ ended (record after_tools {
      machine = shutting_down;
      active_response = none;
      effects = (cancel_response after_tools.active_response after_tools).effects;
    })
cancel_shuts_down_example =
    cancel_shuts_down config 0 speaker after_tools 4 all_delivered (some true) reach_tools refl

-- The state in which the model has used up its rounds of tools and asks again.
spent : Loop
spent = record after_arguments { tool_iterations = 4 }

spent_exhausted :
    tool_budget_exhausted config spent.tool_iterations spent.tool_calls
      (length spent.response_calls)
    ≡ true
unfolding spent tool_budget_exhausted
spent_exhausted = refl
