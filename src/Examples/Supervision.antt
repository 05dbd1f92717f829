-- ===== src/Examples/Supervision.antt =====
-- Sessions, the player task, tools, the routing and the log at concrete inputs.
use xiaoai_agent.Prelude.{ℕ, ◌≡◌, ◌≤◌, refl, true, false, List, [], ◌∷◌, none, some}
use xiaoai_agent.Session.Supervisor.{returned, forced_timeout}
use xiaoai_agent.Session.Supervisor.Actions.{
  Action, prepare_action, enter_action, mark_action, cancel_action, setup_action, notice_action,
  deadline_action, join_action, clear_action, publish_action, worker_ends_action, act, run,
  new_service,
}
use xiaoai_agent.Session.Supervisor.Safety.{
  one_worker, cancelled-acquires_nothing, finish, final_outcome, finish-publishes,
}
use xiaoai_agent.Session.Supervisor.Invariant.{is_running}
use xiaoai_agent.Session.Player.Task.{
  Event, arrive, receive, spawned, completed, clear_changed, new_task, Task, step, player_loop,
  drain_queue, clear, take_block, with_process, write_block, flatten,
}
use xiaoai_agent.Session.Player.Task.Plays.{arrivals, clear-plays}
use xiaoai_agent.Session.Tools.{
  ToolCall, object, text, native_answer, generic_cancelled, execute, execute_by, execute_object,
  native_output, output_of, success, max_tool_output_bytes, new_runtime,
}
use xiaoai_agent.Session.Tools.Effects.{is_object, Answered, execute-success}
use xiaoai_agent.Mcp.{Turn, installs, fails, install_done, fail_done, race, install_turn, fail_turn}
use xiaoai_agent.Mcp.Cancels.{has, both_begin, race-cancels}
use xiaoai_agent.Status.{push_all, new_buffer}
use xiaoai_agent.Status.Log.{last, lines_of, push_all-last}

-- Two sessions are prepared, and the first one runs.
abbrev opening : List Action
opening = prepare_action ∷ prepare_action ∷ enter_action 0 ∷ enter_action 1 ∷ setup_action 0 ∷ []

runs : is_running ((run opening new_service).sessions 0).worker ≡ true
unfolding run act
runs = refl

abbrev first : ℕ
first = 0

one_worker_example :
    (first ≡ first)
    × ((run opening new_service).active
        ≡ some (record { id = ((run opening new_service).sessions 0).id; handle = 0 }))
one_worker_example = one_worker opening 0 0 runs runs

-- The first session is cancelled and crosses its deadline.
abbrev overdue_run : List Action
overdue_run =
    prepare_action
    ∷ enter_action 0
    ∷ cancel_action 0
    ∷ notice_action 0
    ∷ deadline_action 0
    ∷ worker_ends_action 0 returned
    ∷ join_action 0
    ∷ clear_action 0
    ∷ publish_action 0
    ∷ []

times_out : ((run overdue_run new_service).sessions 0).terminal ≡ some forced_timeout
unfolding run act
times_out = refl

cancelled-acquires_nothing_example :
    ((run opening (act (mark_action 0) (run (prepare_action ∷ []) new_service))).sessions
      0).acquired
    ≡ ((run (prepare_action ∷ []) new_service).sessions 0).acquired
unfolding run act
cancelled-acquires_nothing_example = cancelled-acquires_nothing (prepare_action ∷ []) opening 0 refl

finish-publishes_example :
    (((run (finish 0 returned) (run opening new_service)).sessions 0).terminal
      ≡ some (final_outcome ((run opening new_service).sessions 0) returned))
    × ((run (finish 0 returned) (run opening new_service)).active ≡ none)
unfolding run act
finish-publishes_example = finish-publishes opening 0 returned refl

abbrev blocks : List Event
blocks = arrive (1 ∷ 2 ∷ []) ∷ receive spawned completed ∷ arrive (3 ∷ 4 ∷ []) ∷ []

-- A block is left from before the clear.
abbrev stale : Task
stale = record new_task { queue = (9 ∷ []) ∷ [] }

plays :
    (drain_queue (player_loop true blocks (step true clear_changed stale))).process
    ≡ some (1 ∷ 2 ∷ 3 ∷ 4 ∷ [])
unfolding drain_queue player_loop step clear take_block with_process write_block
plays = refl

clear-plays_example : (1 ∷ 2 ∷ 3 ∷ 4 ∷ []) ≡ flatten (arrivals blocks)
clear-plays_example = clear-plays blocks stale refl refl plays

abbrev lamp : ToolCall
lamp = record {
  arguments = object;
  is_native = true;
  native = native_answer (text "on" 2);
  generic = generic_cancelled;
}

lit : (execute lamp new_runtime).1 ≡ success "on"
unfolding execute execute_by execute_object native_output output_of
lit = refl

execute-success_example :
    (bytes : ℕ) × (is_object object ≡ true)
    × (bytes ≤ max_tool_output_bytes)
    × Answered lamp (text "on" bytes)
execute-success_example = execute-success lamp new_runtime lit

-- The failure sets its flag between the two tests of the installation.
abbrev turns : List Turn
turns = installs ∷ installs ∷ fails ∷ installs ∷ installs ∷ fails ∷ fails ∷ []

installed : (race 7 turns (both_begin false none [])).installer ≡ install_done
unfolding race install_turn fail_turn
installed = refl

failed_done : (race 7 turns (both_begin false none [])).failer ≡ fail_done
unfolding race install_turn fail_turn
failed_done = refl

race-cancels_example : has 7 (race 7 turns (both_begin false none [])).cancelled ≡ true
race-cancels_example = race-cancels 7 turns false none [] installed failed_done

push_all-last_example :
    (push_all ("one" ∷ "" ∷ "two" ∷ "three" ∷ []) (new_buffer 2 4)).entries
    ≡ last 2 (lines_of 4 ("one" ∷ "" ∷ "two" ∷ "three" ∷ []))
push_all-last_example = push_all-last 2 4 ("one" ∷ "" ∷ "two" ∷ "three" ∷ [])
