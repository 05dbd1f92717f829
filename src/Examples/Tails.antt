-- ===== src/Examples/Tails.antt =====
-- A cancellation by the server while the audio tail of a response plays:
-- xiaoai-agent/src/qwen_voice/webrtc_session.rs.
use xiaoai_agent.Prelude.{◌≡◌, refl, true, false, [], some, arith}
use xiaoai_agent.Session.Machine.{capturing, responding, ready, invalid}
use xiaoai_agent.Session.Wire.{
  RealtimeResponse, response_created, response_done, completed, canceled, data_event,
}
use xiaoai_agent.Session.LoopState.{Loop, going, broken, bad_transition, loop_start}
use xiaoai_agent.Session.EventLoop.{
  Wake, drain_elapsed, transport, turn, enabled, Reach, start, next,
}
use xiaoai_agent.Session.EventLoop.Moves.{Turned, session_turn-Turned}
use xiaoai_agent.Session.EventLoop.Tail.{canceled_tail_breaks_session}
use xiaoai_agent.Examples.SessionRuns.{config, speaker, all_delivered, loop_of, server}

abbrev first_created : Wake
first_created = server (response_created "r1")

abbrev first_done : Wake
first_done = server (response_done (record { id = "r1"; status = completed; output = [] }))

abbrev second_created : Wake
second_created = server (response_created "r2")

abbrev second_canceled : RealtimeResponse
second_canceled = record { id = "r2"; status = canceled; output = [] }

speaking : Loop
unfolding turn loop_start
speaking = loop_of (turn config 1 all_delivered first_created (loop_start config 0 speaker))

tail : Loop
unfolding turn
tail = loop_of (turn config 2 all_delivered first_done speaking)

again : Loop
unfolding turn
again = loop_of (turn config 3 all_delivered second_created tail)

cut : Loop
unfolding turn
cut = loop_of (turn config 4 all_delivered (server (response_done second_canceled)) again)

reach_cut : Reach config (loop_start config 0 speaker) cut
unfolding speaking tail again cut turn enabled loop_start
reach_cut =
    next {s = again} 4 all_delivered (server (response_done second_canceled))
      (next {s = tail} 3 all_delivered second_created
        (next {s = speaking} 2 all_delivered first_done
          (next {s = loop_start config 0 speaker} 1 all_delivered first_created start refl refl)
          refl refl)
        refl refl)
      refl refl

failed : Loop
unfolding turn
failed = loop_of (turn config 500 all_delivered drain_elapsed cut)

drain_fails :
    turn config 500 all_delivered drain_elapsed cut
    ≡ broken (bad_transition (invalid capturing ready)) failed
unfolding failed speaking tail again cut turn loop_start
drain_fails = refl

session_turn-Turned_example :
    Turned drain_elapsed cut (turn config 500 all_delivered drain_elapsed cut)
session_turn-Turned_example =
    session_turn-Turned config 0 speaker cut 500 all_delivered drain_elapsed reach_cut

again_machine : again.machine ≡ responding
unfolding speaking tail again turn loop_start
again_machine = refl

again_drain : again.drain_deadline ≡ some 402
unfolding speaking tail again turn loop_start
again_drain = refl

again_stays : again.end_after_response ≡ false
unfolding speaking tail again turn loop_start
again_stays = refl

canceled_tail_breaks_session_example :
    (t u : Loop) × (turn config 4 all_delivered
        (transport (some (data_event (some (response_done second_canceled)))))
        again
      ≡ going t)
    × (enabled 500 drain_elapsed t ≡ true)
    × (turn config 500 all_delivered drain_elapsed t
        ≡ broken (bad_transition (invalid capturing ready)) u)
unfolding speaking tail again turn loop_start
canceled_tail_breaks_session_example =
    canceled_tail_breaks_session config again 402 4 500 all_delivered second_canceled again_machine
      again_drain again_stays refl refl (omega arith)
