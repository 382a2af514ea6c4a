-- ===== src/Examples/Acks.antt =====
-- Instances of the theorems on a client's acknowledgement.
use rocketmq_proxy.Consumer.Recorded.{AckedIn}
use rocketmq_proxy.Prelude.{All, ◌++◌, bytes, ◌≡◌, refl, set, bytes_less, same, lex_less, nat_less}
use rocketmq_proxy.StdMap
use rocketmq_proxy.QueueTs
use rocketmq_proxy.MapTs
use rocketmq_proxy.Message.{consume_ack}
use rocketmq_proxy.Locker
use rocketmq_proxy.Consumer.{wait_lock}
use rocketmq_proxy.Consumer.Routing
use rocketmq_proxy.World.{ok}
use rocketmq_proxy.Worker.{new_consumer}
use rocketmq_proxy.Calls.{response_success, response_error}
use rocketmq_proxy.Calls.ConsumeAck.{process_call}
use rocketmq_proxy.Calls.ConsumeAck.Branches.{
  process_call_unknown, process_call_known, routed, acknowledged, finished_with, ack_log,
}
use rocketmq_proxy.Examples.{late_broker, idle_unit, busy_unit, delivered_unit, ack_call, acking}

process_call_unknown_example :
    let w = acking idle_unit in
    process_call late_broker 0 w
    ≡ ok (
      tt,
      finished_with
          (routed w 0 0 idle_unit ack_call)
          0
          ack_call
          response_error
          (bytes "msg[" ++ (bytes "m1" ++ bytes "] cannot be found!")),
    )
unfolding MapTs.try_get StdMap.find same lex_less Routing.any_knows new_consumer
process_call_unknown_example =
    process_call_unknown late_broker (acking idle_unit) 0 0 idle_unit ack_call refl refl refl refl
      refl

process_call_known_example :
    let w = acking busy_unit in
    (process_call late_broker 0 w
      ≡ ok (
        tt,
        finished_with
            (record (routed w 0 0 busy_unit ack_call) {
              consume_msg_units =
                  set w.consume_msg_units 0 (record delivered_unit { status = consume_ack });
              log_queue = QueueTs.push w.log_queue (ack_log ack_call);
            })
            0
            ack_call
            response_success
            (bytes "msg ack succ!"),
      ))
    × All (λ e. AckedIn (bytes "m1") 0 e.1) (acknowledged w busy_unit ack_call).lockers
unfolding MapTs.try_get StdMap.find StdMap.insert StdMap.place same lex_less Routing.any_knows
    wait_lock new_consumer Locker.new Locker.start Locker.add_msgs Locker.add_msg Locker.index_msg
    Locker.set_msg_status Locker.mark_all
process_call_known_example =
    process_call_known late_broker (acking busy_unit) 0 0 busy_unit ack_call refl refl refl refl 0
      delivered_unit refl refl refl
