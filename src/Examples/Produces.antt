-- ===== src/Examples/Produces.antt =====
-- Instances of the theorems on a client's request to send.
use rocketmq_proxy.Prelude.{
  set, List, [], ◌∷◌, ◌++◌, Bytes, bytes, ◌≡◌, refl, bytes_less, same, lex_less, arith,
  signed_decimal, decimal, digits,
}
use rocketmq_proxy.StdMap
use rocketmq_proxy.Broker.{new_exception, what, until_zero}
use rocketmq_proxy.World.{ok, send, finish, finish_produce}
use rocketmq_proxy.Calls.Produce.{process_call}
use rocketmq_proxy.Calls.{response_error}
use rocketmq_proxy.Proto.{ProduceReply}
use rocketmq_proxy.Calls.Produce.Branches.{process_call_sends, with_new, outgoing}
use rocketmq_proxy.Calls.Produce.Retry.{
  tried, waiting_calls, failures, failures_retried, failures_give_up,
}
use rocketmq_proxy.Examples.{late_broker, produce_call, producer_unit, producing}

process_call_sends_example :
    process_call late_broker 0 producing
    ≡ ok (
      tt,
      record (with_new producing) {
        actions = (with_new producing).actions ++ send 0 (outgoing produce_call.request) ∷ [];
      },
    )
unfolding StdMap.find same lex_less
process_call_sends_example =
    process_call_sends late_broker producing 0 produce_call producer_unit refl refl refl refl refl

failures_retried_example :
    failures late_broker 0 (bytes "busy" ∷ bytes "down" ∷ []) producing
    ≡ ok (tt, tried producing 0 produce_call 2)
unfolding StdMap.find same lex_less
failures_retried_example =
    failures_retried late_broker producing 0 produce_call producer_unit refl refl refl refl refl
      refl (bytes "busy" ∷ bytes "down" ∷ []) (omega arith)

abbrev five_texts : List Bytes
five_texts = bytes "e" ∷ bytes "d" ∷ bytes "c" ∷ bytes "b" ∷ bytes "a" ∷ []

failures_give_up_example :
    let reply : ProduceReply = record {
      code = response_error;
      msg_id = produce_call.reply.msg_id;
      err_msg = bytes "f";
    } in
    failures late_broker 0 (bytes "f" ∷ five_texts) producing
    ≡ ok (
      tt,
      record (tried producing 0 produce_call 5) {
        produce_calls =
            set producing.produce_calls 0
              (record produce_call { status = finish; retry_count = 6; reply = reply })
            ++ waiting_calls 6;
        actions = (tried producing 0 produce_call 5).actions ++ finish_produce 0 reply ∷ [];
      },
    )
unfolding StdMap.find same lex_less
failures_give_up_example =
    failures_give_up late_broker producing 0 produce_call producer_unit refl refl refl refl refl
      refl (bytes "f") five_texts refl

what_example :
    what (new_exception (bytes "no route") 4294967295 (bytes "p.cpp") 12)
    ≡ bytes "msg: no route,error:-1,in file <p.cpp> line:12"
unfolding until_zero signed_decimal decimal digits
what_example = refl
