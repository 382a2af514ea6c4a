-- ===== src/Locker/Examples.antt =====
-- Instances of the theorems on a batch, and tests.
use rocketmq_proxy.Prelude.{
  true, false, ◌&&◌, ◌||◌, List, [], ◌∷◌, ◌++◌, some, bytes, ◌≡◌, refl, map, length, if◌then◌else◌,
  same, lex_less, nat_less, bytes_less, ◌==◌, arith,
}
use rocketmq_proxy.StdMap
use rocketmq_proxy.StdMap.{find}
use rocketmq_proxy.Message.{MqMessageExt, msg_consume_ack, consume_success, reconsume_later}
use rocketmq_proxy.Locker.{
  ConsumerUnitLocker, new, start, add_msg, add_msgs, msg_unit, index_msg, is_done, is_nil, scan,
  conclude, trigger_check, set_msg_status, mark_all, get_msg, take_front,
}
use rocketmq_proxy.Locker.Trigger.{all_acked, verdict, trigger_check_lem}
use rocketmq_proxy.Locker.Marks.{set_msg_status_lem, pointers, contains, is_cons}
use rocketmq_proxy.Locker.History.{Event, fetches, acks, run, step}
use rocketmq_proxy.Locker.Invariant.{done_all_acked}
use rocketmq_proxy.Locker.Result.{done_verdict}
use rocketmq_proxy.Locker.Build.{Batch, addresses, drain, drain-new, unit_of}
use rocketmq_proxy.Locker.Completes.{batch_completes}

abbrev hello : MqMessageExt
hello = record {
  msg_id = bytes "m1";
  delay_time_level = 0;
  body = bytes "hello";
  topic = bytes "t";
}

abbrev world : MqMessageExt
world = record {
  msg_id = bytes "m2";
  delay_time_level = 3;
  body = bytes "world";
  topic = bytes "t";
}

-- The unit of the first message has the higher address.
abbrev two_msgs : Batch
two_msgs = (9, hello) ∷ (4, world) ∷ []

abbrev rejected_once : List Event
rejected_once =
    fetches ∷ acks (bytes "m1") reconsume_later ∷ fetches ∷ acks (bytes "m2") consume_success ∷ []

abbrev done_once : is_done (run (new 5 (bytes "g") two_msgs) rejected_once) ≡ true
unfolding run step new start add_msgs add_msg msg_unit index_msg scan conclude trigger_check
    set_msg_status mark_all get_msg take_front StdMap.find StdMap.insert StdMap.place StdMap.assign
    StdMap.overwrite same lex_less
done_once = refl

-- The result of that history.
rejected_once_status : (run (new 5 (bytes "g") two_msgs) rejected_once).status ≡ reconsume_later
unfolding run step new start add_msgs add_msg msg_unit index_msg scan conclude trigger_check
    set_msg_status mark_all get_msg take_front StdMap.find StdMap.insert StdMap.place StdMap.assign
    StdMap.overwrite same lex_less
rejected_once_status = refl

-- An acknowledgement before the last message is fetched does not end the wait.
early_ack :
    is_done (
      run
        (new 5 (bytes "g") two_msgs)
        (fetches ∷ acks (bytes "m1") consume_success ∷ acks (bytes "m2") consume_success ∷ []))
    ≡ false
unfolding run step new start add_msgs add_msg msg_unit index_msg scan conclude trigger_check
    set_msg_status mark_all get_msg take_front StdMap.find StdMap.insert StdMap.place StdMap.assign
    StdMap.overwrite same lex_less
early_ack = refl

done_all_acked_example :
    all_acked (run (new 5 (bytes "g") two_msgs) rejected_once).client_status_map ≡ true
done_all_acked_example = done_all_acked 5 (bytes "g") two_msgs rejected_once done_once

done_verdict_example :
    let l = run (new 5 (bytes "g") two_msgs) rejected_once in
    (is_nil l.fetched_arr ≡ true) × (l.status ≡ verdict l)
done_verdict_example =
    done_verdict 5 (bytes "g") two_msgs rejected_once (tt, (tt, (tt, (tt, tt)))) done_once

-- The first message is acknowledged before the second is fetched.
batch_completes_example :
    is_done (
      run (new 5 (bytes "g") two_msgs) (
        (fetches ∷ acks (bytes "m1") reconsume_later ∷ fetches ∷ [])
        ++ acks (bytes "m2") consume_success ∷ fetches ∷ []))
    ≡ true
unfolding same lex_less
batch_completes_example =
    batch_completes 5 (bytes "g") two_msgs
      (fetches ∷ acks (bytes "m1") reconsume_later ∷ fetches ∷ []) (fetches ∷ []) (bytes "m2")
      consume_success (tt, (tt, (tt, tt))) (omega arith) (refl, (refl, tt))

-- A batch of which both messages are acknowledged and fetched, before the check.
abbrev before_check : ConsumerUnitLocker
before_check =
    (set_msg_status (bytes "m2") reconsume_later msg_consume_ack (
      run (new 5 (bytes "g") two_msgs)
        (fetches ∷ fetches ∷ acks (bytes "m1") consume_success ∷ []))).1

abbrev has_status :
    (StdMap.find 4 before_check.status_map ≡ some reconsume_later)
    × (StdMap.find 9 before_check.status_map ≡ some consume_success)
unfolding run step new start add_msgs add_msg msg_unit index_msg scan conclude trigger_check
    set_msg_status mark_all get_msg take_front StdMap.find StdMap.insert StdMap.place StdMap.assign
    StdMap.overwrite same lex_less
has_status = (refl, refl)

trigger_check_lem_example : trigger_check false before_check ≡ (
    if (false || is_nil before_check.fetched_arr) && all_acked before_check.client_status_map
    then record before_check { status = verdict before_check; client_status = msg_consume_ack }
    else before_check)
unfolding run step new start add_msgs add_msg msg_unit index_msg scan conclude trigger_check
    set_msg_status mark_all get_msg take_front StdMap.find StdMap.insert StdMap.place StdMap.assign
    StdMap.overwrite same lex_less
trigger_check_lem_example = trigger_check_lem false before_check (refl, (refl, tt))

set_msg_status_lem_example :
    let l = new 5 (bytes "g") two_msgs in
    let (ret, l') = set_msg_status (bytes "m2") reconsume_later msg_consume_ack l in
    let ps = pointers (bytes "m2") l in
    (ret ≡ is_cons ps)
    × (find 4 l'.status_map ≡ (if contains 4 ps then some reconsume_later else find 4 l.status_map))
    × (find 4 l'.client_status_map
        ≡ (if contains 4 ps then some msg_consume_ack else find 4 l.client_status_map))
    × (find (bytes "m2") l'.reconsume_map ≡ (
        if is_cons ps && (reconsume_later == reconsume_later) && same (bytes "m2") (bytes "m2")
        then some 1
        else find (bytes "m2") l.reconsume_map))
set_msg_status_lem_example =
    set_msg_status_lem (bytes "m2") reconsume_later msg_consume_ack (new 5 (bytes "g") two_msgs) 4
      (bytes "m2")

drain-new_example :
    drain (length (addresses two_msgs)) (new 5 (bytes "g") two_msgs)
    ≡ map (λ m. some (unit_of 5 (bytes "g") m.1)) two_msgs
unfolding contains same
drain-new_example = drain-new 5 (bytes "g") two_msgs (refl, (refl, tt))
