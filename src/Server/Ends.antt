-- ===== src/Server/Ends.antt =====
-- How calls end: the event of their answer, and clients that have gone.
use rocketmq_proxy.Prelude.{
  All, ℕ, Bool, true, false, ◌∷◌, ◌++◌, some, Bytes, bytes_less, get_elem?, set, arith, ◌≡◌, refl,
  get_elem?-set_self, set-set,
}
use rocketmq_proxy.MapTs
use rocketmq_proxy.Broker.{Broker}
use rocketmq_proxy.Message.{reconsume_later}
use rocketmq_proxy.Locker.History.{acks, step}
use rocketmq_proxy.Consumer.{ConsumerUnit, set_msg_reconsume}
use rocketmq_proxy.Consumer.Recorded.{AckedIn, each-AckedIn}
use rocketmq_proxy.Consumer.Routing.{each, set_msg_ack_lem}
use rocketmq_proxy.World.{World, ok, fault, Fault, finish, ConsumeCallData, ConsumeAckCallData}
use rocketmq_proxy.Worker.Consumers.{get_consumer_known}
use rocketmq_proxy.Matcher.{reconsume}
use rocketmq_proxy.Calls.Consume
use rocketmq_proxy.Calls.ConsumeAck
use rocketmq_proxy.Calls.{request_consume, request_consume_ack}
use rocketmq_proxy.Server.{handle}

-- A consume call whose message has been handed out, and whose answer did not reach the client: every
-- message with that id, in every batch of the call's consumer, is acknowledged with RECONSUME_LATER
-- at once, and each batch is looked at for its end; the id is forgotten, and the call object is
-- deleted.
pub handle_consume_gone :
    (b : Broker) (w : World) (a k x : ℕ) (xs : Bytes) (c : ConsumeCallData) (u : ConsumerUnit)
    → get_elem? w.consume_calls a ≡ some c
    → c.deleted ≡ false
    → c.msg_id ≡ x ∷ xs
    → MapTs.try_get w.consumers (c.topic ++ c.group) ≡ some k
    → get_elem? w.consumer_units k ≡ some u
    → (handle b (record { type_ = request_consume; address = a }) false w
        ≡ ok (
          tt,
          record w {
            consumer_units = set w.consumer_units k (record u {
              lockers = each (λ l. step l (acks (x ∷ xs) reconsume_later)) u.lockers;
            });
            id_unit_map = MapTs.erase w.id_unit_map (x ∷ xs);
            consume_calls = set w.consume_calls a (record c { status = finish; deleted = true });
          },
        ))
      × All
          (λ e. AckedIn (x ∷ xs) reconsume_later e.1)
          (each (λ l. step l (acks (x ∷ xs) reconsume_later)) u.lockers)
unfolding handle Consume.cancel reconsume set_msg_reconsume
handle_consume_gone b w a k x xs c u at_a alive delivered known at_k = (
  ground (
    arith,
    get_consumer_known b c.topic c.group w k known,
    set_msg_ack_lem (x ∷ xs) reconsume_later u,
    get_elem?-set_self w.consume_calls a (record c { status = finish }) c at_a,
    set-set w.consume_calls a (record c { status = finish })
        (record c { status = finish; deleted = true }),
  ),
  each-AckedIn (x ∷ xs) reconsume_later u.lockers,
)

handle_ack_end :
    (b : Broker) (w : World) (a : ℕ) (c : ConsumeAckCallData) (reached : Bool)
    → get_elem? w.consume_ack_calls a ≡ some c
    → c.deleted ≡ false
    → c.status ≡ finish
    → handle b (record { type_ = request_consume_ack; address = a }) reached w
      ≡ ok (
        tt,
        record w {
          id_unit_map = MapTs.erase w.id_unit_map c.msg_id;
          consume_ack_calls = set w.consume_ack_calls a (record c { deleted = true });
        },
      )
unfolding handle ConsumeAck.cancel ConsumeAck.proceed ConsumeAck.del
handle_ack_end b w a c true at_a alive ended = ground arith
handle_ack_end b w a c false at_a alive ended = ground (
  arith,
  get_elem?-set_self w.consume_ack_calls a (record c { status = finish }) c at_a,
  set-set w.consume_ack_calls a (record c { status = finish })
      (record c { status = finish; deleted = true }),
)

handle_ack_dangling :
    (b : Broker) (w : World) (a : ℕ) (c : ConsumeAckCallData) (again : Bool)
    → get_elem? w.consume_ack_calls a ≡ some c
    → c.deleted ≡ true
    → handle b (record { type_ = request_consume_ack; address = a }) again w
      ≡ fault Fault.dangling_pointer
unfolding handle ConsumeAck.cancel ConsumeAck.proceed
handle_ack_dangling b w a c true at_a gone = ground arith
handle_ack_dangling b w a c false at_a gone = ground arith

-- The event of an acknowledge call's answer, whether it reached the client or not: the id of the
-- message is forgotten and the call object is deleted. A further event with the same tag would
-- follow a dangling pointer.
pub handle_ack_ends :
    (b : Broker) (w : World) (a : ℕ) (c : ConsumeAckCallData) (reached again : Bool)
    → get_elem? w.consume_ack_calls a ≡ some c
    → c.deleted ≡ false
    → c.status ≡ finish
    → let w' = record w {
      id_unit_map = MapTs.erase w.id_unit_map c.msg_id;
      consume_ack_calls = set w.consume_ack_calls a (record c { deleted = true });
    } in
      (handle b (record { type_ = request_consume_ack; address = a }) reached w ≡ ok (tt, w'))
      × (handle b (record { type_ = request_consume_ack; address = a }) again w'
          ≡ fault Fault.dangling_pointer)
handle_ack_ends b w a c reached again at_a alive ended = (
  handle_ack_end b w a c reached at_a alive ended,
  handle_ack_dangling b _ a (record c { deleted = true }) again
      (get_elem?-set_self w.consume_ack_calls a (record c { deleted = true }) c at_a) refl,
)
