-- ===== src/System/Requests.antt =====
-- The handlers of the consume calls and of the acknowledge calls, by the rules of System/Keeps.
use rocketmq_proxy.Prelude.{ℕ, Bool, true, false, [], ◌∷◌, Option, none, some, Bytes, bytes_less}
use rocketmq_proxy.Broker.{Broker}
use rocketmq_proxy.Message.{ConsumeStatus}
use rocketmq_proxy.Consumer.{ConsumerUnit, set_msg_ack}
use rocketmq_proxy.Consumer.History.{acknowledges, unit_step, unit_step-Every}
use rocketmq_proxy.World.{M, ConsumeCallData, ConsumeAckCallData, ◌>>=◌, ◌>>◌}
use rocketmq_proxy.Worker.{set_consumer_unit}
use rocketmq_proxy.Calls.{put_consume}
use rocketmq_proxy.Calls.Consume
use rocketmq_proxy.Calls.ConsumeAck
use rocketmq_proxy.Proto.{ConsumeRequest, ConsumeAckRequest}
use rocketmq_proxy.System.{receive_consume, receive_ack}
use rocketmq_proxy.System.Keeps.{
  Keeps, keeps, Keeps-unit, Keeps-bind, Keeps-deref, Keeps-set_consumer_unit,
}
use rocketmq_proxy.System.Sends.{write_log-Keeps, proceed_by-Keeps, assert_finish-Keeps}
use rocketmq_proxy.System.Matches.{
  get_consume-Keeps, get_unit-Keeps, put_unit-Keeps, get_consumer-Keeps,
  reset_consumer_active-Keeps, reconsume-Keeps,
}
use rocketmq_proxy.System.Lasting.{Lasting, UnitHolds}

put_consume-Keeps : {L : Lasting} → (a : ℕ) (c : ConsumeCallData) → Keeps L (put_consume a c)
put_consume-Keeps a c = search keeps

ruleset consume_keeps = (keeps, get_consume-Keeps, put_consume-Keeps, assert_finish-Keeps)

consume-create-Keeps : {L : Lasting} → (a : ℕ) → Keeps L (Consume.create a)
unfolding Consume.create
consume-create-Keeps a = search consume_keeps

pub consume-new-Keeps : {L : Lasting} → Keeps L Consume.new
unfolding Consume.new
consume-new-Keeps = search (consume_keeps, consume-create-Keeps)

consume-del-Keeps : {L : Lasting} → (a : ℕ) → Keeps L (Consume.del a)
unfolding Consume.del
consume-del-Keeps a = search consume_keeps

consume-process_call-Keeps : {L : Lasting} → (a : ℕ) → Keeps L (Consume.process_call a)
unfolding Consume.process_call
consume-process_call-Keeps a = search (consume_keeps, consume-new-Keeps) depth 12

give_back-Keeps :
    {L : Lasting}
    → (b : Broker) (c : ConsumeCallData) (id : Bytes) → Keeps L (Consume.give_back b c id)
give_back-Keeps b c [] = search keeps
give_back-Keeps b c (x ∷ xs) = search (keeps, get_consumer-Keeps, reconsume-Keeps)

pub consume-proceed-Keeps : {L : Lasting} → (a : ℕ) → Keeps L (Consume.proceed a)
unfolding Consume.proceed
consume-proceed-Keeps a = search (
  consume_keeps, proceed_by-Keeps, consume-create-Keeps, consume-process_call-Keeps,
  consume-del-Keeps,
)

pub consume-cancel-Keeps : {L : Lasting} → (b : Broker) (a : ℕ) → Keeps L (Consume.cancel b a)
unfolding Consume.cancel
consume-cancel-Keeps b a = search (consume_keeps, give_back-Keeps, consume-del-Keeps) depth 12

get_call-Keeps : {L : Lasting} → (a : ℕ) → Keeps L (ConsumeAck.get_call a)
get_call-Keeps a = search keeps

put_call-Keeps :
    {L : Lasting} → (a : ℕ) (c : ConsumeAckCallData) → Keeps L (ConsumeAck.put_call a c)
put_call-Keeps a c = search keeps

ruleset ack_keeps = (keeps, get_call-Keeps, put_call-Keeps, assert_finish-Keeps)

ack-create-Keeps : {L : Lasting} → (a : ℕ) → Keeps L (ConsumeAck.create a)
unfolding ConsumeAck.create
ack-create-Keeps a = search ack_keeps

pub ack-new-Keeps : {L : Lasting} → Keeps L ConsumeAck.new
unfolding ConsumeAck.new
ack-new-Keeps = search (ack_keeps, ack-create-Keeps)

ack-del-Keeps : {L : Lasting} → (a : ℕ) → Keeps L (ConsumeAck.del a)
unfolding ConsumeAck.del
ack-del-Keeps a = search ack_keeps depth 12

mark_acked-Keeps : {L : Lasting} → (o : Option ℕ) → Keeps L (ConsumeAck.mark_acked o)
mark_acked-Keeps none = search keeps
mark_acked-Keeps (some u) = search (keeps, get_unit-Keeps, put_unit-Keeps)

reply_ack-Keeps :
    {L : Lasting}
    → (a : ℕ) (c : ConsumeAckCallData) (found : Bool) → Keeps L (ConsumeAck.reply_ack a c found)
reply_ack-Keeps a c true = search (ack_keeps, mark_acked-Keeps, write_log-Keeps) depth 12
reply_ack-Keeps a c false = search ack_keeps

-- The acknowledgement of the unit at an address, and what follows it.
acknowledge-Keeps :
    {L : Lasting}
    → (p : ℕ) (id : Bytes) (s : ConsumeStatus) (f : Bool → M (Unit {0}))
    → ((found : Bool) → Keeps L (f found))
    → (u : ConsumerUnit) → UnitHolds L u
    → Keeps L (do set_consumer_unit p (set_msg_ack id s u).1; f (set_msg_ack id s u).0)
unfolding unit_step
acknowledge-Keeps {L = L} p id s f h u valid =
    Keeps-bind _ _
      (Keeps-set_consumer_unit p _
        (unit_step-Every L.Valid L.step-Valid u (acknowledges id s) tt valid))
      (λ _. h (set_msg_ack id s u).0)

-- What follows the acknowledgement.
abbrev then_reply : ℕ → Bool → M (Unit {0})
then_reply a found = do c ← ConsumeAck.get_call a; ConsumeAck.reply_ack a c found

then_reply-Keeps : {L : Lasting} → (a : ℕ) (found : Bool) → Keeps L (then_reply a found)
then_reply-Keeps a found = search (ack_keeps, reply_ack-Keeps)

ack-process_call-Keeps :
    {L : Lasting} → (b : Broker) (a : ℕ) → Keeps L (ConsumeAck.process_call b a)
unfolding ConsumeAck.process_call
ack-process_call-Keeps b a = Keeps-bind _ _ ack-new-Keeps (λ _.
    Keeps-bind _ _ (get_call-Keeps a) (λ old.
      let r = old.request in
      Keeps-bind _ _
        (put_call-Keeps a
          (record old { msg_id = r.msg_id; group = r.consumer_group; topic = r.topic }))
        (λ _. Keeps-bind _ _ (reset_consumer_active-Keeps r.topic r.consumer_group) (λ _.
          Keeps-bind _ _ (get_consumer-Keeps b r.topic r.consumer_group) (λ consumer.
            Keeps-bind _ _ (Keeps-deref consumer) (λ p.
              Keeps-unit p _
                (acknowledge-Keeps p r.msg_id r.status (then_reply a) (then_reply-Keeps a))))))))

pub ack-proceed-Keeps : {L : Lasting} → (b : Broker) (a : ℕ) → Keeps L (ConsumeAck.proceed b a)
unfolding ConsumeAck.proceed
ack-proceed-Keeps b a =
    search (ack_keeps, proceed_by-Keeps, ack-create-Keeps, ack-process_call-Keeps, ack-del-Keeps)

pub ack-cancel-Keeps : {L : Lasting} → (a : ℕ) → Keeps L (ConsumeAck.cancel a)
unfolding ConsumeAck.cancel
ack-cancel-Keeps a = search (ack_keeps, ack-del-Keeps) depth 12

pub receive_consume-Keeps :
    {L : Lasting} → (a : ℕ) (r : ConsumeRequest) → Keeps L (receive_consume a r)
unfolding receive_consume
receive_consume-Keeps a r = search consume_keeps

pub receive_ack-Keeps : {L : Lasting} → (a : ℕ) (r : ConsumeAckRequest) → Keeps L (receive_ack a r)
unfolding receive_ack
receive_ack-Keeps a r = search ack_keeps
