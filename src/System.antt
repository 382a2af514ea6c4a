-- ===== src/System.antt =====
-- The server as a whole: the thread of ServerImpl.h that hands events to the call objects, the
-- matcher, the broker's callbacks, the callbacks of sends, and the thread that gives a consumer's
-- batches up, as steps that alternate in any order on the state that they share.
pub mod Lasting
pub mod Keeps
pub mod Sends
pub mod Requests
pub mod Fetches
pub mod Matches
pub mod Histories
pub mod Safety
pub mod Genuine
pub mod Served
pub mod Contract
pub mod Alive
use rocketmq_proxy.Prelude.{
  ℕ, Bool, List, [], ◌∷◌, Option, none, some, Bytes, get_elem?, set, nat_less, bytes_less, ◌+◌,
}
use rocketmq_proxy.MapTs
use rocketmq_proxy.Message.{MqMessageExt}
use rocketmq_proxy.Locker
use rocketmq_proxy.Locker.{ConsumerUnitLocker}
use rocketmq_proxy.Consumer.{ConsumerUnit, wait_lock, leave, unlock_all}
use rocketmq_proxy.Broker.{Broker}
use rocketmq_proxy.World.{World, M, Result, ok, fault, pure, ◌>>=◌, ◌>>◌, read, modify, follow}
use rocketmq_proxy.Worker.{set_consumer_unit}
use rocketmq_proxy.Matcher.{match_round}
use rocketmq_proxy.Proto.{ProduceRequest, ConsumeRequest, ConsumeAckRequest}
use rocketmq_proxy.Calls.{get_consume, put_consume}
use rocketmq_proxy.Calls.Produce
use rocketmq_proxy.Calls.ConsumeAck
use rocketmq_proxy.Server.{Tag, handle, handle_rpcs}

abbrev get_consumer_unit : ℕ → M ConsumerUnit
get_consumer_unit k = do found ← read (λ w. get_elem? w.consumer_units k); follow found

-- The callback of `getConsumer` for the unit at an address, up to its wait: the batch is made and
-- stands at an address of its own.
unfoldable pub arrive : ℕ → ℕ → Bytes → List (ℕ × MqMessageExt) → M (Unit {0})
arrive k a group msgs = do
  u ← get_consumer_unit k
  now ← read (λ w. w.now)
  set_consumer_unit k (wait_lock a (Locker.new now group msgs) u)

-- The end of that callback, if its batch is done: the batch, for the report to the broker.
unfoldable pub depart : ℕ → ℕ → M (Option ConsumerUnitLocker)
depart k a = do
  u ← get_consumer_unit k
  elim (leave a u) [ none ↦ pure none | some (l, u') ↦ (do set_consumer_unit k u'; pure (some l)) ]

-- `unlockAll` of the unit at an address.
unfoldable pub give_up : ℕ → M (Unit {0})
give_up k = do u ← get_consumer_unit k; set_consumer_unit k (unlock_all u)

-- gRPC puts a client's request into the call object that waits for it, before the event of its tag.
unfoldable pub receive_produce : ℕ → ProduceRequest → M (Unit {0})
receive_produce a r = do c ← Produce.get_call a; Produce.put_call a (record c { request = r })

unfoldable pub receive_consume : ℕ → ConsumeRequest → M (Unit {0})
receive_consume a r = do c ← get_consume a; put_consume a (record c { request = r })

unfoldable pub receive_ack : ℕ → ConsumeAckRequest → M (Unit {0})
receive_ack a r = do c ← ConsumeAck.get_call a; ConsumeAck.put_call a (record c { request = r })

-- A step of the server: a request that comes; an event of the completion queue; a round of the
-- matcher; a broker's callback that begins or ends; the broker's answer to a send; a consumer that
-- is given up, or whose key is erased; and seconds that pass.
pub data Step : Type 0 where
  receives_produce : ℕ → ProduceRequest → Step
  receives_consume : ℕ → ConsumeRequest → Step
  receives_ack : ℕ → ConsumeAckRequest → Step
  handles : Tag → Bool → Step
  matches : Step
  arrives : ℕ → ℕ → Bytes → List (ℕ × MqMessageExt) → Step
  departs : ℕ → ℕ → Step
  succeeds fails : ℕ → Bytes → Step
  gives_up : ℕ → Step
  erases : Bytes → Step
  passes : ℕ → Step

unfoldable pub step : Broker → Step → M (Unit {0})
unfolding receive_produce receive_consume receive_ack arrive depart give_up handle match_round
    Produce.on_success Produce.on_failure
step b (receives_produce a r) = receive_produce a r
step b (receives_consume a r) = receive_consume a r
step b (receives_ack a r) = receive_ack a r
step b (handles tag went_well) = handle b tag went_well
step b matches = do _ ← match_round b; pure tt
step b (arrives k a group msgs) = arrive k a group msgs
step b (departs k a) = do _ ← depart k a; pure tt
step b (succeeds a msg_id) = Produce.on_success a msg_id
step b (fails a text) = Produce.on_failure b a text
step b (gives_up k) = give_up k
step b (erases key) = modify λ w. record w { consumers = MapTs.erase w.consumers key }
step b (passes n) = modify λ w. record w { now = w.now + n }

unfoldable pub steps : Broker → List Step → M (Unit {0})
steps b [] = pure tt
steps b (s ∷ ss) = do step b s; steps b ss

-- `HandleRpcs` makes its call objects; then the steps follow.
unfoldable pub history : Broker → List Step → M (Unit {0})
unfolding handle_rpcs steps
history b ss = do handle_rpcs b []; steps b ss
