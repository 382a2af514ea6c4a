-- ===== src/System/Lasting.antt =====
-- What the server can keep of its batches and of what it hands to the libraries: the interface of
-- the rules in System/Keeps.
use rocketmq_proxy.Prelude.{not, ◌||◌, ℕ, Bool, true, ◌==◌, leb, some, bytes, nat_less, ◌≡◌, All}
use rocketmq_proxy.StdMap.{find}
use rocketmq_proxy.Message.{MsgUnit}
use rocketmq_proxy.Proto.{ConsumeReply}
use rocketmq_proxy.Locker.{ConsumerUnitLocker}
use rocketmq_proxy.Locker.History.{Event, step}
use rocketmq_proxy.Consumer.{ConsumerUnit}
use rocketmq_proxy.Consumer.History.{Every}
use rocketmq_proxy.QueueTs.{is_empty}
use rocketmq_proxy.Broker.{MqMessage}
use rocketmq_proxy.World.{
  send, World, Result, ok, fault, Action, finish_produce, finish_consume, finish_consume_ack,
}
use rocketmq_proxy.Calls.{response_success, response_error, response_timeout}

-- A message that has a topic, a tag and a body.
abbrev pub is_complete : MqMessage → Bool
is_complete msg = not (is_empty msg.topic || (is_empty msg.tags || is_empty msg.body))

-- An action that hands no message to a client: a reply with one of the codes for that, a complete
-- message that is sent, or a request for a call.
abbrev pub is_plain : Action → Bool
is_plain (finish_produce a r) = leb r.code response_error
is_plain (finish_consume a r) = r.code == response_timeout
is_plain (finish_consume_ack a r) = leb r.code response_error
is_plain (send a msg) = is_complete msg
is_plain _ = true

-- The reply that hands a message to a client.
abbrev pub handed : MsgUnit → ConsumeReply
handed msg = record {
  code = response_success;
  msg_id = msg.msg_id;
  body = msg.body;
  error_msg = bytes "";
}

-- A predicate of batches that the events of a batch keep, and one of actions. The matcher hands out
-- messages of batches only.
pub record Lasting : Type 1 where
  pub Valid : ConsumerUnitLocker → Type 0
  pub Right : Action → Type 0
  pub step-Valid : (l : ConsumerUnitLocker) (e : Event) → Valid l → Valid (step l e)
  pub handed-Right :
      (l : ConsumerUnitLocker) (p : ℕ) (msg : MsgUnit) (a : ℕ)
      → Valid l
      → find p l.heap ≡ some msg
      → Right (finish_consume a (handed msg))
  pub plain-Right : (x : Action) → is_plain x ≡ true → Right x

module _ (L : Lasting) where
  abbrev pub UnitHolds : ConsumerUnit → Type 0
  UnitHolds u = Every L.Valid u.lockers

  -- The batches of every consumer are valid, and the actions are right.
  abbrev pub Holds : World → Type 0
  Holds w = All UnitHolds w.consumer_units × All L.Right w.actions

  abbrev pub ValidAfter : {A : Type 0} → Result (A × World) → Type 0
  ValidAfter (fault e) = Unit {0}
  ValidAfter (ok (a, w)) = Holds w
