-- ===== src/Consumer/Listener.antt =====
-- MsgWorker.h: `ConsumerMsgListener`, the listener that a consumer registers at the broker's client.
use rocketmq_proxy.Prelude.{List, Option, none, some}
use rocketmq_proxy.Message.{MqMessageExt, ConsumeStatus}

-- What a callback answers for some messages: a status, and the vector that the caller gave it.
abbrev pub MsgCallback : Type 0
MsgCallback = List MqMessageExt → List ConsumeStatus → ConsumeStatus × List ConsumeStatus

-- `callback` is empty at first.
pub record ConsumerMsgListener : Type 0 where
  pub callback : Option MsgCallback

abbrev pub new : ConsumerMsgListener
new = record { callback = none }

abbrev pub set_msg_callback : MsgCallback → ConsumerMsgListener → ConsumerMsgListener
set_msg_callback f listener = record { callback = some f }

-- The method of the interface with the messages alone, which reaches its end without a `return`.
abbrev pub consume_message_alone : ConsumerMsgListener → List MqMessageExt → Option ConsumeStatus
consume_message_alone listener msgs = none

-- `consumeMessage` with the vector; `none` is the exception of an empty `function`.
unfoldable pub consume_message :
    ConsumerMsgListener
    → List MqMessageExt
    → List ConsumeStatus
    → Option (ConsumeStatus × List ConsumeStatus)
consume_message listener msgs status_vector = elim listener.callback [
  | none ↦ none
  | some f ↦ some (f msgs status_vector)
]
