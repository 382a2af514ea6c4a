-- ===== src/Locker/History.antt =====
-- A batch under every history of fetches, acknowledgements and releases.
use rocketmq_proxy.Prelude.{false, List, [], ◌∷◌, ℕ, Option, none, some, Bytes}
use rocketmq_proxy.Message.{msg_consume_ack, ConsumeStatus}
use rocketmq_proxy.Locker.{ConsumerUnitLocker, set_msg_status, get_msg, trigger_check, release}

-- What the proxy does to a batch: it takes the next message, it records an acknowledgement of a
-- message id with a status and looks whether the batch is done, or it gives the batch up.
pub data Event : Type 0 where
  fetches releases : Event
  acks : Bytes → ConsumeStatus → Event

-- The batch after a fetch, found or not.
abbrev pub after_fetch : ConsumerUnitLocker → Option (ℕ × ConsumerUnitLocker) → ConsumerUnitLocker
after_fetch l none = l
after_fetch l (some (p, l')) = l'

unfoldable pub step : ConsumerUnitLocker → Event → ConsumerUnitLocker
step l fetches = after_fetch l (get_msg l)
step l (acks id s) = trigger_check false (set_msg_status id s msg_consume_ack l).1
step l releases = release l

unfoldable pub run : ConsumerUnitLocker → List Event → ConsumerUnitLocker
run l [] = l
run l (e ∷ es) = run (step l e) es
