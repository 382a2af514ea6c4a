-- ===== src/Consumer.antt =====
-- MsgWorker.h and MsgWorker.cpp: `ConsumerUnit`, the batches that one consumer's callbacks wait
-- for, and what a callback reports. `lockers` maps the address of each `shared_ptr` to the batch
-- behind it. Each method works under `lockersMtx` and is taken as one step; `fetchAndConsume` and
-- `setMsgAck` hold it shared, so for these two that is an assumption of the model.
pub mod Listener
pub mod Report
pub mod Routing
pub mod Recorded
pub mod History
pub mod Readable
pub mod Released
pub mod Rejected
pub mod Examples
use rocketmq_proxy.Prelude.{
  ℕ, ◌-◌, Bool, true, false, ◌||◌, List, [], ◌∷◌, ◌++◌, Option, none, some, Bytes, bytes_less,
  nat_less, if◌then◌else◌, is_some, ◌==◌, leb,
}
use rocketmq_proxy.StdMap.{Map, keys, find, insert, erase}
use rocketmq_proxy.Message.{
  MqMessageExt, MsgUnit, msg_consume_ack, ConsumeStatus, consume_success, reconsume_later,
}
use rocketmq_proxy.Locker.{
  ConsumerUnitLocker, get_msg, set_msg_status, trigger_check, release, is_done,
}
use rocketmq_proxy.Broker.{DefaultMqPushConsumer}

abbrev pub Lockers : Type 0
Lockers = Map ℕ ConsumerUnitLocker

pub record ConsumerUnit : Type 0 where
  pub lockers : Lockers
  pub consumer : DefaultMqPushConsumer
  pub last_active_at : ℕ

abbrev pub max_msg_consume_max_inactive_time : ℕ
max_msg_consume_max_inactive_time = 20

-- Times are seconds; a clock that went back counts as no time passed, as `-` on ℕ gives.
unfoldable pub get_is_too_inactive : ℕ → ConsumerUnit → Bool
get_is_too_inactive now u = leb max_msg_consume_max_inactive_time (now - u.last_active_at)

-- `unlockAll`'s loop.
unfoldable pub unlock_lockers : Lockers → Lockers
unlock_lockers [] = []
unlock_lockers ((a, l) ∷ rest) = (a, release l) ∷ unlock_lockers rest

unfoldable pub unlock_all : ConsumerUnit → ConsumerUnit
unfolding unlock_lockers
unlock_all u = record u { lockers = unlock_lockers u.lockers }

-- `setMsgAck`'s loop: whether some batch knows the message id, and the batches afterwards.
unfoldable pub ack_lockers : Bytes → ConsumeStatus → Lockers → Bool × Lockers
ack_lockers id s [] = (false, [])
ack_lockers id s ((a, l) ∷ rest) =
    let (found, l') = set_msg_status id s msg_consume_ack l in
    let (ret, rest') = ack_lockers id s rest in (found || ret, (a, trigger_check false l') ∷ rest')

unfoldable pub set_msg_ack : Bytes → ConsumeStatus → ConsumerUnit → Bool × ConsumerUnit
unfolding ack_lockers
set_msg_ack id s u =
    let (ret, lockers) = ack_lockers id s u.lockers in (ret, record u { lockers = lockers })

unfoldable pub set_msg_reconsume : Bytes → ConsumerUnit → Bool × ConsumerUnit
unfolding set_msg_ack
set_msg_reconsume id u = set_msg_ack id reconsume_later u

-- The first pointer of a message id is queued again.
unfoldable pub requeue_first : Option (Map ℕ ℕ) → ConsumerUnitLocker → ConsumerUnitLocker
requeue_first none l = l
requeue_first (some []) l = l
requeue_first (some ((p, n) ∷ queue)) l = record l { fetched_arr = l.fetched_arr ++ p ∷ [] }

-- `pushMsgBack`'s loop. (The function has no `return`, and nothing calls it.)
unfoldable pub push_back_lockers : Bytes → Lockers → Lockers
unfolding requeue_first
push_back_lockers id [] = []
push_back_lockers id ((a, l) ∷ rest) =
    (a, requeue_first (find id l.id_msg_map) l) ∷ push_back_lockers id rest

unfoldable pub push_msg_back : Bytes → ConsumerUnit → ConsumerUnit
unfolding push_back_lockers
push_msg_back id u = record u { lockers = push_back_lockers id u.lockers }

-- `fetchAndConsume`'s loop: the next message of the first batch that has one. The pointer is read
-- through at once, as its callback does. (The function has no `return`; no caller reads a result.)
unfoldable pub fetch_lockers : Lockers → Option (Option MsgUnit × Lockers)
fetch_lockers [] = none
fetch_lockers ((a, l) ∷ rest) = elim (get_msg l) [
  | some (p, l') ↦ some (find p l'.heap, (a, l') ∷ rest)
  | none ↦ elim (fetch_lockers rest) [ none ↦ none | some (m, rest') ↦ some (m, (a, l) ∷ rest') ]
]

unfoldable pub fetch : ConsumerUnit → Option (Option MsgUnit × ConsumerUnit)
unfolding fetch_lockers
fetch u = elim (fetch_lockers u.lockers) [
  | none ↦ none
  | some (m, lockers) ↦ some (m, record u { lockers = lockers })
]

-- `waitLock` up to its wait, for a new batch at an address.
unfoldable pub wait_lock : ℕ → ConsumerUnitLocker → ConsumerUnit → ConsumerUnit
wait_lock a l u = record u { lockers = insert a l u.lockers }

-- The end of `waitLock`'s wait, and `eraseLock`: `none` while the batch is not done.
unfoldable pub leave : ℕ → ConsumerUnit → Option (ConsumerUnitLocker × ConsumerUnit)
leave a u = elim (find a u.lockers) [
  | none ↦ none
  | some l ↦ if is_done l then some (l, record u { lockers = erase a u.lockers }) else none
]

-- The loop of the callback of `getConsumer`: `statusVector` for a batch to be consumed again.
unfoldable pub status_vector : Map Bytes ℕ → List MqMessageExt → List ConsumeStatus
status_vector reconsume_map [] = []
status_vector reconsume_map (msg ∷ msgs) =
    (if is_some (find msg.msg_id reconsume_map) then reconsume_later else consume_success)
    ∷ status_vector reconsume_map msgs

-- What the callback reports to the broker: the status of the batch, and the vector.
unfoldable pub report : ConsumerUnitLocker → List MqMessageExt → ConsumeStatus × List ConsumeStatus
unfolding status_vector
report l msgs =
    (l.status, if l.status == reconsume_later then status_vector l.reconsume_map msgs else [])
