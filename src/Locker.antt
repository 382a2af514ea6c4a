-- ===== src/Locker.antt =====
-- MsgWorker.h and MsgWorker.cpp: `ConsumerUnitLocker`, one batch of messages that a broker's
-- callback waits for. A `shared_ptr<MsgUnit>` is the address of its unit, and `heap` holds the
-- units behind the addresses, which nothing changes once the constructor is done.
pub mod Trigger
pub mod Marks
pub mod History
pub mod Heap
pub mod Acked
pub mod Invariant
pub mod Result
pub mod Build
pub mod Indexed
pub mod Awaited
pub mod Completes
pub mod Owned
pub mod Noted
pub mod Examples
use rocketmq_proxy.Prelude.{
  ℕ, Bool, true, false, not, ◌&&◌, ◌||◌, List, [], ◌∷◌, ◌++◌, Option, none, some, Bytes, bytes_less,
  nat_less, if◌then◌else◌, is_some, ◌==◌,
}
use rocketmq_proxy.StdMap.{Map, keys, find, insert, assign}
use rocketmq_proxy.Message.{
  MqMessageExt, MsgUnit, new_msg_unit, ClientMsgConsumeStatus, msg_fetch_from_broker,
  msg_consume_ack, is_ack, ConsumeStatus, consume_success, reconsume_later,
}

pub record ConsumerUnitLocker : Type 0 where
  pub heap : Map ℕ MsgUnit
  pub client_status_map : Map ℕ ClientMsgConsumeStatus
  pub status_map : Map ℕ ConsumeStatus
  pub id_msg_map : Map Bytes (Map ℕ ℕ)
  pub fetched_arr : List ℕ
  pub reconsume_map : Map Bytes ℕ
  pub status : ConsumeStatus
  pub client_status : ClientMsgConsumeStatus

-- The members before the constructor's body.
unfoldable pub start : ConsumerUnitLocker
start = record {
  heap = [];
  client_status_map = [];
  status_map = [];
  id_msg_map = [];
  fetched_arr = [];
  reconsume_map = [];
  status = reconsume_later;
  client_status = msg_fetch_from_broker;
}

-- The unit that the constructor's loop fills for a message.
unfoldable pub msg_unit : ℕ → Bytes → MqMessageExt → MsgUnit
unfolding new_msg_unit
msg_unit now group msg = record (new_msg_unit now) {
  msg_id = msg.msg_id;
  type = 1;
  delay_level = msg.delay_time_level;
  body = msg.body;
  topic = msg.topic;
  group = group;
}

-- The pointers by message id: a new map, or one more entry in the map that is there.
unfoldable pub index_msg : Bytes → ℕ → Map Bytes (Map ℕ ℕ) → Map Bytes (Map ℕ ℕ)
index_msg id p ids = elim (find id ids) [
  | none ↦ insert id (insert p 1 []) ids
  | some queue ↦ assign id (insert p 1 queue) ids
]

-- One round of the constructor's loop, for a message and the address of its new unit.
unfoldable pub add_msg : ℕ → Bytes → ConsumerUnitLocker → ℕ × MqMessageExt → ConsumerUnitLocker
unfolding index_msg
add_msg now group l (p, msg) = record l {
  heap = assign p (msg_unit now group msg) l.heap;
  client_status_map = insert p msg_fetch_from_broker l.client_status_map;
  status_map = insert p reconsume_later l.status_map;
  id_msg_map = index_msg msg.msg_id p l.id_msg_map;
  fetched_arr = l.fetched_arr ++ p ∷ [];
}

unfoldable pub add_msgs :
    ℕ → Bytes → ConsumerUnitLocker → List (ℕ × MqMessageExt) → ConsumerUnitLocker
unfolding add_msg
add_msgs now group l [] = l
add_msgs now group l (m ∷ msgs) = add_msgs now group (add_msg now group l m) msgs

-- The constructor, for messages with the addresses that `new MsgUnit` returns for them.
unfoldable pub new : ℕ → Bytes → List (ℕ × MqMessageExt) → ConsumerUnitLocker
unfolding start add_msgs
new now group msgs = add_msgs now group start msgs

-- `front` and `pop` of the queue of fetched messages.
unfoldable pub take_front : ConsumerUnitLocker → List ℕ → Option (ℕ × ConsumerUnitLocker)
take_front l [] = none
take_front l (p ∷ rest) = some (p, record l { fetched_arr = rest })

-- `getMsg`: the next pointer, or `none` for `false`.
unfoldable pub get_msg : ConsumerUnitLocker → Option (ℕ × ConsumerUnitLocker)
unfolding take_front
get_msg l = take_front l l.fetched_arr

-- The loop of `setMsgStatus` over the pointers of one message id.
unfoldable pub mark_all :
    Bytes
    → ConsumeStatus
    → ClientMsgConsumeStatus
    → List ℕ
    → Bool × ConsumerUnitLocker
    → Bool × ConsumerUnitLocker
mark_all id s cs [] r = r
mark_all id s cs (p ∷ ps) (ret, l) = mark_all id s cs ps (
  true,
  record l {
    status_map = assign p s l.status_map;
    client_status_map = assign p cs l.client_status_map;
    reconsume_map = if s == reconsume_later then assign id 1 l.reconsume_map else l.reconsume_map;
  },
)

unfoldable pub set_msg_status :
    Bytes → ConsumeStatus → ClientMsgConsumeStatus → ConsumerUnitLocker → Bool × ConsumerUnitLocker
unfolding mark_all
set_msg_status id s cs l = elim (find id l.id_msg_map) [
  | none ↦ (false, l)
  | some queue ↦ mark_all id s cs (keys queue) (false, l)
]

-- The value that `statusMap[p]` reads: a missing entry counts as the value 0.
abbrev pub status_at : ℕ → Map ℕ ConsumeStatus → ConsumeStatus
status_at p m = elim (find p m) [ none ↦ consume_success | some s ↦ s ]

-- The loop of `triggerCheck`, with its locals `s` and `cs`. It stops at the first message that is
-- not acknowledged. `statusMap[p]` makes an entry where there is none.
unfoldable pub scan :
    Map ℕ ClientMsgConsumeStatus
    → Map ℕ ConsumeStatus
    → ConsumeStatus
    → ClientMsgConsumeStatus
    → Map ℕ ConsumeStatus × ConsumeStatus × ClientMsgConsumeStatus
scan [] m s cs = (m, s, cs)
scan ((p, c) ∷ rest) m s cs =
    if is_ack c
    then scan rest (insert p consume_success m)
        (if status_at p m == reconsume_later then reconsume_later else s) c
    else (m, s, c)

-- `triggerCheck`: what follows the loop, where `cv.notify_all` wakes the callback.
unfoldable pub conclude :
    ConsumerUnitLocker
    → Map ℕ ConsumeStatus × ConsumeStatus × ClientMsgConsumeStatus
    → ConsumerUnitLocker
conclude l (m, s, cs) =
    if is_ack cs
    then record l { status_map = m; status = s; client_status = cs }
    else record l { status_map = m }

abbrev pub is_nil : List ℕ → Bool
is_nil [] = true
is_nil (x ∷ xs) = false

unfoldable pub trigger_check : Bool → ConsumerUnitLocker → ConsumerUnitLocker
unfolding scan conclude
trigger_check forced l =
    if not forced && not (is_nil l.fetched_arr)
    then l
    else conclude l (scan l.client_status_map l.status_map consume_success msg_consume_ack)

-- `unlockAll`'s loop over the messages of one batch: what is not acknowledged becomes
-- acknowledged, with `RECONSUME_LATER`.
unfoldable pub release_loop : Map ℕ ClientMsgConsumeStatus → ConsumerUnitLocker → ConsumerUnitLocker
release_loop [] l = l
release_loop ((p, c) ∷ rest) l = release_loop rest (
    if not (is_ack c)
    then record l {
      client_status_map = assign p msg_consume_ack l.client_status_map;
      status_map = assign p reconsume_later l.status_map;
    }
    else l)

-- What `unlockAll` does to one batch.
unfoldable pub release : ConsumerUnitLocker → ConsumerUnitLocker
unfolding release_loop trigger_check
release l = trigger_check true (release_loop l.client_status_map l)

-- The condition on which the callback's thread leaves `cv.wait`.
abbrev pub is_done : ConsumerUnitLocker → Bool
is_done l = is_ack l.client_status

-- `waitForLock`, which nothing calls: what `func` makes of the batch, once the wait is over; `none`
-- while it lasts.
unfoldable pub wait_for_lock :
    (ConsumerUnitLocker → ConsumerUnitLocker) → ConsumerUnitLocker → Option ConsumerUnitLocker
wait_for_lock func l = let l' = func l in if is_done l' then some l' else none
