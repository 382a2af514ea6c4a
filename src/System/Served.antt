-- ===== src/System/Served.antt =====
-- A batch of one message on its way through a consumer.
pub mod Whole
use rocketmq_proxy.Prelude.{
  ℕ, true, false, List, [], ◌∷◌, ◌++◌, Option, none, some, Bytes, nat_less, bytes_less, refl,
  get_elem?, set, arith, ◌≡◌, same, same_refl, same_iff, if◌then◌else◌, ◌==◌, Less,
}
use rocketmq_proxy.StdMap.{Map, find, insert, assign, place, overwrite, erase}
use rocketmq_proxy.Message.{
  MqMessageExt, MsgUnit, ConsumeStatus, msg_fetch_from_broker, msg_consume_ack, reconsume_later,
  consume_success,
}
use rocketmq_proxy.Locker.{
  ConsumerUnitLocker, new, start, add_msgs, add_msg, index_msg, msg_unit, get_msg, take_front,
  set_msg_status, mark_all, trigger_check, scan, conclude, is_done,
}
use rocketmq_proxy.Consumer.{
  ConsumerUnit, wait_lock, fetch, fetch_lockers, set_msg_ack, ack_lockers, leave, report,
  status_vector,
}

module _ {ℓ κ} {K : Type ℓ} {V : Type κ} ⦃o : Less K⦄ (k : K) (v w : V) (m : Map K V) where
  find-head : find k ((k, v) ∷ m) ≡ some v
  unfolding find
  find-head = rw (same_refl k)

  assign-head : assign k w ((k, v) ∷ m) ≡ (k, w) ∷ m
  unfolding assign find overwrite
  assign-head = rw (same_refl k)

  insert-head : insert k w ((k, v) ∷ m) ≡ (k, v) ∷ m
  unfolding insert find
  insert-head = rw (same_refl k)

assign-empty {ℓ κ} :
    {K : Type ℓ} {V : Type κ} ⦃o : Less K⦄ (k : K) (v : V) → assign k v [] ≡ (k, v) ∷ []
unfolding assign find place
assign-empty k v = refl

module _ (now p : ℕ) (g : Bytes) (m : MqMessageExt) where
  -- The batch as it comes, and after its message has been taken.
  abbrev pub fresh_batch : ConsumerUnitLocker
  fresh_batch = record {
    heap = (p, msg_unit now g m) ∷ [];
    client_status_map = (p, msg_fetch_from_broker) ∷ [];
    status_map = (p, reconsume_later) ∷ [];
    id_msg_map = (m.msg_id, (p, 1) ∷ []) ∷ [];
    fetched_arr = p ∷ [];
    reconsume_map = [];
    status = reconsume_later;
    client_status = msg_fetch_from_broker;
  }

  abbrev pub taken_batch : ConsumerUnitLocker
  taken_batch = record fresh_batch { fetched_arr = [] }

  -- The batch after an acknowledgement with a status.
  abbrev pub acked_batch : ConsumeStatus → ConsumerUnitLocker
  acked_batch s = record taken_batch {
    client_status_map = (p, msg_consume_ack) ∷ [];
    status_map = (p, s) ∷ [];
    reconsume_map = if s == reconsume_later then (m.msg_id, 1) ∷ [] else [];
    status = if s == reconsume_later then reconsume_later else consume_success;
    client_status = msg_consume_ack;
  }

  new-one : new now g ((p, m) ∷ []) ≡ fresh_batch
  unfolding new add_msgs add_msg index_msg start insert assign place find
  new-one = refl

  abbrev marked_batch : ConsumeStatus → ConsumerUnitLocker
  marked_batch s = record taken_batch {
    client_status_map = (p, msg_consume_ack) ∷ [];
    status_map = (p, s) ∷ [];
    reconsume_map = if s == reconsume_later then (m.msg_id, 1) ∷ [] else [];
  }

  mark-one :
      (s : ConsumeStatus)
      → set_msg_status m.msg_id s msg_consume_ack taken_batch ≡ (true, marked_batch s)
  unfolding set_msg_status mark_all
  mark-one s = ground (
    arith,
    find-head {V = Map ℕ ℕ} m.msg_id ((p, 1) ∷ []) [] [],
    assign-head p reconsume_later s [],
    assign-head p msg_fetch_from_broker msg_consume_ack [],
    assign-empty {V = ℕ} m.msg_id 1,
  )

  trigger-one : (s : ConsumeStatus) → trigger_check false (marked_batch s) ≡ acked_batch s
  unfolding trigger_check scan conclude
  trigger-one s = ground (arith, insert-head p s consume_success [], find-head p s s [])

  -- A consumer with one batch, and what happens to it.
  module _ (addr : ℕ) where
    abbrev pub holding : ConsumerUnit → ConsumerUnitLocker → ConsumerUnit
    holding u l = record u { lockers = (addr, l) ∷ [] }

    pub wait_lock-one :
        (u : ConsumerUnit)
        → u.lockers ≡ []
        → wait_lock addr (new now g ((p, m) ∷ [])) u ≡ holding u fresh_batch
    unfolding wait_lock insert find place
    wait_lock-one u idle = ground (arith, new-one)

    pub fetch-one :
        (u : ConsumerUnit)
        → fetch (holding u fresh_batch) ≡ some (some (msg_unit now g m), holding u taken_batch)
    unfolding fetch fetch_lockers get_msg take_front
    fetch-one u = ground (arith, find-head p (msg_unit now g m) (msg_unit now g m) [])

    pub set_msg_ack-one :
        (u : ConsumerUnit) (s : ConsumeStatus)
        → set_msg_ack m.msg_id s (holding u taken_batch) ≡ (true, holding u (acked_batch s))
    unfolding set_msg_ack ack_lockers
    set_msg_ack-one u s = ground (arith, mark-one s, trigger-one s)

    pub leave-one :
        (u : ConsumerUnit) (s : ConsumeStatus)
        → leave addr (holding u (acked_batch s)) ≡ some (acked_batch s, record u { lockers = [] })
    unfolding leave erase
    leave-one u s =
        ground (arith, find-head addr (acked_batch s) (acked_batch s) [], same_refl addr)

    pub report-one :
        (s : ConsumeStatus)
        → report (acked_batch s) (m ∷ []) ≡ (
            if s == reconsume_later
            then (reconsume_later, reconsume_later ∷ [])
            else (consume_success, []))
    unfolding report status_vector
    report-one s = ground (arith, find-head {V = ℕ} m.msg_id 1 1 [])
