-- ===== src/Locker/Completes.antt =====
-- When a batch is done.
use rocketmq_proxy.Locker.Awaited.{
  awaited, Open, ack_frame, ack-Open, acks_in, is_acked, fetched_in, run-Open, run_fetched,
}
use rocketmq_proxy.Locker.Indexed.{indexed-add_msgs, clients-add_msgs}
use rocketmq_proxy.Prelude.{
  ℕ, Bool, true, false, List, [], ◌∷◌, ◌++◌, some, nat_less, bytes_less, arith, ◌≡◌, refl, ap,
  Bytes, same_iff, All, length, suc, ◌≤◌,
}
use rocketmq_proxy.StdMap.{Map, find}
use rocketmq_proxy.Message.{
  msg_fetch_from_broker, msg_consume_ack, ClientMsgConsumeStatus, ConsumeStatus,
}
use rocketmq_proxy.Locker.{
  ConsumerUnitLocker, set_msg_status, start, new, is_done, is_nil, get_msg, take_front,
  trigger_check, conclude, release_loop, release,
}
use rocketmq_proxy.Locker.Trigger.{all_acked}
use rocketmq_proxy.Locker.Marks.{contains, pointers, set_msg_status_frame}
use rocketmq_proxy.Locker.History.{Event, fetches, acks, releases, step, run}
use rocketmq_proxy.Locker.Invariant.{
  IsValid, new-IsValid, step-IsValid, run-IsValid, set_msg_status-IsValid, trigger_check_valid,
}
use rocketmq_proxy.Locker.Result.{Stays}
use rocketmq_proxy.Locker.Acked.{all_acked_of_find}
use rocketmq_proxy.Locker.Build.{Batch, addresses, fetched_arr-add_msgs}

-- The last acknowledgement ends the wait, if nothing is left to fetch.
last_ack_done :
    (l : ConsumerUnitLocker) (id : Bytes) (s : ConsumeStatus)
    → IsValid l
    → is_nil l.fetched_arr ≡ true
    → Open l ((id, s) ∷ [])
    → is_done (step l (acks id s)) ≡ true
last_ack_done l id s v e h =
    unfold step in
    ground (
      arith,
      all,
      ack_frame l id s v,
      trigger_check_valid false l' (set_msg_status-IsValid id s l v),
      set_msg_status_frame id s msg_consume_ack l,
    )
  where
    l' : ConsumerUnitLocker
    l' = (set_msg_status id s msg_consume_ack l).1

    all : all_acked (step l (acks id s)).client_status_map ≡ true
    all =
        all_acked_of_find _ (step-IsValid l (acks id s) v).ordered
          (λ p c f. unfold awaited in ground (arith, ack-Open l id s [] v h p c f))

-- A batch that is done stays done.
trigger_check_done :
    (forced : Bool) (l : ConsumerUnitLocker)
    → is_done l ≡ true
    → is_done (trigger_check forced l) ≡ true
unfolding trigger_check conclude
trigger_check_done forced l d = ground arith

release_loop_done :
    (cs : Map ℕ ClientMsgConsumeStatus) (l : ConsumerUnitLocker)
    → is_done l ≡ true
    → is_done (release_loop cs l) ≡ true
unfolding release_loop
release_loop_done [] l d = d
release_loop_done ((p, msg_consume_ack) ∷ cs) l d = release_loop_done cs l d
release_loop_done ((p, msg_fetch_from_broker) ∷ cs) l d = release_loop_done cs _ d

step_done : (l : ConsumerUnitLocker) (e : Event) → is_done l ≡ true → is_done (step l e) ≡ true
unfolding step get_msg take_front release
step_done l fetches d = ground arith
step_done l (acks id s) d =
    trigger_check_done false (set_msg_status id s msg_consume_ack l).1
      (ground (arith, set_msg_status_frame id s msg_consume_ack l))
step_done l releases d =
    trigger_check_done true (release_loop l.client_status_map l)
      (release_loop_done l.client_status_map l d)

run_done : (l : ConsumerUnitLocker) (es : List Event) → is_done l ≡ true → is_done (run l es) ≡ true
unfolding run
run_done l [] d = d
run_done l (e ∷ es) d = run_done (step l e) es (step_done l e d)

run-append : (l : ConsumerUnitLocker) (es fs : List Event) → run l (es ++ fs) ≡ run (run l es) fs
unfolding run
run-append l [] fs = refl
run-append l (e ∷ es) fs = run-append (step l e) es fs

acks_in-append : (es fs : List Event) → acks_in (es ++ fs) ≡ acks_in es ++ acks_in fs
unfolding acks_in
acks_in-append [] fs = refl
acks_in-append (acks id s ∷ es) fs = ap (◌∷◌ (id, s)) (acks_in-append es fs)
acks_in-append (fetches ∷ es) fs = acks_in-append es fs
acks_in-append (releases ∷ es) fs = acks_in-append es fs

-- A pointer of an id that a history acknowledges.
awaited_acked :
    (p : ℕ) (id : Bytes) (es : List Event) (l : ConsumerUnitLocker)
    → contains p (pointers id l) ≡ true
    → is_acked id es ≡ true
    → awaited p (acks_in es) l ≡ true
unfolding awaited acks_in
awaited_acked p id [] l c acked = cc
awaited_acked p id (acks j s ∷ es) l c acked =
    ground (arith, same_iff id j, awaited_acked p id es l c)
awaited_acked p id (fetches ∷ es) l c acked = awaited_acked p id es l c acked
awaited_acked p id (releases ∷ es) l c acked = awaited_acked p id es l c acked

awaited_batch :
    (p : ℕ) (es : List Event) (l : ConsumerUnitLocker) (msgs : Batch)
    → All (λ m. contains m.0 (pointers m.1.msg_id l) ≡ true) msgs
    → All (λ m. is_acked m.1.msg_id es ≡ true) msgs
    → contains p (addresses msgs) ≡ true
    → awaited p (acks_in es) l ≡ true
unfolding contains
awaited_batch p es l [] h acked c = cc
awaited_batch p es l ((q, msg) ∷ msgs) h acked c = ground (
  arith,
  same_iff p q,
  h.0,
  awaited_acked q msg.msg_id es l h.0 acked.0,
  awaited_batch p es l msgs h.1 acked.1,
)

length-addresses : (msgs : Batch) → length (addresses msgs) ≡ length msgs
length-addresses [] = refl
length-addresses (m ∷ msgs) = ap suc (length-addresses msgs)

-- A batch, in every history in which it is not given up before: as soon as as many fetches have
-- come as it has messages, and an acknowledgement for the id of each message, in whatever order and
-- with whatever statuses, and the latest of these events is an acknowledgement, the broker's
-- callback returns; nothing that comes later changes that.
pub batch_completes :
    (now : ℕ) (group : Bytes) (msgs : Batch) (before after : List Event) (id : Bytes)
    (s : ConsumeStatus)
    → All Stays before
    → length msgs ≤ fetched_in before
    → All (λ m. is_acked m.1.msg_id (before ++ acks id s ∷ []) ≡ true) msgs
    → is_done (run (new now group msgs) (before ++ acks id s ∷ after)) ≡ true
batch_completes now group msgs before after id s stays enough acked =
    rw (run-append l before (acks id s ∷ after)) (
      unfold run in
      run_done (step (run l before) (acks id s)) after (
        last_ack_done (run l before) id s (run-IsValid l before v)
          (run_fetched l before v stays (omega (arith, ap length fetched, size)))
          (run-Open l before ((id, s) ∷ []) v stays opened)))
  where
    l : ConsumerUnitLocker
    l = new now group msgs

    v : IsValid l
    v = new-IsValid now group msgs

    fetched : l.fetched_arr ≡ addresses msgs
    fetched = unfold new in fetched_arr-add_msgs now group start msgs

    size : length (addresses msgs) ≡ length msgs
    size = length-addresses msgs

    indexed : All (λ m. contains m.0 (pointers m.1.msg_id l) ≡ true) msgs
    indexed = unfold new in indexed-add_msgs now group start msgs

    placed :
        (p : ℕ) (c : ClientMsgConsumeStatus)
        → find p l.client_status_map ≡ some c
        → contains p (addresses msgs) ≡ true
    placed p c e = unfold new find in ground (arith, clients-add_msgs now group p start msgs, e)

    opened : Open l (acks_in before ++ (id, s) ∷ [])
    opened p c e =
        unfold acks_in in
        ground (
          arith,
          acks_in-append before (acks id s ∷ []),
          awaited_batch p (before ++ acks id s ∷ []) l msgs indexed acked (placed p c e),
        )
