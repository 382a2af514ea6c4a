-- ===== src/Locker/Heap.antt =====
-- The messages of a batch do not change.
use rocketmq_proxy.Prelude.{
  ℕ, true, false, not, if◌then◌else◌, List, [], ◌∷◌, some, Bytes, nat_less, arith, ◌≡◌, refl,
  Option, none, Bool, ◌∙◌, bytes_less,
}
use rocketmq_proxy.StdMap.{Map, assign, find, keys}
use rocketmq_proxy.Message.{
  is_ack, reconsume_later, msg_consume_ack, ConsumeStatus, ClientMsgConsumeStatus,
}
use rocketmq_proxy.Locker.{
  ConsumerUnitLocker, mark_all, set_msg_status, conclude, trigger_check, release_loop, release,
  get_msg, take_front,
}
use rocketmq_proxy.Locker.History.{Event, fetches, releases, acks, step}

-- Nothing that happens to a batch changes the units behind its pointers.
mark_all-heap :
    (id : Bytes) (s : ConsumeStatus) (cs : ClientMsgConsumeStatus) (ps : List ℕ) (found : Bool)
    (l : ConsumerUnitLocker)
    → (mark_all id s cs ps (found, l)).1.heap ≡ l.heap
unfolding mark_all
mark_all-heap id s cs [] found l = refl
mark_all-heap id s cs (p ∷ ps) found l =
    mark_all-heap id s cs ps true (mark_all id s cs (p ∷ []) (found, l)).1

set_msg_status-heap :
    (id : Bytes) (s : ConsumeStatus) (cs : ClientMsgConsumeStatus) (l : ConsumerUnitLocker)
    → (set_msg_status id s cs l).1.heap ≡ l.heap
unfolding set_msg_status
set_msg_status-heap id s cs l = by_found (find id l.id_msg_map)
  where
    by_found :
        (r : Option (Map ℕ ℕ))
        → (elim r as (λ _. Bool × ConsumerUnitLocker) [
          | none ↦ (false, l)
          | some queue ↦ mark_all id s cs (keys queue) (false, l)
        ]).1.heap
          ≡ l.heap
    by_found none = refl
    by_found (some queue) = mark_all-heap id s cs (keys queue) false l

trigger_check-heap :
    (forced : Bool) (l : ConsumerUnitLocker) → (trigger_check forced l).heap ≡ l.heap
unfolding trigger_check conclude
trigger_check-heap forced l = ground arith

release_loop-heap :
    (cs : Map ℕ ClientMsgConsumeStatus) (l : ConsumerUnitLocker) → (release_loop cs l).heap ≡ l.heap
unfolding release_loop
release_loop-heap [] l = refl
release_loop-heap ((p, c) ∷ cs) l =
    release_loop-heap cs (release_loop ((p, c) ∷ []) l) ∙ released_one (is_ack c)
  where
    released_one :
        (acked : Bool)
        → (if not acked
            then record l {
              client_status_map = assign p msg_consume_ack l.client_status_map;
              status_map = assign p reconsume_later l.status_map;
            }
            else l).heap
          ≡ l.heap
    released_one true = refl
    released_one false = refl

pub step-heap : (l : ConsumerUnitLocker) (e : Event) → (step l e).heap ≡ l.heap
unfolding step get_msg take_front release
step-heap l fetches = ground arith
step-heap l (acks id s) =
    trigger_check-heap false (set_msg_status id s msg_consume_ack l).1
    ∙ set_msg_status-heap id s msg_consume_ack l
step-heap l releases =
    trigger_check-heap true (release_loop l.client_status_map l)
    ∙ release_loop-heap l.client_status_map l
