-- ===== src/Locker/Invariant.antt =====
-- What holds of a batch between two events: the wait has ended only if every message is
-- acknowledged.
use rocketmq_proxy.Locker.Acked.{HasStatus-of_covers, all_acked-assign}
use rocketmq_proxy.Prelude.{
  ℕ, Bool, true, false, ◌&&◌, ◌||◌, List, [], ◌∷◌, ◌++◌, nat_less, if◌then◌else◌, is_some, arith,
  ◌≡◌, refl, Bool-cases, Option-cases, inl, inr, same_refl, Bytes, bytes_less, All,
}
use rocketmq_proxy.StdMap.{Map, find, keys}
use rocketmq_proxy.StdMap.Order.{IsOrdered, insert-IsOrdered, assign-IsOrdered}
use rocketmq_proxy.StdMap.Lookup.{find-insert, find-assign}
use rocketmq_proxy.Message.{
  MqMessageExt, ClientMsgConsumeStatus, msg_fetch_from_broker, msg_consume_ack, ConsumeStatus,
  reconsume_later,
}
use rocketmq_proxy.Locker.{
  ConsumerUnitLocker, mark_all, set_msg_status, get_msg, take_front, trigger_check, release,
  release_loop, is_done, is_nil, start, add_msg, add_msgs, new, msg_unit,
}
use rocketmq_proxy.Locker.Trigger.{all_acked, verdict, trigger_check_lem}
use rocketmq_proxy.Locker.History.{Event, fetches, acks, releases, after_fetch, step, run}

-- Every pointer that waits to be fetched leads to its unit.
abbrev Leads : ConsumerUnitLocker → List ℕ → Type 0
Leads l ps = All (λ p. is_some (find p l.heap) ≡ true) ps

-- Every message has a status, the batch is done only if every message is acknowledged, and no
-- pointer that waits to be fetched dangles.
pub record IsValid (l : ConsumerUnitLocker) : Type 0 where
  pub ordered : IsOrdered l.client_status_map
  pub covered :
      (p : ℕ) → is_some (find p l.client_status_map) ≡ true → is_some (find p l.status_map) ≡ true
  pub safe : is_done l ≡ true → all_acked l.client_status_map ≡ true
  pub readable : Leads l l.fetched_arr

add_msg-readable :
    (now : ℕ) (group : Bytes) (l : ConsumerUnitLocker) (p : ℕ) (msg : MqMessageExt) (ps : List ℕ)
    → Leads l ps
    → Leads (add_msg now group l (p, msg)) (ps ++ p ∷ [])
unfolding add_msg
add_msg-readable now group l p msg [] h =
    (ground (arith, find-assign p p (msg_unit now group msg) l.heap, same_refl p), tt)
add_msg-readable now group l p msg (q ∷ ps) h = (
  ground (arith, find-assign p q (msg_unit now group msg) l.heap, h.0),
  add_msg-readable now group l p msg ps h.1,
)

add_msg-IsValid :
    (now : ℕ) (group : Bytes) (l : ConsumerUnitLocker) (p : ℕ) (msg : MqMessageExt)
    → is_done l ≡ false
    → IsValid l
    → IsValid (add_msg now group l (p, msg)) × (is_done (add_msg now group l (p, msg)) ≡ false)
unfolding add_msg
add_msg-IsValid now group l p msg d v = (
  record {
    ordered = insert-IsOrdered p msg_fetch_from_broker l.client_status_map v.ordered;
    covered = λ q h. ground (
      arith,
      find-insert p q msg_fetch_from_broker l.client_status_map,
      find-insert p q reconsume_later l.status_map,
      v.covered q,
    );
    safe = λ h. cc;
    readable = add_msg-readable now group l p msg l.fetched_arr v.readable;
  },
  d,
)

add_msgs-IsValid :
    (now : ℕ) (group : Bytes) (l : ConsumerUnitLocker) (msgs : List (ℕ × MqMessageExt))
    → is_done l ≡ false
    → IsValid l
    → IsValid (add_msgs now group l msgs)
unfolding add_msgs
add_msgs-IsValid now group l [] d v = v
add_msgs-IsValid now group l ((p, msg) ∷ msgs) d v =
    let (v', d') = add_msg-IsValid now group l p msg d v in
    add_msgs-IsValid now group (add_msg now group l (p, msg)) msgs d' v'

pub new-IsValid :
    (now : ℕ) (group : Bytes) (msgs : List (ℕ × MqMessageExt)) → IsValid (new now group msgs)
unfolding new
new-IsValid now group msgs =
    add_msgs-IsValid now group start msgs refl
      (record { ordered = tt; covered = unfold find in λ p h. cc; safe = λ h. cc; readable = tt })

add_msgs_done :
    (now : ℕ) (group : Bytes) (l : ConsumerUnitLocker) (msgs : List (ℕ × MqMessageExt))
    → is_done (add_msgs now group l msgs) ≡ is_done l
unfolding add_msgs
add_msgs_done now group l [] = refl
add_msgs_done now group l ((p, msg) ∷ msgs) =
    add_msgs_done now group (add_msg now group l (p, msg)) msgs

pub new_not_done :
    (now : ℕ) (group : Bytes) (msgs : List (ℕ × MqMessageExt))
    → is_done (new now group msgs) ≡ false
unfolding new
new_not_done now group msgs = add_msgs_done now group start msgs

mark_all-IsValid :
    (id : Bytes) (s : ConsumeStatus) (ps : List ℕ) (ret : Bool) (l : ConsumerUnitLocker)
    → IsValid l
    → IsValid (mark_all id s msg_consume_ack ps (ret, l)).1
unfolding mark_all
mark_all-IsValid id s [] ret l v = v
mark_all-IsValid id s (p ∷ ps) ret l v = mark_all-IsValid id s ps true _ (record {
  ordered = assign-IsOrdered p msg_consume_ack l.client_status_map v.ordered;
  covered = λ q h. ground (
    arith,
    find-assign p q msg_consume_ack l.client_status_map,
    find-assign p q s l.status_map,
    v.covered q,
  );
  safe = λ h. all_acked-assign p l.client_status_map (v.safe h);
  readable = v.readable;
})

pub set_msg_status-IsValid :
    (id : Bytes) (s : ConsumeStatus) (l : ConsumerUnitLocker)
    → IsValid l
    → IsValid (set_msg_status id s msg_consume_ack l).1
unfolding set_msg_status
set_msg_status-IsValid id s l v = elim (Option-cases (find id l.id_msg_map)) [
  | inl e ↦ rw (e, set_msg_status) v
  | inr (queue, e) ↦ rw (e, set_msg_status) (mark_all-IsValid id s (keys queue) false l v)
]

pub trigger_check_valid :
    (forced : Bool) (l : ConsumerUnitLocker)
    → IsValid l
    → trigger_check forced l ≡ (
        if (forced || is_nil l.fetched_arr) && all_acked l.client_status_map
        then record l { status = verdict l; client_status = msg_consume_ack }
        else l)
trigger_check_valid forced l v =
    trigger_check_lem forced l (HasStatus-of_covers l.client_status_map l.status_map v.covered)

pub trigger_check-IsValid :
    (forced : Bool) (l : ConsumerUnitLocker) → IsValid l → IsValid (trigger_check forced l)
trigger_check-IsValid forced l v =
    rw (trigger_check_valid forced l v)
      (elim (Bool-cases ((forced || is_nil l.fetched_arr) && all_acked l.client_status_map)) [
        | inl e ↦ rw e (record {
          ordered = v.ordered;
          covered = v.covered;
          safe = λ h. ground arith;
          readable = v.readable;
        })
        | inr e ↦ rw e v
      ])

pub release_loop-IsValid :
    (es : Map ℕ ClientMsgConsumeStatus) (l : ConsumerUnitLocker)
    → IsValid l
    → IsValid (release_loop es l)
unfolding release_loop
release_loop-IsValid [] l v = v
release_loop-IsValid ((p, msg_consume_ack) ∷ rest) l v = release_loop-IsValid rest l v
release_loop-IsValid ((p, msg_fetch_from_broker) ∷ rest) l v = release_loop-IsValid rest _ (record {
  ordered = assign-IsOrdered p msg_consume_ack l.client_status_map v.ordered;
  covered = λ q h. ground (
    arith,
    find-assign p q msg_consume_ack l.client_status_map,
    find-assign p q reconsume_later l.status_map,
    v.covered q,
  );
  safe = λ h. all_acked-assign p l.client_status_map (v.safe h);
  readable = v.readable;
})

take_front-IsValid :
    (l : ConsumerUnitLocker) (ps : List ℕ)
    → Leads l ps
    → IsValid l
    → IsValid (after_fetch l (take_front l ps))
unfolding take_front
take_front-IsValid l [] h v = v
take_front-IsValid l (p ∷ ps) h v = record {
  ordered = v.ordered;
  covered = v.covered;
  safe = v.safe;
  readable = h.1;
}

pub step-IsValid : (l : ConsumerUnitLocker) (e : Event) → IsValid l → IsValid (step l e)
unfolding step get_msg
step-IsValid l fetches v = take_front-IsValid l l.fetched_arr v.readable v
step-IsValid l (acks id s) v = trigger_check-IsValid false _ (set_msg_status-IsValid id s l v)
step-IsValid l releases v =
    unfold release in trigger_check-IsValid true _ (release_loop-IsValid l.client_status_map l v)

pub run-IsValid : (l : ConsumerUnitLocker) (es : List Event) → IsValid l → IsValid (run l es)
unfolding run
run-IsValid l [] v = v
run-IsValid l (e ∷ es) v = run-IsValid (step l e) es (step-IsValid l e v)

-- Whatever the clients fetch and acknowledge, in whatever order, and also if the batch is given
-- up: the broker's callback for a batch returns only when every message of the batch is
-- acknowledged.
pub done_all_acked :
    (now : ℕ) (group : Bytes) (msgs : List (ℕ × MqMessageExt)) (es : List Event)
    → is_done (run (new now group msgs) es) ≡ true
    → all_acked (run (new now group msgs) es).client_status_map ≡ true
done_all_acked now group msgs es =
    (run-IsValid (new now group msgs) es (new-IsValid now group msgs)).safe
