-- ===== src/Locker/Noted.antt =====
-- The notes of a batch: a message that a client rejects is noted under its id.
use rocketmq_proxy.Locker.Owned.{Owned, Noted, contains_cons, Owned-once, add_msgs-Owned}
use rocketmq_proxy.Prelude.{
  ℕ, true, false, ◌||◌, ◌&&◌, List, [], ◌∷◌, some, nat_less, bytes_less, arith, ◌≡◌, refl, Bytes,
  same_iff, same_refl, All, Bool-cases, inl, inr, sym, ap, ◌∙◌,
}
use rocketmq_proxy.StdMap.{find}
use rocketmq_proxy.StdMap.Lookup.{find-insert}
use rocketmq_proxy.Message.{
  msg_fetch_from_broker, msg_consume_ack, ClientMsgConsumeStatus, ConsumeStatus, is_ack,
}
use rocketmq_proxy.Locker.{
  ConsumerUnitLocker, get_msg, take_front, set_msg_status, trigger_check, start, add_msg, add_msgs,
  new, is_nil,
}
use rocketmq_proxy.Locker.Marks.{
  contains, pointers, pointers_of, set_msg_status_lem, set_msg_status_frame,
}
use rocketmq_proxy.Locker.Trigger.{all_acked}
use rocketmq_proxy.Locker.History.{Event, fetches, acks, releases, after_fetch, step, run}
use rocketmq_proxy.Locker.Invariant.{
  IsValid, step-IsValid, set_msg_status-IsValid, trigger_check_valid,
}
use rocketmq_proxy.Locker.Build.{Batch, addresses, Distinct}
use rocketmq_proxy.Locker.Result.{Stays}

-- No message is acknowledged yet.
abbrev pub Unacked : ConsumerUnitLocker → Type 0
Unacked l =
    (p : ℕ) (c : ClientMsgConsumeStatus) → find p l.client_status_map ≡ some c → is_ack c ≡ false

add_msgs-Unacked :
    (now : ℕ) (group : Bytes) (l : ConsumerUnitLocker) (msgs : Batch)
    → Unacked l
    → Unacked (add_msgs now group l msgs)
unfolding add_msgs add_msg
add_msgs-Unacked now group l [] h = h
add_msgs-Unacked now group l ((p, msg) ∷ msgs) h =
    add_msgs-Unacked now group (add_msg now group l (p, msg)) msgs λ q c e.
      unfold add_msg in
      ground (
        arith,
        find-insert p q msg_fetch_from_broker l.client_status_map,
        e,
        h q c,
        h p c,
        same_iff q p,
      )

acks-Noted :
    (l : ConsumerUnitLocker) (id : Bytes) (s : ConsumeStatus)
    → Owned l
    → Noted l
    → Noted (set_msg_status id s msg_consume_ack l).1
acks-Noted l id s owned noted j p c h e k f =
    let (ret, st, cl, re) = set_msg_status_lem id s msg_consume_ack l p j in
    let (same_fetch, same_client, same_index, same_heap) =
      set_msg_status_frame id s msg_consume_ack l in
    let known : contains p (pointers j l) ≡ true =
      sym (ap (λ m. contains p (pointers_of (find j m))) same_index) ∙ h in
    ground (
      arith,
      st,
      cl,
      re,
      e,
      k,
      f,
      noted j p c known,
      Owned-once l j id p owned known,
      contains_cons p (pointers id l),
      same_refl j,
    )

-- Both hold between two events, and stay if the batch is not given up.
abbrev pub IsNoted : ConsumerUnitLocker → Type 0
IsNoted l = Owned l × Noted l

take_front-IsNoted :
    (l : ConsumerUnitLocker) (ps : List ℕ) → IsNoted l → IsNoted (after_fetch l (take_front l ps))
unfolding take_front
take_front-IsNoted l [] h = h
take_front-IsNoted l (p ∷ ps) h = h

trigger_check-IsNoted :
    (l : ConsumerUnitLocker) → IsValid l → IsNoted l → IsNoted (trigger_check false l)
trigger_check-IsNoted l v h =
    rw (trigger_check_valid false l v)
      (elim (Bool-cases ((false || is_nil l.fetched_arr) && all_acked l.client_status_map)) [
        | inl e ↦ rw e h
        | inr e ↦ rw e h
      ])

acks-Owned :
    (l : ConsumerUnitLocker) (id : Bytes) (s : ConsumeStatus)
    → Owned l
    → Owned (set_msg_status id s msg_consume_ack l).1
acks-Owned l id s owned j p h =
    let (same_fetch, same_client, same_index, same_heap) =
      set_msg_status_frame id s msg_consume_ack l in
    let (u, e, f) =
      owned j p (sym (ap (λ m. contains p (pointers_of (find j m))) same_index) ∙ h) in
    (u, ap (find p) same_heap ∙ e, f)

pub run-IsNoted :
    (l : ConsumerUnitLocker) (es : List Event)
    → All Stays es
    → IsValid l
    → IsNoted l
    → IsNoted (run l es)
unfolding run step get_msg
run-IsNoted l [] st v h = h
run-IsNoted l (fetches ∷ es) st v h =
    run-IsNoted (step l fetches) es st.1 (step-IsValid l fetches v)
      (take_front-IsNoted l l.fetched_arr h)
run-IsNoted l (acks id s ∷ es) st v h =
    run-IsNoted (step l (acks id s)) es st.1 (step-IsValid l (acks id s) v) (
      trigger_check-IsNoted _ (set_msg_status-IsValid id s l v)
        (acks-Owned l id s h.0, acks-Noted l id s h.0 h.1))
run-IsNoted l (releases ∷ es) st v h = absurd st.0

pub new-IsNoted :
    (now : ℕ) (group : Bytes) (msgs : Batch)
    → Distinct (addresses msgs)
    → IsNoted (new now group msgs)
unfolding new contains
new-IsNoted now group msgs d = (
  add_msgs-Owned now group start msgs d (λ q h id. unfold find in refl)
      (unfold find in λ id p h. cc),
  λ id p c h e k f. absurd (ground (arith, unacked p c e, k)),
)
  where
    unacked : Unacked (new now group msgs)
    unacked = unfold new in add_msgs-Unacked now group start msgs (unfold find in λ p c e. cc)
