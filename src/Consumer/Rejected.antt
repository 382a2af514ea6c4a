-- ===== src/Consumer/Rejected.antt =====
-- A message that a client rejects is reported to the broker as rejected.
use mathlib.Core.Path.{subst}
use rocketmq_proxy.Prelude.{
  ℕ, zero, suc, true, ◌||◌, List, [], ◌∷◌, some, nat_less, bytes_less, is_some, arith, ◌≡◌, Bytes,
  same_refl, All, map, get_elem?, ap, ◌∙◌, Option-cases, inl, inr,
}
use rocketmq_proxy.StdMap.{Map, find}
use rocketmq_proxy.StdMap.Lookup.{find-insert}
use rocketmq_proxy.Message.{MqMessageExt, msg_consume_ack, msg_fetch_from_broker, reconsume_later}
use rocketmq_proxy.Locker.{
  ConsumerUnitLocker, get_msg, take_front, start, add_msg, add_msgs, new, is_done,
}
use rocketmq_proxy.Locker.Marks.{contains, pointers, pointers_of, set_msg_status_lem}
use rocketmq_proxy.Locker.History.{Event, fetches, acks, releases, after_fetch, step, run}
use rocketmq_proxy.Locker.Invariant.{IsValid, new-IsValid, step-IsValid, done_all_acked}
use rocketmq_proxy.Locker.Acked.{all_acked-find}
use rocketmq_proxy.Locker.Build.{Batch, addresses, Distinct}
use rocketmq_proxy.Locker.Awaited.{ack_frame}
use rocketmq_proxy.Locker.Indexed.{indexed-add_msgs}
use rocketmq_proxy.Locker.Result.{Stays, done_verdict}
use rocketmq_proxy.Locker.Noted.{new-IsNoted, run-IsNoted}
use rocketmq_proxy.Consumer.{report, status_vector}
use rocketmq_proxy.Consumer.Report.{any_later_of_find}

-- The index has the pointer under the id, and the batch has the message.
abbrev Holds : Bytes → ℕ → ConsumerUnitLocker → Type 0
Holds id p l = (contains p (pointers id l) ≡ true) × (is_some (find p l.client_status_map) ≡ true)

take_front-Holds :
    (id : Bytes) (p : ℕ) (l : ConsumerUnitLocker) (ps : List ℕ)
    → Holds id p l
    → Holds id p (after_fetch l (take_front l ps))
unfolding take_front
take_front-Holds id p l [] h = h
take_front-Holds id p l (q ∷ ps) h = h

run-Holds :
    (id : Bytes) (p : ℕ) (l : ConsumerUnitLocker) (es : List Event)
    → All Stays es
    → IsValid l
    → Holds id p l
    → Holds id p (run l es)
unfolding run
run-Holds id p l [] st v h = h
run-Holds id p l (fetches ∷ es) st v h =
    run-Holds id p (step l fetches) es st.1 (step-IsValid l fetches v)
      (unfold step get_msg in take_front-Holds id p l l.fetched_arr h)
run-Holds id p l (acks j s ∷ es) st v h =
    let (same_fetch, same_index, same_clients) = ack_frame l j s v in
    run-Holds id p (step l (acks j s)) es st.1 (step-IsValid l (acks j s) v) (
      ap (λ m. contains p (pointers_of (find id m))) same_index ∙ h.0,
      ground (arith, same_clients, (set_msg_status_lem j s msg_consume_ack l p j).2, h.1),
    )
run-Holds id p l (releases ∷ es) st v h = absurd st.0

present-add_msgs :
    (now : ℕ) (group : Bytes) (q : ℕ) (l : ConsumerUnitLocker) (msgs : Batch)
    → is_some (find q l.client_status_map) || contains q (addresses msgs) ≡ true
    → is_some (find q (add_msgs now group l msgs).client_status_map) ≡ true
unfolding add_msgs contains
present-add_msgs now group q l [] h = ground arith
present-add_msgs now group q l ((p, msg) ∷ msgs) h =
    present-add_msgs now group q (add_msg now group l (p, msg)) msgs
      (unfold add_msg in ground (arith, find-insert p q msg_fetch_from_broker l.client_status_map))

contains_address :
    (msgs : Batch) (i p : ℕ) (msg : MqMessageExt)
    → get_elem? msgs i ≡ some (p, msg)
    → contains p (addresses msgs) ≡ true
unfolding contains
contains_address [] i p msg e = cc
contains_address ((q, m) ∷ msgs) zero p msg e = ground (arith, same_refl p)
contains_address ((q, m) ∷ msgs) (suc i) p msg e = ground (arith, contains_address msgs i p msg e)

All-get_elem :
    (P : ℕ × MqMessageExt → Type 0) (msgs : Batch) (i : ℕ) (m : ℕ × MqMessageExt)
    → All P msgs
    → get_elem? msgs i ≡ some m
    → P m
All-get_elem P [] i m h e = cc
All-get_elem P (x ∷ msgs) zero m h e = let same_msg : x ≡ m = cc in subst P same_msg h.0
All-get_elem P (x ∷ msgs) (suc i) m h e = All-get_elem P msgs i m h.1 e

get_elem-status_vector :
    (notes : Map Bytes ℕ) (msgs : Batch) (i p : ℕ) (msg : MqMessageExt)
    → get_elem? msgs i ≡ some (p, msg)
    → is_some (find msg.msg_id notes) ≡ true
    → get_elem? (status_vector notes (map (λ m. m.1) msgs)) i ≡ some reconsume_later
unfolding status_vector
get_elem-status_vector notes [] i p msg e h = cc
get_elem-status_vector notes ((q, m) ∷ msgs) zero p msg e h = ground arith
get_elem-status_vector notes ((q, m) ∷ msgs) (suc i) p msg e h =
    get_elem-status_vector notes msgs i p msg e h

-- A batch whose units have distinct addresses, in every history in which it is not given up: when
-- the broker's callback returns, and the status of a message is `RECONSUME_LATER`, then so is the
-- result of the batch, and the vector that the broker reads says `RECONSUME_LATER` at the place of
-- that message.
pub rejected_reported :
    (now : ℕ) (group : Bytes) (msgs : Batch) (es : List Event) (i p : ℕ) (msg : MqMessageExt)
    → Distinct (addresses msgs)
    → All Stays es
    → get_elem? msgs i ≡ some (p, msg)
    → is_done (run (new now group msgs) es) ≡ true
    → find p (run (new now group msgs) es).status_map ≡ some reconsume_later
    → let (status, vector) = report (run (new now group msgs) es) (map (λ m. m.1) msgs) in
      (status ≡ reconsume_later) × (get_elem? vector i ≡ some reconsume_later)
unfolding report
rejected_reported now group msgs es i p msg d st at_i ended rejected =
    (result, ground (arith, result, get_elem-status_vector l.reconsume_map msgs i p msg at_i noted))
  where
    l : ConsumerUnitLocker
    l = run (new now group msgs) es

    held : Holds msg.msg_id p l
    held = run-Holds msg.msg_id p (new now group msgs) es st (new-IsValid now group msgs) (
        unfold new in
        (
          All-get_elem _ msgs i (p, msg) (indexed-add_msgs now group start msgs) at_i,
          present-add_msgs now group p start msgs
              (ground (arith, contains_address msgs i p msg at_i)),
        ))

    result : l.status ≡ reconsume_later
    result = ground (
      arith,
      (done_verdict now group msgs es st ended).1,
      any_later_of_find l.client_status_map l.status_map p held.1 rejected,
    )

    noted : is_some (find msg.msg_id l.reconsume_map) ≡ true
    noted = elim (Option-cases (find p l.client_status_map)) [
      | inl missing ↦ absurd (ground (arith, held.1, missing))
      | inr (c, found) ↦
          (run-IsNoted (new now group msgs) es st (new-IsValid now group msgs)
              (new-IsNoted now group msgs d)).1
            msg.msg_id p c held.0 found
            (all_acked-find l.client_status_map p c (done_all_acked now group msgs es ended) found)
            rejected
    ]
