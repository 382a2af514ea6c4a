-- ===== src/Locker/Result.antt =====
-- The result with which a batch ends that is not given up.
use rocketmq_proxy.Prelude.{
  ℕ, true, false, ◌&&◌, List, [], ◌∷◌, nat_less, arith, ◌≡◌, refl, Bool-cases, inl, inr, Bytes, All,
}
use rocketmq_proxy.Message.{MqMessageExt, msg_consume_ack, ConsumeStatus}
use rocketmq_proxy.Locker.{
  ConsumerUnitLocker, set_msg_status, get_msg, take_front, is_done, is_nil, new,
}
use rocketmq_proxy.Locker.Trigger.{all_acked, verdict}
use rocketmq_proxy.Locker.Marks.{set_msg_status_frame}
use rocketmq_proxy.Locker.History.{Event, fetches, acks, releases, after_fetch, step, run}
use rocketmq_proxy.Locker.Invariant.{
  IsValid, new-IsValid, new_not_done, set_msg_status-IsValid, step-IsValid, trigger_check_valid,
}

-- A history in which the batch is not given up.
abbrev pub Stays : Event → Type 0
Stays releases = ⊥
Stays _ = Unit {0}

-- A batch that is done has no message left to fetch, and its result is the verdict on the
-- statuses that it holds now.
abbrev pub SettledWith : List ℕ → ConsumerUnitLocker → Type 0
SettledWith ps l = is_done l ≡ true → (is_nil ps ≡ true) × (l.status ≡ verdict l)

abbrev pub IsSettled : ConsumerUnitLocker → Type 0
IsSettled l = SettledWith l.fetched_arr l

take_front-IsSettled :
    (l : ConsumerUnitLocker) (ps : List ℕ)
    → IsSettled l
    → SettledWith ps l
    → IsSettled (after_fetch l (take_front l ps))
unfolding take_front
take_front-IsSettled l [] g h = g
take_front-IsSettled l (p ∷ ps) g h = λ d. absurd (cc (h d).0)

acks-IsSettled :
    (l : ConsumerUnitLocker) (id : Bytes) (s : ConsumeStatus)
    → IsValid l
    → IsSettled l
    → IsSettled (step l (acks id s))
unfolding step
acks-IsSettled l id s v h =
    rw (trigger_check_valid false l' v')
      (elim (Bool-cases (is_nil l'.fetched_arr && all_acked l'.client_status_map)) [
        | inl e ↦ rw e (λ d. (ground arith, refl))
        | inr e ↦ rw e (λ d.
            absurd (ground (arith, set_msg_status_frame id s msg_consume_ack l, h, v'.safe d)))
      ])
  where
    l' : ConsumerUnitLocker
    l' = (set_msg_status id s msg_consume_ack l).1

    v' : IsValid l'
    v' = set_msg_status-IsValid id s l v

run-IsSettled :
    (l : ConsumerUnitLocker) (es : List Event)
    → All Stays es
    → IsValid l
    → IsSettled l
    → IsSettled (run l es)
unfolding run step get_msg
run-IsSettled l [] st v h = h
run-IsSettled l (fetches ∷ es) st v h =
    run-IsSettled (step l fetches) es st.1 (step-IsValid l fetches v)
      (take_front-IsSettled l l.fetched_arr h h)
run-IsSettled l (acks id s ∷ es) st v h =
    run-IsSettled (step l (acks id s)) es st.1 (step-IsValid l (acks id s) v)
      (acks-IsSettled l id s v h)
run-IsSettled l (releases ∷ es) st v h = absurd st.0

-- In every history in which the batch is not given up: when the broker's callback returns, all
-- messages have been handed to clients, and the result is `RECONSUME_LATER` if the status of some
-- message is `RECONSUME_LATER`, and else `CONSUME_SUCCESS`.
pub done_verdict :
    (now : ℕ) (group : Bytes) (msgs : List (ℕ × MqMessageExt)) (es : List Event)
    → All Stays es
    → is_done (run (new now group msgs) es) ≡ true
    → let l = run (new now group msgs) es in (is_nil l.fetched_arr ≡ true) × (l.status ≡ verdict l)
done_verdict now group msgs es st =
    run-IsSettled (new now group msgs) es st (new-IsValid now group msgs)
      (λ d. absurd (cc (new_not_done now group msgs)))
