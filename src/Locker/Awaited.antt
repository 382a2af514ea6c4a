-- ===== src/Locker/Awaited.antt =====
-- The acknowledgements that a batch waits for, and the messages it has to fetch, in a history.
use rocketmq_proxy.Prelude.{
  ℕ, Bool, true, false, ◌||◌, List, [], ◌∷◌, ◌++◌, some, nat_less, bytes_less, arith, ◌≡◌, refl, ap,
  ap₂, Bytes, same, All, length, suc, ◌-◌, ◌≤◌,
}
use rocketmq_proxy.StdMap.{find}
use rocketmq_proxy.Message.{msg_consume_ack, ClientMsgConsumeStatus, ConsumeStatus, is_ack}
use rocketmq_proxy.Locker.{ConsumerUnitLocker, set_msg_status, is_nil, get_msg, take_front}
use rocketmq_proxy.Locker.Marks.{
  contains, pointers, pointers_of, set_msg_status_lem, set_msg_status_frame,
}
use rocketmq_proxy.Locker.History.{Event, fetches, acks, releases, step, run}
use rocketmq_proxy.Locker.Invariant.{
  IsValid, step-IsValid, set_msg_status-IsValid, trigger_check_valid,
}
use rocketmq_proxy.Locker.Result.{Stays}

abbrev pub Acks : Type 0
Acks = List (Bytes × ConsumeStatus)

-- The pointer belongs to one of the message ids that are still to be acknowledged.
unfoldable pub awaited : ℕ → Acks → ConsumerUnitLocker → Bool
awaited p [] l = false
awaited p (a ∷ todo) l = contains p (pointers a.0 l) || awaited p todo l

abbrev pub Open : ConsumerUnitLocker → Acks → Type 0
Open l todo =
    (p : ℕ) (c : ClientMsgConsumeStatus)
    → find p l.client_status_map ≡ some c
    → is_ack c || awaited p todo l ≡ true

-- An acknowledgement leaves the messages to fetch and the index as they are.
pub ack_frame :
    (l : ConsumerUnitLocker) (id : Bytes) (s : ConsumeStatus)
    → IsValid l
    → let l' = step l (acks id s) in
      (l'.fetched_arr ≡ l.fetched_arr)
      × (l'.id_msg_map ≡ l.id_msg_map)
      × (l'.client_status_map ≡ (set_msg_status id s msg_consume_ack l).1.client_status_map)
unfolding step
ack_frame l id s v = ground (
  arith,
  trigger_check_valid false _ (set_msg_status-IsValid id s l v),
  set_msg_status_frame id s msg_consume_ack l,
)

awaited_frame :
    (p : ℕ) (todo : Acks) (l l' : ConsumerUnitLocker)
    → l'.id_msg_map ≡ l.id_msg_map
    → awaited p todo l' ≡ awaited p todo l
unfolding awaited
awaited_frame p [] l l' e = refl
awaited_frame p (a ∷ todo) l l' e =
    ap₂ ◌||◌ (ap (λ m. contains p (pointers_of (find a.0 m))) e) (awaited_frame p todo l l' e)

pub ack-Open :
    (l : ConsumerUnitLocker) (id : Bytes) (s : ConsumeStatus) (todo : Acks)
    → IsValid l
    → Open l ((id, s) ∷ todo)
    → Open (step l (acks id s)) todo
unfolding awaited
ack-Open l id s todo v h p c e = ground (
  arith,
  e,
  h p c,
  ack_frame l id s v,
  awaited_frame p todo l (step l (acks id s)),
  (set_msg_status_lem id s msg_consume_ack l p id).2,
)

-- The acknowledgements in a history.
unfoldable pub acks_in : List Event → Acks
acks_in [] = []
acks_in (acks id s ∷ es) = (id, s) ∷ acks_in es
acks_in (fetches ∷ es) = acks_in es
acks_in (releases ∷ es) = acks_in es

-- Whether an acknowledgement of a message id is in a history, and how many fetches are.
abbrev pub is_acked : Bytes → List Event → Bool
is_acked id [] = false
is_acked id (acks j s ∷ es) = same id j || is_acked id es
is_acked id (_ ∷ es) = is_acked id es

abbrev pub fetched_in : List Event → ℕ
fetched_in [] = 0
fetched_in (fetches ∷ es) = suc (fetched_in es)
fetched_in (_ ∷ es) = fetched_in es

fetch_frame :
    (l : ConsumerUnitLocker)
    → let l' = step l fetches in
      (l'.client_status_map ≡ l.client_status_map)
      × (l'.id_msg_map ≡ l.id_msg_map)
      × (length l'.fetched_arr ≡ length l.fetched_arr - 1)
unfolding step get_msg take_front
fetch_frame l = ground arith

fetch-Open : (l : ConsumerUnitLocker) (todo : Acks) → Open l todo → Open (step l fetches) todo
fetch-Open l todo h p c e =
    ground (arith, e, h p c, fetch_frame l, awaited_frame p todo l (step l fetches))

-- After a history, what was open waits for the acknowledgements that are still to come.
pub run-Open :
    (l : ConsumerUnitLocker) (es : List Event) (todo : Acks)
    → IsValid l
    → All Stays es
    → Open l (acks_in es ++ todo)
    → Open (run l es) todo
unfolding run acks_in
run-Open l [] todo v stays h = h
run-Open l (fetches ∷ es) todo v stays h =
    run-Open (step l fetches) es todo (step-IsValid l fetches v) stays.1
      (fetch-Open l (acks_in es ++ todo) h)
run-Open l (acks id s ∷ es) todo v stays h =
    run-Open (step l (acks id s)) es todo (step-IsValid l (acks id s) v) stays.1
      (ack-Open l id s (acks_in es ++ todo) v h)
run-Open l (releases ∷ es) todo v stays h = absurd stays.0

-- As many fetches as there are messages leave nothing to fetch, whatever stands between them.
pub run_fetched :
    (l : ConsumerUnitLocker) (es : List Event)
    → IsValid l
    → All Stays es
    → length l.fetched_arr ≤ fetched_in es
    → is_nil (run l es).fetched_arr ≡ true
unfolding run
run_fetched l [] v stays few = by_arr l.fetched_arr few
  where
    by_arr : (ps : List ℕ) → length ps ≤ 0 → is_nil ps ≡ true
    by_arr [] few = refl
    by_arr (p ∷ ps) few = absurd (omega arith)
run_fetched l (fetches ∷ es) v stays few =
    run_fetched (step l fetches) es (step-IsValid l fetches v) stays.1
      (omega (arith, (fetch_frame l).2))
run_fetched l (acks id s ∷ es) v stays few =
    run_fetched (step l (acks id s)) es (step-IsValid l (acks id s) v) stays.1
      (ground (arith, (ack_frame l id s v).0))
run_fetched l (releases ∷ es) v stays few = absurd stays.0
