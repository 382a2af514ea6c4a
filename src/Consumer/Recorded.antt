-- ===== src/Consumer/Recorded.antt =====
-- The statuses that an acknowledgement leaves in the batches of a consumer.
use rocketmq_proxy.Prelude.{
  ℕ, true, false, [], ◌∷◌, some, nat_less, bytes_less, Bytes, All, same_iff, arith, ◌≡◌,
}
use rocketmq_proxy.StdMap.{Map, find, insert}
use rocketmq_proxy.StdMap.Lookup.{find-insert}
use rocketmq_proxy.Message.{
  ClientMsgConsumeStatus, ConsumeStatus, msg_consume_ack, msg_fetch_from_broker, consume_success,
}
use rocketmq_proxy.Locker.{ConsumerUnitLocker, scan, conclude, trigger_check, set_msg_status}
use rocketmq_proxy.Locker.Marks.{contains, pointers, set_msg_status_lem, set_msg_status_frame}
use rocketmq_proxy.Locker.History.{step, acks}
use rocketmq_proxy.Consumer.{Lockers}
use rocketmq_proxy.Consumer.Routing.{each}

-- In a batch, every message with the id is acknowledged, with the status.
abbrev pub AckedIn : Bytes → ConsumeStatus → ConsumerUnitLocker → Type 0
AckedIn id s l =
    (p : ℕ)
    → contains p (pointers id l) ≡ true
    → (find p l.client_status_map ≡ some msg_consume_ack) × (find p l.status_map ≡ some s)

-- The loop of `triggerCheck` only makes entries that are not there.
scan_keeps :
    (cs : Map ℕ ClientMsgConsumeStatus) (m : Map ℕ ConsumeStatus) (s v : ConsumeStatus)
    (c : ClientMsgConsumeStatus) (p : ℕ)
    → find p m ≡ some v
    → find p (scan cs m s c).0 ≡ some v
unfolding scan
scan_keeps [] m s v c p e = e
scan_keeps ((q, msg_fetch_from_broker) ∷ cs) m s v c p e = e
scan_keeps ((q, msg_consume_ack) ∷ cs) m s v c p e =
    scan_keeps cs (insert q consume_success m) _ v msg_consume_ack p
      (ground (arith, e, find-insert q p consume_success m, same_iff p q))

trigger_check_frame :
    (l : ConsumerUnitLocker)
    → let l' = trigger_check false l in
      (l'.id_msg_map ≡ l.id_msg_map) × (l'.client_status_map ≡ l.client_status_map)
unfolding trigger_check conclude
trigger_check_frame l = ground arith

trigger_check_keeps :
    (l : ConsumerUnitLocker) (p : ℕ) (v : ConsumeStatus)
    → find p l.status_map ≡ some v
    → find p (trigger_check false l).status_map ≡ some v
unfolding trigger_check conclude
trigger_check_keeps l p v e =
    ground
      (arith, scan_keeps l.client_status_map l.status_map consume_success v msg_consume_ack p e)

step-AckedIn :
    (id : Bytes) (s : ConsumeStatus) (l : ConsumerUnitLocker) → AckedIn id s (step l (acks id s))
unfolding step
step-AckedIn id s l p known =
    let l' = (set_msg_status id s msg_consume_ack l).1 in
    let frame = trigger_check_frame l' in
    let at_p : contains p (pointers id l) ≡ true =
      ground (arith, frame, set_msg_status_frame id s msg_consume_ack l, known) in
    let marked = set_msg_status_lem id s msg_consume_ack l p id in
    let status : find p l'.status_map ≡ some s = ground (arith, marked.1, at_p) in
    (ground (arith, frame.1, marked.2, at_p), trigger_check_keeps l' p s status)

-- So it is in every batch of a consumer that gets the acknowledgement.
pub each-AckedIn :
    (id : Bytes) (s : ConsumeStatus) (ls : Lockers)
    → All (λ e. AckedIn id s e.1) (each (λ l. step l (acks id s)) ls)
each-AckedIn id s [] = tt
each-AckedIn id s ((a, l) ∷ ls) = (step-AckedIn id s l, each-AckedIn id s ls)
