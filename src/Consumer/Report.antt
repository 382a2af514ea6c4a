-- ===== src/Consumer/Report.antt =====
-- What a batch that is given up reports: `unlockAll` marks the open messages, and leaves no note
-- of them for the vector that the broker reads.
use rocketmq_proxy.Prelude.{
  ℕ, true, false, List, [], ◌∷◌, some, nat_less, bytes_less, is_some, arith, ◌≡◌, refl, ap, ◌⊎◌,
  inr, ◌∙◌, map, same_iff, same_refl,
}
use rocketmq_proxy.StdMap.{Map, find}
use rocketmq_proxy.StdMap.Lookup.{find-assign}
use rocketmq_proxy.Message.{
  MqMessageExt, msg_fetch_from_broker, msg_consume_ack, ClientMsgConsumeStatus, ConsumeStatus,
  is_ack, consume_success, reconsume_later,
}
use rocketmq_proxy.Locker.{ConsumerUnitLocker, release, release_loop}
use rocketmq_proxy.Locker.Trigger.{all_acked, any_later}
use rocketmq_proxy.Locker.Invariant.{IsValid, release_loop-IsValid, trigger_check_valid}
use rocketmq_proxy.Locker.Acked.{all_acked_of_find}
use rocketmq_proxy.Consumer.{status_vector, report}

-- The loop's effect on the messages: an entry that is open becomes acknowledged.
pub release_loop_acked :
    (es : Map ℕ ClientMsgConsumeStatus) (l : ConsumerUnitLocker)
    → ((p : ℕ) (c : ClientMsgConsumeStatus)
        → find p l.client_status_map ≡ some c
        → (is_ack c ≡ true) ⊎ (find p es ≡ some c))
    → (p : ℕ) (c : ClientMsgConsumeStatus) → find p (release_loop es l).client_status_map ≡ some c
    → is_ack c ≡ true
unfolding release_loop find
release_loop_acked [] l h p c e = ground (arith, h p c e)
release_loop_acked ((q, msg_consume_ack) ∷ es) l h p c e =
    release_loop_acked es l (λ r d f. ground (arith, h r d f)) p c e
release_loop_acked ((q, msg_fetch_from_broker) ∷ es) l h p c e =
    release_loop_acked es _
      (λ r d f. ground (arith, find-assign q r msg_consume_ack l.client_status_map, f, h r d)) p c e

-- A message with the status `RECONSUME_LATER` keeps it, and stays in the batch.
release_loop_keeps :
    (es : Map ℕ ClientMsgConsumeStatus) (l : ConsumerUnitLocker) (p : ℕ)
    → find p l.status_map ≡ some reconsume_later
    → is_some (find p l.client_status_map) ≡ true
    → (find p (release_loop es l).status_map ≡ some reconsume_later)
      × (is_some (find p (release_loop es l).client_status_map) ≡ true)
unfolding release_loop
release_loop_keeps [] l p s c = (s, c)
release_loop_keeps ((q, msg_consume_ack) ∷ es) l p s c = release_loop_keeps es l p s c
release_loop_keeps ((q, msg_fetch_from_broker) ∷ es) l p s c =
    release_loop_keeps es _ p (ground (arith, find-assign q p reconsume_later l.status_map))
      (ground (arith, find-assign q p msg_consume_ack l.client_status_map))

-- An open message ends with the status `RECONSUME_LATER`.
release_loop_rejects :
    (es : Map ℕ ClientMsgConsumeStatus) (l : ConsumerUnitLocker)
    → all_acked es ≡ false
    → (p : ℕ) × (find p (release_loop es l).status_map ≡ some reconsume_later)
      × (is_some (find p (release_loop es l).client_status_map) ≡ true)
unfolding release_loop all_acked
release_loop_rejects [] l h = cc
release_loop_rejects ((q, msg_consume_ack) ∷ es) l h = release_loop_rejects es l h
release_loop_rejects ((q, msg_fetch_from_broker) ∷ es) l h =
    let (rejected, present) =
      release_loop_keeps es _ q
        (ground (arith, find-assign q q reconsume_later l.status_map, same_refl q))
        (ground (arith, find-assign q q msg_consume_ack l.client_status_map, same_refl q)) in
    (q, rejected, present)

pub any_later_of_find :
    (clients : Map ℕ ClientMsgConsumeStatus) (m : Map ℕ ConsumeStatus) (p : ℕ)
    → is_some (find p clients) ≡ true
    → find p m ≡ some reconsume_later
    → any_later clients m ≡ true
unfolding find any_later
any_later_of_find [] m p c s = cc
any_later_of_find ((q, d) ∷ clients) m p c s =
    ground (arith, same_iff p q, any_later_of_find clients m p)

-- What `unlockAll` does not touch.
release_loop_frame :
    (es : Map ℕ ClientMsgConsumeStatus) (l : ConsumerUnitLocker)
    → (release_loop es l).reconsume_map ≡ l.reconsume_map
unfolding release_loop
release_loop_frame [] l = refl
release_loop_frame ((q, msg_consume_ack) ∷ es) l = release_loop_frame es l
release_loop_frame ((q, msg_fetch_from_broker) ∷ es) l = release_loop_frame es _

status_vector_nil :
    (msgs : List MqMessageExt) → status_vector [] msgs ≡ map (λ _. consume_success) msgs
unfolding status_vector find
status_vector_nil [] = refl
status_vector_nil (msg ∷ msgs) = ap (◌∷◌ consume_success) (status_vector_nil msgs)

-- A batch that is given up while a message is open is done, with `RECONSUME_LATER`.
release_lem :
    (l : ConsumerUnitLocker)
    → IsValid l
    → all_acked l.client_status_map ≡ false
    → release l ≡ record (release_loop l.client_status_map l) {
      status = reconsume_later;
      client_status = msg_consume_ack;
    }
unfolding release
release_lem l v is_open =
    let es = l.client_status_map in
    let v' = release_loop-IsValid es l v in
    let acked = all_acked_of_find _ v'.ordered (release_loop_acked es l (λ p c e. inr e)) in
    let (p, rejected, present) = release_loop_rejects es l is_open in
    ground (
      arith,
      trigger_check_valid true (release_loop es l) v',
      acked,
      any_later_of_find _ _ p present rejected,
    )

-- When the consumer is shut down while a batch has an open message, and no message of the batch
-- was rejected before: the batch ends with `RECONSUME_LATER`, yet the vector that the callback
-- fills says `CONSUME_SUCCESS` for every message, those that no client acknowledged included.
pub release_reports_success :
    (l : ConsumerUnitLocker) (msgs : List MqMessageExt)
    → IsValid l
    → all_acked l.client_status_map ≡ false
    → l.reconsume_map ≡ []
    → report (release l) msgs ≡ (reconsume_later, map (λ _. consume_success) msgs)
unfolding report
release_reports_success l msgs v is_open none_noted =
    rw (release_lem l v is_open) (λ i. (reconsume_later, vector i))
  where
    vector :
        status_vector (release_loop l.client_status_map l).reconsume_map msgs
        ≡ map (λ _. consume_success) msgs
    vector = rw (release_loop_frame l.client_status_map l ∙ none_noted) (status_vector_nil msgs)
