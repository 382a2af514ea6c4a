-- ===== src/Locker/Trigger.antt =====
-- `triggerCheck` against what it decides: whether all messages are acknowledged, and with what
-- result.
use rocketmq_proxy.Prelude.{
  ℕ, Bool, true, false, ◌&&◌, ◌||◌, [], ◌∷◌, nat_less, if◌then◌else◌, is_some, ◌==◌, arith, ◌≡◌,
  refl, All, Bool-cases, inl, inr, ◌∙◌, Less,
}
use rocketmq_proxy.StdMap.{Map, find, insert}
use rocketmq_proxy.Message.{
  ClientMsgConsumeStatus, msg_fetch_from_broker, msg_consume_ack, is_ack, ConsumeStatus,
  consume_success, reconsume_later,
}
use rocketmq_proxy.Locker.{ConsumerUnitLocker, scan, trigger_check, status_at, is_nil}

-- Every message of the batch is acknowledged.
unfoldable pub all_acked : Map ℕ ClientMsgConsumeStatus → Bool
all_acked [] = true
all_acked ((p, c) ∷ rest) = is_ack c && all_acked rest

-- Some message of the batch is to be consumed again.
unfoldable pub any_later : Map ℕ ClientMsgConsumeStatus → Map ℕ ConsumeStatus → Bool
any_later [] m = false
any_later ((p, c) ∷ rest) m = status_at p m == reconsume_later || any_later rest m

-- The result of a batch whose messages are all acknowledged.
abbrev pub verdict : ConsumerUnitLocker → ConsumeStatus
verdict l = if any_later l.client_status_map l.status_map then reconsume_later else consume_success

-- Every message has an entry in the map of statuses.
abbrev pub HasStatus : Map ℕ ClientMsgConsumeStatus → Map ℕ ConsumeStatus → Type 0
HasStatus clients m = All (λ e. is_some (find e.0 m) ≡ true) clients

pub insert_present {ℓ κ} :
    {K : Type ℓ} {V : Type κ} ⦃o : Less K⦄ (k : K) (v : V) (m : Map K V)
    → is_some (find k m) ≡ true
    → insert k v m ≡ m
unfolding insert
insert_present k v m h = rw h

scan_acked :
    (clients : Map ℕ ClientMsgConsumeStatus) (m : Map ℕ ConsumeStatus) (s : ConsumeStatus)
    → HasStatus clients m
    → all_acked clients ≡ true
    → scan clients m s msg_consume_ack
      ≡ (m, if any_later clients m then reconsume_later else s, msg_consume_ack)
unfolding scan all_acked any_later
scan_acked [] m s h a = refl
scan_acked ((p, msg_fetch_from_broker) ∷ rest) m s h a = cc
scan_acked ((p, msg_consume_ack) ∷ rest) m s h a =
    rw (insert_present p consume_success m h.0)
      (elim (Bool-cases (status_at p m == reconsume_later)) [
        | inl e ↦ rw e (scan_acked rest m reconsume_later h.1 a ∙ ground arith)
        | inr e ↦ rw e (scan_acked rest m s h.1 a)
      ])

scan_open :
    (clients : Map ℕ ClientMsgConsumeStatus) (m : Map ℕ ConsumeStatus) (s : ConsumeStatus)
    (cs : ClientMsgConsumeStatus)
    → HasStatus clients m
    → all_acked clients ≡ false
    → (s' : ConsumeStatus) × (scan clients m s cs ≡ (m, s', msg_fetch_from_broker))
unfolding scan all_acked
scan_open [] m s cs h a = cc
scan_open ((p, msg_fetch_from_broker) ∷ rest) m s cs h a = (s, refl)
scan_open ((p, msg_consume_ack) ∷ rest) m s cs h a = rw (insert_present p consume_success m h.0) (
    scan_open rest m (if status_at p m == reconsume_later then reconsume_later else s)
      msg_consume_ack h.1 a)

-- Where every message has a status, `triggerCheck` ends the wait exactly when it is forced or all
-- messages are fetched, and all messages are acknowledged: the result is then `RECONSUME_LATER`
-- if some message has that status, and else `CONSUME_SUCCESS`. Otherwise nothing changes.
pub trigger_check_lem :
    (forced : Bool) (l : ConsumerUnitLocker)
    → HasStatus l.client_status_map l.status_map
    → trigger_check forced l ≡ (
        if (forced || is_nil l.fetched_arr) && all_acked l.client_status_map
        then record l { status = verdict l; client_status = msg_consume_ack }
        else l)
unfolding trigger_check
trigger_check_lem forced l h = elim (Bool-cases (all_acked l.client_status_map)) [
  | inl a ↦ rw (a, scan_acked l.client_status_map l.status_map consume_success h a) (ground arith)
  | inr a ↦
      let (s, e) = scan_open l.client_status_map l.status_map consume_success msg_consume_ack h a in
      rw (a, e) (ground arith)
]
