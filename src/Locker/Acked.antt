-- ===== src/Locker/Acked.antt =====
-- The messages of a batch that are acknowledged, as the maps change.
use rocketmq_proxy.Prelude.{
  ℕ, true, [], ◌∷◌, some, nat_less, is_some, arith, ◌≡◌, refl, Bool-cases, inl, inr, same,
  same_refl, same_iff, Less, bytes_less, All, All-mono,
}
use rocketmq_proxy.StdMap.{Map, find, place, assign, overwrite}
use rocketmq_proxy.StdMap.Order.{IsOrdered, find-Above}
use rocketmq_proxy.Message.{ClientMsgConsumeStatus, msg_consume_ack, is_ack, ConsumeStatus}
use rocketmq_proxy.Locker.Trigger.{all_acked, HasStatus}

-- Every key of a map is found.
pub find_entries {ℓ κ} :
    {K : Type ℓ} {V : Type κ} ⦃o : Less K⦄ (m : Map K V) → All (λ e. is_some (find e.0 m) ≡ true) m
unfolding find
find_entries [] = tt
find_entries ((k, v) ∷ m) =
    (rw (same_refl k), All-mono _ _ m (λ e h. ground arith) (find_entries m))

pub HasStatus-of_covers :
    (clients : Map ℕ ClientMsgConsumeStatus) (m : Map ℕ ConsumeStatus)
    → ((p : ℕ) → is_some (find p clients) ≡ true → is_some (find p m) ≡ true)
    → HasStatus clients m
HasStatus-of_covers clients m h = All-mono _ _ clients (λ e. h e.0) (find_entries clients)

pub all_acked-find :
    (m : Map ℕ ClientMsgConsumeStatus) (p : ℕ) (c : ClientMsgConsumeStatus)
    → all_acked m ≡ true
    → find p m ≡ some c
    → is_ack c ≡ true
unfolding all_acked find
all_acked-find [] p c a e = cc
all_acked-find ((q, d) ∷ m) p c a e = ground (arith, all_acked-find m p c)

pub all_acked_of_find :
    (m : Map ℕ ClientMsgConsumeStatus)
    → IsOrdered m
    → ((p : ℕ) (c : ClientMsgConsumeStatus) → find p m ≡ some c → is_ack c ≡ true)
    → all_acked m ≡ true
unfolding all_acked find
all_acked_of_find [] s h = refl
all_acked_of_find ((q, d) ∷ m) s h =
    let rest = all_acked_of_find m s.1 λ p c e. h p c (elim (Bool-cases (same p q)) [
      | inl hit ↦ ground (arith, same_iff p q, find-Above p m, s.0)
      | inr miss ↦ rw miss e
    ]) in
    ground (arith, h q d, same_refl q, rest)

pub all_acked-place :
    (p : ℕ) (m : Map ℕ ClientMsgConsumeStatus)
    → all_acked m ≡ true
    → all_acked (place p msg_consume_ack m) ≡ true
unfolding all_acked place
all_acked-place p [] a = refl
all_acked-place p ((q, d) ∷ m) a = ground (arith, all_acked-place p m)

pub all_acked-overwrite :
    (p : ℕ) (m : Map ℕ ClientMsgConsumeStatus)
    → all_acked m ≡ true
    → all_acked (overwrite p msg_consume_ack m) ≡ true
unfolding all_acked overwrite
all_acked-overwrite p [] a = refl
all_acked-overwrite p ((q, d) ∷ m) a = ground (arith, all_acked-overwrite p m)

pub all_acked-assign :
    (p : ℕ) (m : Map ℕ ClientMsgConsumeStatus)
    → all_acked m ≡ true
    → all_acked (assign p msg_consume_ack m) ≡ true
unfolding assign
all_acked-assign p m a = ground (arith, all_acked-place p m a, all_acked-overwrite p m a)
