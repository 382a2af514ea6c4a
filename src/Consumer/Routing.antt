-- ===== src/Consumer/Routing.antt =====
-- How a consumer's operations act on its batches.
use rocketmq_proxy.Prelude.{
  ℕ, Bool, false, ◌||◌, List, [], ◌∷◌, ◌++◌, Option, none, some, nat_less, bytes_less, Bytes, ◌≡◌,
  refl, ap, ◌⊎◌, inl, inr, map, All,
}
use rocketmq_proxy.StdMap.{find}
use rocketmq_proxy.Message.{MsgUnit, ConsumeStatus, msg_consume_ack}
use rocketmq_proxy.Locker.{ConsumerUnitLocker}
use rocketmq_proxy.Locker.Marks.{pointers, is_cons, set_msg_status_lem}
use rocketmq_proxy.Locker.History.{step, acks}
use rocketmq_proxy.Locker.Build.{get_msg_cons, get_msg_nil}
use rocketmq_proxy.Consumer.{Lockers, ConsumerUnit, ack_lockers, set_msg_ack, fetch_lockers, fetch}

-- Some batch has a message with the id.
unfoldable pub any_knows : Bytes → Lockers → Bool
any_knows id [] = false
any_knows id ((a, l) ∷ rest) = is_cons (pointers id l) || any_knows id rest

abbrev pub each : (ConsumerUnitLocker → ConsumerUnitLocker) → Lockers → Lockers
each f = map λ e. (e.0, f e.1)

-- `setMsgAck` answers `true` exactly if some batch of the consumer has a message with the id, and
-- records the acknowledgement in every batch; each batch is then looked at for its end.
pub set_msg_ack_lem :
    (id : Bytes) (s : ConsumeStatus) (u : ConsumerUnit)
    → set_msg_ack id s u
      ≡ (any_knows id u.lockers, record u { lockers = each (λ l. step l (acks id s)) u.lockers })
unfolding set_msg_ack step any_knows
set_msg_ack_lem id s u = λ i. ((loop u.lockers i).0, record u { lockers = (loop u.lockers i).1 })
  where
    loop :
        (ls : Lockers) → ack_lockers id s ls ≡ (any_knows id ls, each (λ l. step l (acks id s)) ls)
    loop [] = refl
    loop ((a, l) ∷ rest) = λ i. (
      (set_msg_status_lem id s msg_consume_ack l a id).0 i || (loop rest i).0,
      (a, step l (acks id s)) ∷ (loop rest i).1,
    )

-- The outcome of a search for a message: nothing, where no batch has one to fetch; or the front
-- message of a batch behind batches that have none, and that batch without it.
abbrev pub Fetches : {R : Type 0} → Lockers → R → (Option MsgUnit → Lockers → R) → R → Type 0
Fetches ls nothing found r =
    (All (λ e. e.1.fetched_arr ≡ []) ls × (r ≡ nothing))
    ⊎ ((pre : Lockers) × (a : ℕ) × (l : ConsumerUnitLocker) × (post : Lockers) × (p : ℕ)
        × (ps : List ℕ) × (ls ≡ pre ++ (a, l) ∷ post)
        × All (λ e. e.1.fetched_arr ≡ []) pre
        × (l.fetched_arr ≡ p ∷ ps)
        × (r ≡ found (find p l.heap) (pre ++ (a, record l { fetched_arr = ps }) ∷ post)))

abbrev FetchesFrom : Lockers → Option (Option MsgUnit × Lockers) → Type 0
FetchesFrom ls r = Fetches ls none (λ m ls'. some (m, ls')) r

fetch_lockers_lem : (ls : Lockers) → FetchesFrom ls (fetch_lockers ls)
unfolding fetch_lockers
fetch_lockers_lem [] = inl (tt, refl)
fetch_lockers_lem ((a, l) ∷ rest) = by_front l.fetched_arr refl (fetch_lockers_lem rest)
  where
    by_front :
        (ps : List ℕ)
        → l.fetched_arr ≡ ps
        → FetchesFrom rest (fetch_lockers rest)
        → FetchesFrom ((a, l) ∷ rest) (fetch_lockers ((a, l) ∷ rest))
    by_front (p ∷ ps) e _ =
        inr ([], a, l, rest, p, ps, refl, tt, e, rw (get_msg_cons l p ps e, fetch_lockers) refl)
    by_front [] e (inl (none_left, nothing)) =
        inl ((e, none_left), rw (get_msg_nil l e, fetch_lockers) (rw nothing refl))
    by_front [] e (inr (pre, b, m, post, p, ps, split, empty, front, found)) = inr (
      (a, l) ∷ pre,
      b,
      m,
      post,
      p,
      ps,
      ap (◌∷◌ (a, l)) split,
      (e, empty),
      front,
      rw (get_msg_nil l e, fetch_lockers) (rw found refl),
    )

-- `fetchAndConsume` takes the front message of the first batch, in the order of the batches'
-- addresses, that has a message to fetch, and finds nothing only if no batch has one. No other
-- batch changes.
pub fetch_lem :
    (u : ConsumerUnit)
    → Fetches u.lockers none (λ m ls. some (m, record u { lockers = ls })) (fetch u)
unfolding fetch
fetch_lem u = elim (fetch_lockers_lem u.lockers) [
  | inl (empty, e) ↦ inl (empty, rw (e, fetch))
  | inr (pre, a, l, post, p, ps, split, empty, front, e) ↦
      inr (pre, a, l, post, p, ps, split, empty, front, rw (e, fetch))
]
