-- ===== src/System/Fetches.antt =====
-- What is fetched from valid batches.
use rocketmq_proxy.Prelude.{
  ℕ, [], ◌∷◌, Option, none, some, bytes_less, refl, ◌≡◌, Option-cases, inl, inr, nat_less,
}
use rocketmq_proxy.Message.{MsgUnit}
use rocketmq_proxy.StdMap.{find}
use rocketmq_proxy.Locker.{ConsumerUnitLocker, get_msg}
use rocketmq_proxy.Locker.History.{step, fetches, after_fetch}
use rocketmq_proxy.Consumer.{ConsumerUnit, Lockers, fetch, fetch_lockers}
use rocketmq_proxy.Consumer.History.{Every}
use rocketmq_proxy.World.{finish_consume}
use rocketmq_proxy.System.Lasting.{Lasting, UnitHolds, handed}

-- The reply with a message that is fetched from valid batches is right.
abbrev pub FetchIsRight : Lasting → {A : Type 0} → Option (Option MsgUnit × A) → Type 0
FetchIsRight L (some (some msg, x)) = (call : ℕ) → L.Right (finish_consume call (handed msg))
FetchIsRight L _ = Unit

pub find-FetchIsRight :
    (L : Lasting) {A : Type 0} (l : ConsumerUnitLocker) (p : ℕ) (o : Option MsgUnit) (x : A)
    → L.Valid l
    → find p l.heap ≡ o
    → FetchIsRight L {A = A} (some (o, x))
find-FetchIsRight L l p none x v e = tt
find-FetchIsRight L l p (some msg) x v e = λ call. L.handed-Right l p msg call v e

pub fetch_lockers-FetchIsRight :
    (L : Lasting) (ls : Lockers) → Every L.Valid ls → FetchIsRight L (fetch_lockers ls)
unfolding fetch_lockers step
fetch_lockers-FetchIsRight L [] v = tt
fetch_lockers-FetchIsRight L ((a, l) ∷ rest) v = elim (Option-cases (get_msg l)) [
  | inr ((p, l'), g) ↦
      let v' : L.Valid (after_fetch l (get_msg l)) = L.step-Valid l fetches v.0 in
      rw (g, fetch_lockers) (find-FetchIsRight L l' p _ ((a, l') ∷ rest) (rw g at v') refl)
  | inl g ↦
      rw (g, fetch_lockers) (by_rest (fetch_lockers rest) (fetch_lockers-FetchIsRight L rest v.1))
]
  where
    by_rest :
        (r : Option (Option MsgUnit × Lockers))
        → FetchIsRight L r
        → FetchIsRight L {A = Lockers}
            (elim r [ none ↦ none | some (m, rest') ↦ some (m, (a, l) ∷ rest') ])
    by_rest none h = tt
    by_rest (some (none, ls)) h = tt
    by_rest (some (some m, ls)) h = h

pub fetch-FetchIsRight : (L : Lasting) (u : ConsumerUnit) → UnitHolds L u → FetchIsRight L (fetch u)
unfolding fetch
fetch-FetchIsRight L u v =
    by_found (fetch_lockers u.lockers) (fetch_lockers-FetchIsRight L u.lockers v)
  where
    by_found :
        (r : Option (Option MsgUnit × Lockers))
        → FetchIsRight L r
        → FetchIsRight L {A = ConsumerUnit}
            (elim r [ none ↦ none | some (m, ls) ↦ some (m, record u { lockers = ls }) ])
    by_found none h = tt
    by_found (some (none, ls)) h = tt
    by_found (some (some m, ls)) h = h
