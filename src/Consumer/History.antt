-- ===== src/Consumer/History.antt =====
-- A consumer under every history of events.
use mathlib.Core.Path.{subst}
use rocketmq_proxy.Prelude.{
  ℕ, true, List, [], ◌∷◌, Option, none, some, nat_less, bytes_less, Bytes, if◌then◌else◌, arith,
  ◌≡◌, refl, ap, inl, inr, sym, Bool-cases, Option-cases,
}
use rocketmq_proxy.StdMap.{find, erase}
use rocketmq_proxy.StdMap.Values.{AllValues, find-AllValues, insert-AllValues, erase-AllValues}
use rocketmq_proxy.Message.{MqMessageExt, MsgUnit, ConsumeStatus}
use rocketmq_proxy.Locker.{ConsumerUnitLocker, get_msg, release, is_done, new}
use rocketmq_proxy.Locker.Trigger.{all_acked}
use rocketmq_proxy.Locker.History.{Event, step, acks, releases, fetches, after_fetch}
use rocketmq_proxy.Locker.Invariant.{IsValid, new-IsValid, step-IsValid}
use rocketmq_proxy.Consumer.Routing.{each, set_msg_ack_lem}
use rocketmq_proxy.Consumer.{
  Lockers, ConsumerUnit, set_msg_ack, unlock_lockers, unlock_all, fetch_lockers, fetch, wait_lock,
  leave,
}

-- What happens to a consumer: a broker's callback brings a batch of messages, with the addresses
-- of the new objects; the matcher takes a message; a message id is acknowledged with a status; the
-- consumer is shut down; and a callback leaves, if its batch is done.
pub data UnitEvent : Type 0 where
  arrives : ℕ → ℕ → Bytes → List (ℕ × MqMessageExt) → UnitEvent
  takes unlocks : UnitEvent
  acknowledges : Bytes → ConsumeStatus → UnitEvent
  leaves : ℕ → UnitEvent

abbrev pub unit_after : {A : Type 0} → ConsumerUnit → Option (A × ConsumerUnit) → ConsumerUnit
unit_after u none = u
unit_after u (some (x, u')) = u'

unfoldable pub unit_step : ConsumerUnit → UnitEvent → ConsumerUnit
unit_step u (arrives a now group msgs) = wait_lock a (new now group msgs) u
unit_step u takes = unit_after u (fetch u)
unit_step u unlocks = unlock_all u
unit_step u (acknowledges id s) = (set_msg_ack id s u).1
unit_step u (leaves a) = unit_after u (leave a u)

unfoldable pub unit_run : ConsumerUnit → List UnitEvent → ConsumerUnit
unit_run u [] = u
unit_run u (e ∷ es) = unit_run (unit_step u e) es

unlock_lockers_lem : (ls : Lockers) → unlock_lockers ls ≡ each (λ l. step l releases) ls
unfolding unlock_lockers step
unlock_lockers_lem [] = refl
unlock_lockers_lem ((a, l) ∷ ls) = ap (◌∷◌ (a, release l)) (unlock_lockers_lem ls)

-- What every event of a batch keeps, every event of a consumer keeps for all of its batches, if the
-- batches that come have it.
module _ (P : ConsumerUnitLocker → Type 0) where
  abbrev pub Every : Lockers → Type 0
  Every = AllValues P

  abbrev pub Brings : UnitEvent → Type 0
  Brings (arrives a now group msgs) = P (new now group msgs)
  Brings _ = Unit

  each-Every :
      (f : ConsumerUnitLocker → ConsumerUnitLocker) (ls : Lockers)
      → ((l : ConsumerUnitLocker) → P l → P (f l))
      → Every ls
      → Every (each f ls)
  each-Every f [] keep v = tt
  each-Every f ((a, l) ∷ ls) keep v = (keep l v.0, each-Every f ls keep v.1)

  abbrev Every? : Option (Option MsgUnit × Lockers) → Type 0
  Every? none = Unit {0}
  Every? (some (m, ls)) = Every ls

  module _ (keep : (l : ConsumerUnitLocker) (e : Event) → P l → P (step l e)) where
    fetched-Every : (ls : Lockers) → Every ls → Every? (fetch_lockers ls)
    unfolding fetch_lockers step
    fetched-Every [] v = tt
    fetched-Every ((a, l) ∷ rest) v = elim (Option-cases (get_msg l)) [
      | inr ((p, l'), g) ↦
          let v' : P (after_fetch l (get_msg l)) = keep l fetches v.0 in
          rw (g, fetch_lockers) (rw g at v', v.1)
      | inl g ↦ rw (g, fetch_lockers) (by_rest (fetch_lockers rest) (fetched-Every rest v.1))
    ]
      where
        by_rest :
            (r : Option (Option MsgUnit × Lockers))
            → Every? r
            → Every? (elim r [ none ↦ none | some (m, rest') ↦ some (m, (a, l) ∷ rest') ])
        by_rest none h = tt
        by_rest (some (m, ls)) h = (v.0, h)

    pub unit_step-Every :
        (u : ConsumerUnit) (e : UnitEvent)
        → Brings e
        → Every u.lockers
        → Every (unit_step u e).lockers
    unfolding unit_step wait_lock fetch unlock_all leave
    unit_step-Every u (arrives a now group msgs) brought vs =
        insert-AllValues P a (new now group msgs) u.lockers brought vs
    unit_step-Every u takes brought vs =
        by_outcome (fetch_lockers u.lockers) (fetched-Every u.lockers vs)
      where
        by_outcome :
            (r : Option (Option MsgUnit × Lockers))
            → Every? r
            → Every
                (unit_after u (elim r [
                  | none ↦ none
                  | some (m, ls) ↦ some (m, record u { lockers = ls })
                ])).lockers
        by_outcome none h = vs
        by_outcome (some (m, ls)) h = h
    unit_step-Every u unlocks brought vs =
        rw (unlock_lockers_lem u.lockers) (each-Every _ u.lockers (λ l. keep l releases) vs)
    unit_step-Every u (acknowledges id s) brought vs =
        subst (λ r. Every r.1.lockers) (sym (set_msg_ack_lem id s u))
          (each-Every _ u.lockers (λ l. keep l (acks id s)) vs)
    unit_step-Every u (leaves a) brought vs = by_found (find a u.lockers)
      where
        by_found :
            (r : Option ConsumerUnitLocker)
            → Every
                (unit_after u (elim r [
                  | none ↦ none
                  | some l ↦
                      if is_done l then some (l, record u { lockers = erase a u.lockers }) else none
                ])).lockers
        by_found none = vs
        by_found (some l) = elim (Bool-cases (is_done l)) [
          | inl e ↦ rw e (erase-AllValues P a u.lockers vs)
          | inr e ↦ rw e vs
        ]

abbrev pub AllValid : Lockers → Type 0
AllValid = Every IsValid

abbrev pub UnitIsValid : ConsumerUnit → Type 0
UnitIsValid u = AllValid u.lockers

new-Brings : (e : UnitEvent) → Brings IsValid e
new-Brings (arrives a now group msgs) = new-IsValid now group msgs
new-Brings takes = tt
new-Brings unlocks = tt
new-Brings (acknowledges id s) = tt
new-Brings (leaves a) = tt

pub unit_step-AllValid :
    (u : ConsumerUnit) (e : UnitEvent) → AllValid u.lockers → AllValid (unit_step u e).lockers
unit_step-AllValid u e vs = unit_step-Every IsValid step-IsValid u e (new-Brings e) vs

pub unit_run-AllValid :
    (u : ConsumerUnit) (es : List UnitEvent) → AllValid u.lockers → AllValid (unit_run u es).lockers
unfolding unit_run
unit_run-AllValid u [] vs = vs
unit_run-AllValid u (e ∷ es) vs = unit_run-AllValid (unit_step u e) es (unit_step-AllValid u e vs)

-- A callback that leaves a consumer whose batches are valid.
pub leave-AllValid :
    (u : ConsumerUnit) (a : ℕ) (l : ConsumerUnitLocker) (u' : ConsumerUnit)
    → AllValid u.lockers
    → leave a u ≡ some (l, u')
    → (is_done l ≡ true) × (all_acked l.client_status_map ≡ true)
unfolding leave
leave-AllValid u a l u' valid e = elim (Option-cases (find a u.lockers)) [
  | inl missing ↦ absurd (ground (arith, missing))
  | inr (m, found) ↦
      let v = find-AllValues IsValid a m _ valid found in
      let same_locker : m ≡ l = ground (arith, found) in
      let ended : is_done m ≡ true = ground (arith, found) in
      subst (λ x. (is_done x ≡ true) × (all_acked x.client_status_map ≡ true)) same_locker
        (ended, v.safe ended)
]

-- A consumer that began without batches, after any batches have come and any messages have been
-- taken, acknowledged, given up or waited out, in any order: a callback that leaves returns to the
-- broker with a batch whose messages are all acknowledged.
pub leave-all_acked :
    (u : ConsumerUnit) (es : List UnitEvent) (a : ℕ) (l : ConsumerUnitLocker) (u' : ConsumerUnit)
    → u.lockers ≡ []
    → leave a (unit_run u es) ≡ some (l, u')
    → (is_done l ≡ true) × (all_acked l.client_status_map ≡ true)
leave-all_acked u es a l u' none_yet e =
    leave-AllValid (unit_run u es) a l u' (unit_run-AllValid u es (rw none_yet tt)) e
