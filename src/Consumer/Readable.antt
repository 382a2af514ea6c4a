-- ===== src/Consumer/Readable.antt =====
-- No pointer that a fetch yields dangles.
use mathlib.Core.Path.{subst}
use rocketmq_proxy.Prelude.{
  ℕ, true, [], ◌∷◌, Option, none, some, nat_less, is_some, arith, ◌≡◌, Option-cases, inl, inr,
}
use rocketmq_proxy.StdMap.{find}
use rocketmq_proxy.Message.{MsgUnit}
use rocketmq_proxy.Locker.{ConsumerUnitLocker, get_msg, take_front}
use rocketmq_proxy.Locker.Invariant.{IsValid}
use rocketmq_proxy.Consumer.{Lockers, ConsumerUnit, fetch, fetch_lockers}
use rocketmq_proxy.Consumer.History.{AllValid, unit_after, unit_step, unit_step-AllValid, takes}

get_msg_reads :
    (l l' : ConsumerUnitLocker) (p : ℕ)
    → IsValid l
    → get_msg l ≡ some (p, l')
    → is_some (find p l'.heap) ≡ true
unfolding get_msg take_front
get_msg_reads l l' p v e = ground (arith, v.readable)

abbrev Reads : {A : Type 0} → Option (Option MsgUnit × A) → Type 0
Reads none = Unit
Reads (some (o, r)) = is_some o ≡ true

fetch_lockers-Reads : (ls : Lockers) → AllValid ls → Reads (fetch_lockers ls)
unfolding fetch_lockers
fetch_lockers-Reads [] v = tt
fetch_lockers-Reads ((a, l) ∷ rest) v = elim (Option-cases (get_msg l)) [
  | inr ((p, l'), g) ↦ rw (g, fetch_lockers) (get_msg_reads l l' p v.0 g)
  | inl g ↦ rw (g, fetch_lockers) (by_rest (fetch_lockers rest) (fetch_lockers-Reads rest v.1))
]
  where
    by_rest :
        (r : Option (Option MsgUnit × Lockers))
        → Reads r
        → Reads {A = Lockers} (elim r [ none ↦ none | some (m, rest') ↦ some (m, (a, l) ∷ rest') ])
    by_rest none h = tt
    by_rest (some (m, ls)) h = h

-- A fetch from a consumer whose batches are valid finds nothing, or a message.
pub fetch-Reads :
    (u u' : ConsumerUnit) (o : Option MsgUnit)
    → AllValid u.lockers
    → fetch u ≡ some (o, u')
    → (msg : MsgUnit) × (o ≡ some msg)
unfolding fetch
fetch-Reads u u' o v e = elim (Option-cases o) [
  | inr there ↦ there
  | inl missing ↦
      let there : is_some o ≡ true =
        by_found (fetch_lockers u.lockers) (fetch_lockers-Reads u.lockers v) e in
      absurd (ground (arith, missing))
]
  where
    by_found :
        (r : Option (Option MsgUnit × Lockers))
        → Reads r
        → ◌≡◌ {A = Option (Option MsgUnit × ConsumerUnit)}
            (elim r [ none ↦ none | some (m, ls) ↦ some (m, record u { lockers = ls }) ])
            (some (o, u'))
        → is_some o ≡ true
    by_found none h e' = absurd (cc)
    by_found (some (m, ls)) h e' = ground arith

-- It leaves the batches valid.
pub fetch-AllValid :
    (u u' : ConsumerUnit) (o : Option MsgUnit)
    → AllValid u.lockers
    → fetch u ≡ some (o, u')
    → AllValid u'.lockers
unfolding unit_step
fetch-AllValid u u' o v e =
    subst (λ r. AllValid (unit_after u r).lockers) e (unit_step-AllValid u takes v)
