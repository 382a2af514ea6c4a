-- ===== src/Consumer/Released.antt =====
-- A consumer that is given up: no callback waits any longer.
use rocketmq_proxy.Prelude.{true, List, [], ◌∷◌, nat_less, bytes_less, arith, ◌≡◌, All, inr}
use rocketmq_proxy.Locker.{ConsumerUnitLocker, release, release_loop, is_done}
use rocketmq_proxy.Locker.Invariant.{IsValid, release_loop-IsValid, trigger_check_valid}
use rocketmq_proxy.Locker.Acked.{all_acked_of_find}
use rocketmq_proxy.Consumer.{ConsumerUnit, Lockers, unlock_lockers, unlock_all}
use rocketmq_proxy.Consumer.Report.{release_loop_acked}
use rocketmq_proxy.Consumer.History.{UnitEvent, unit_run, AllValid, unit_run-AllValid}

release_done : (l : ConsumerUnitLocker) → IsValid l → is_done (release l) ≡ true
unfolding release
release_done l v =
    let es = l.client_status_map in
    let v' = release_loop-IsValid es l v in
    let acked = all_acked_of_find _ v'.ordered (release_loop_acked es l (λ p c e. inr e)) in
    ground (arith, trigger_check_valid true (release_loop es l) v', acked)

pub unlock_lockers_done :
    (ls : Lockers) → AllValid ls → All (λ e. is_done e.1 ≡ true) (unlock_lockers ls)
unfolding unlock_lockers
unlock_lockers_done [] vs = tt
unlock_lockers_done ((a, l) ∷ ls) vs = (release_done l vs.0, unlock_lockers_done ls vs.1)

-- A consumer that began without batches, after any events: `unlockAll` ends the wait of every
-- batch that there is, fetched and acknowledged or not.
pub unlock_all_ends :
    (u : ConsumerUnit) (es : List UnitEvent)
    → u.lockers ≡ []
    → All (λ e. is_done e.1 ≡ true) (unlock_all (unit_run u es)).lockers
unfolding unlock_all
unlock_all_ends u es none_yet =
    unlock_lockers_done (unit_run u es).lockers (unit_run-AllValid u es (rw none_yet tt))
