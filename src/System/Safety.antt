-- ===== src/System/Safety.antt =====
-- What holds in every history of the server.
use rocketmq_proxy.Prelude.{
  ℕ, true, All-get, List, [], ◌∷◌, some, nat_less, bytes_less, get_elem?, arith, ◌≡◌, Option-cases,
  inl, inr, All, get_elem?-set_self,
}
use mathlib.Core.Path.{subst}
use rocketmq_proxy.Locker.{ConsumerUnitLocker, is_done}
use rocketmq_proxy.Locker.Trigger.{all_acked}
use rocketmq_proxy.Consumer.{ConsumerUnit, leave, unlock_all}
use rocketmq_proxy.Consumer.History.{UnitIsValid, leave-AllValid}
use rocketmq_proxy.Consumer.Released.{unlock_lockers_done}
use rocketmq_proxy.Broker.{Broker}
use rocketmq_proxy.World.{World, ok, Action}
use rocketmq_proxy.System.{
  Step, receives_produce, receives_consume, receives_ack, history, handles, matches, arrives,
  departs, succeeds, fails, gives_up, erases, passes, depart, give_up,
}
use rocketmq_proxy.System.Lasting.{Lasting, ValidAfter}
use rocketmq_proxy.System.Histories.{Brought, history-Keeps}
use rocketmq_proxy.Locker.Invariant.{IsValid, new-IsValid, step-IsValid}

-- Every batch is valid, and nothing is asked of the actions.
abbrev sound : Lasting
sound = record {
  Valid = IsValid;
  Right = λ x. Unit;
  step-Valid = step-IsValid;
  handed-Right = λ l p msg a v e. tt;
  plain-Right = λ x plain. tt;
}

any_actions : (xs : List Action) → All sound.Right xs
any_actions [] = tt
any_actions (x ∷ xs) = (tt, any_actions xs)

step-Brought : (s : Step) → Brought sound s
step-Brought (arrives k a group msgs) = λ now. new-IsValid now group msgs
step-Brought (receives_produce a r) = tt
step-Brought (receives_consume a r) = tt
step-Brought (receives_ack a r) = tt
step-Brought (handles tag went_well) = tt
step-Brought matches = tt
step-Brought (departs k a) = tt
step-Brought (succeeds a id) = tt
step-Brought (fails a text) = tt
step-Brought (gives_up k) = tt
step-Brought (erases key) = tt
step-Brought (passes n) = tt

steps-Brought : (ss : List Step) → All (Brought sound) ss
steps-Brought [] = tt
steps-Brought (s ∷ ss) = (step-Brought s, steps-Brought ss)

history-UnitIsValid :
    (b : Broker) (w w' : World) (ss : List Step)
    → w.consumer_units ≡ []
    → history b ss w ≡ ok (tt, w')
    → All UnitIsValid w'.consumer_units
history-UnitIsValid b w w' ss none_yet went =
    let kept : ValidAfter sound (history b ss w) =
      (history-Keeps {L = sound} b ss (steps-Brought ss)).after w
        (rw none_yet (tt, any_actions w.actions)) in
    (subst (ValidAfter sound) went kept).0

-- A server that starts without consumers, after any steps of its threads, of the broker's callbacks
-- and of the answers to sends, in any order and for any clients: if the process has not ended, each
-- callback that returns to the broker does so with a batch whose messages are all acknowledged.
pub departs-all_acked :
    (b : Broker) (w w' w'' : World) (ss : List Step) (k a : ℕ) (l : ConsumerUnitLocker)
    → w.consumer_units ≡ []
    → history b ss w ≡ ok (tt, w')
    → depart k a w' ≡ ok (some l, w'')
    → (is_done l ≡ true) × (all_acked l.client_status_map ≡ true)
unfolding depart
departs-all_acked b w w' w'' ss k a l none_yet went left =
    let valid = history-UnitIsValid b w w' ss none_yet went in
    elim (Option-cases (get_elem? w'.consumer_units k)) [
      | inl missing ↦ absurd (ground (arith, missing))
      | inr (u, at_k) ↦ elim (Option-cases (leave a u)) [
        | inl waits ↦ absurd (ground (arith, at_k, waits))
        | inr ((m, u'), leaves_now) ↦
            let same_batch : m ≡ l = ground (arith, at_k, leaves_now) in
            subst (λ x. (is_done x ≡ true) × (all_acked x.client_status_map ≡ true)) same_batch
              (leave-AllValid u a m u' (All-get UnitIsValid w'.consumer_units k u valid at_k)
                leaves_now)
      ]
    ]

-- A server that starts without consumers, after any steps in any order: once the batches of a
-- consumer are given up, each of them, fetched and acknowledged or not, lets its callback return.
pub give_up_frees :
    (b : Broker) (w w' w'' : World) (ss : List Step) (k : ℕ) (u : ConsumerUnit)
    → w.consumer_units ≡ []
    → history b ss w ≡ ok (tt, w')
    → give_up k w' ≡ ok (tt, w'')
    → get_elem? w''.consumer_units k ≡ some u
    → All (λ e. is_done e.1 ≡ true) u.lockers
unfolding give_up unlock_all
give_up_frees b w w' w'' ss k u none_yet went given at_k' =
    let valid = history-UnitIsValid b w w' ss none_yet went in
    elim (Option-cases (get_elem? w'.consumer_units k)) [
      | inl missing ↦ absurd (ground (arith, missing))
      | inr (old, at_k) ↦
          let freed : All (λ e. is_done e.1 ≡ true) (unlock_all old).lockers =
            unlock_lockers_done old.lockers
              (All-get UnitIsValid w'.consumer_units k old valid at_k) in
          let same_unit : unlock_all old ≡ u =
            ground
              (arith, at_k, get_elem?-set_self w'.consumer_units k (unlock_all old) old at_k) in
          subst (λ x. All (λ e. is_done e.1 ≡ true) x.lockers) same_unit freed
    ]
