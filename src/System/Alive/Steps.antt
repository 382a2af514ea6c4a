-- ===== src/System/Alive/Steps.antt =====
-- Every step that the contract allows keeps the invariant.
use mathlib.Core.Path.{subst}
use rocketmq_proxy.Prelude.{
  All-get, ℕ, ◌+◌, ◌<◌, Bool, true, false, List, ◌∷◌, none, some, Bytes, nat_less, bytes_less,
  length, arith, ◌≡◌, refl, inl, inr, get_elem?-lt, Option-cases,
}
use rocketmq_proxy.StdMap.Values.{erase-AllValues}
use rocketmq_proxy.MapTs
use rocketmq_proxy.Message.{MqMessageExt}
use rocketmq_proxy.Consumer.{ConsumerUnit, leave}
use rocketmq_proxy.Consumer.History.{
  unit_step, unit_step-AllValid, unlocks, leaves, unit_after, UnitIsValid,
}
use rocketmq_proxy.Consumer.History
use rocketmq_proxy.Broker.{Broker}
use rocketmq_proxy.World.{World}
use rocketmq_proxy.Calls.{RequestType, request_produce, request_consume, request_consume_ack}
use rocketmq_proxy.Server.{handle}
use rocketmq_proxy.System.{
  Step, receives_produce, receives_consume, receives_ack, handles, matches, arrives, departs,
  succeeds, fails, gives_up, erases, passes, step, arrive, depart, give_up,
}
use rocketmq_proxy.System.Contract
use rocketmq_proxy.System.Contract.{Allowed, MayCome}
use rocketmq_proxy.System.Alive.Quiet.{
  Hidden, hidden, with_hidden, IsSound, Starts, with_unit, with_unit-IsSound,
}
use rocketmq_proxy.System.Alive.Invariant.{
  IsAlive, with_hidden-IsAlive, past-IsAlive, Runs, Runs-ran, Leaves,
}
use rocketmq_proxy.System.Alive.AckEvents
use rocketmq_proxy.System.Alive.ConsumeEvents
use rocketmq_proxy.System.Alive.MatchRounds.{match_round-Runs}
use rocketmq_proxy.System.Alive.Callbacks

-- An event that is allowed finds its call object.
handle-Runs :
    (past : List Step) (w : World) (b : Broker) (t : RequestType) (a : ℕ) (went_well : Bool)
    → Starts b
    → MayCome t a went_well past w
    → IsAlive past w
    → Runs
        (handle b (record { type_ = t; address = a }) went_well)
        w
        (Leaves (IsAlive (handles (record { type_ = t; address = a }) went_well ∷ past)))
unfolding handle
handle-Runs past w b request_produce a true starts may v =
    Callbacks.proceed-Runs past w a v b starts may
handle-Runs past w b request_produce a false starts may v = Callbacks.cancel-Runs past w a v may
handle-Runs past w b request_consume a true starts may v = ConsumeEvents.proceed-Runs past w a v may
handle-Runs past w b request_consume a false starts may v =
    ConsumeEvents.cancel-Runs past w a v b starts may
handle-Runs past w b request_consume_ack a true starts may v =
    AckEvents.proceed-Runs past w a v b starts may
handle-Runs past w b request_consume_ack a false starts may v = AckEvents.cancel-Runs past w a v may

module _ (past : List Step) (w : World) (v : IsAlive past w) where
  -- The unit of a consumer is replaced, in a step that is no event.
  with_unit-IsAlive :
      (s : Step) (k : ℕ) (u : ConsumerUnit)
      → ((t : RequestType) (a : ℕ) → Contract.handled t a s ≡ 0)
      → ((a : ℕ) → Contract.answered a s ≡ 0)
      → UnitIsValid u
      → IsAlive (s ∷ past) (with_hidden w (with_unit (hidden w) k u))
  with_unit-IsAlive s k u no_event no_answer valid =
      let h = with_unit (hidden w) k u in
      past-IsAlive past (with_hidden w h) s no_event no_answer
        (with_hidden-IsAlive past w h (with_unit-IsSound (hidden w) k u valid v.sound) v)

  arrive-Runs :
      (k a : ℕ) (group : Bytes) (msgs : List (ℕ × MqMessageExt))
      → k < length w.consumer_units
      → Runs (arrive k a group msgs) w (Leaves (IsAlive (arrives k a group msgs ∷ past)))
  unfolding arrive unit_step
  arrive-Runs k a group msgs there =
      let (u, at_k) = get_elem?-lt w.consumer_units k there in
      let u' = unit_step u (History.arrives a w.now group msgs) in
      Runs-ran _ w (with_hidden w (with_unit (hidden w) k u')) tt _ (ground (arith, at_k)) (
        with_unit-IsAlive (arrives k a group msgs) k u' (λ t i. refl) (λ i. refl)
          (unit_step-AllValid u (History.arrives a w.now group msgs)
            (All-get UnitIsValid w.consumer_units k u v.sound.batches at_k)))

  depart-Runs :
      (k a : ℕ)
      → k < length w.consumer_units
      → Runs (depart k a) w (λ _ w'. IsAlive (departs k a ∷ past) w')
  unfolding depart unit_step
  depart-Runs k a there =
      let (u, at_k) = get_elem?-lt w.consumer_units k there in
      let valid = All-get UnitIsValid w.consumer_units k u v.sound.batches at_k in
      elim (Option-cases (leave a u)) [
        | inl waits ↦
            Runs-ran _ w w none _ (ground (arith, at_k, waits))
              (past-IsAlive past w (departs k a) (λ t i. refl) (λ i. refl) v)
        | inr ((l, u'), left) ↦
            let valid' : UnitIsValid u' =
              subst (λ r. UnitIsValid (unit_after u r)) left
                (unit_step-AllValid u (leaves a) valid) in
            Runs-ran _ w (with_hidden w (with_unit (hidden w) k u')) (some l) _
              (ground (arith, at_k, left))
              (with_unit-IsAlive (departs k a) k u' (λ t i. refl) (λ i. refl) valid')
      ]

  give_up-Runs :
      (k : ℕ)
      → k < length w.consumer_units
      → Runs (give_up k) w (Leaves (IsAlive (gives_up k ∷ past)))
  unfolding give_up unit_step
  give_up-Runs k there =
      let (u, at_k) = get_elem?-lt w.consumer_units k there in
      let u' = unit_step u unlocks in
      Runs-ran _ w (with_hidden w (with_unit (hidden w) k u')) tt _ (ground (arith, at_k)) (
        with_unit-IsAlive (gives_up k) k u' (λ t i. refl) (λ i. refl)
          (unit_step-AllValid u unlocks
            (All-get UnitIsValid w.consumer_units k u v.sound.batches at_k)))

  erases-IsSound :
      (key : Bytes) → IsSound (record (hidden w) { consumers = MapTs.erase w.consumers key })
  unfolding MapTs.erase
  erases-IsSound key = record {
    batches = v.sound.batches;
    known = erase-AllValues _ key w.consumers.the_map v.sound.known;
  }

-- A step that the contract allows does not fault, and keeps the invariant.
pub step-Runs :
    (past : List Step) (w : World) (b : Broker) (s : Step)
    → Starts b
    → Allowed past w s
    → IsAlive past w
    → Runs (step b s) w (Leaves (IsAlive (s ∷ past)))
unfolding step
step-Runs past w b (receives_produce a r) starts ok_now v =
    Callbacks.receive_produce-Runs past w a v r ok_now
step-Runs past w b (receives_consume a r) starts ok_now v =
    ConsumeEvents.receive_consume-Runs past w a v r ok_now
step-Runs past w b (receives_ack a r) starts ok_now v =
    AckEvents.receive_ack-Runs past w a v r ok_now
step-Runs past w b (handles tag went_well) starts ok_now v =
    handle-Runs past w b tag.type_ tag.address went_well starts ok_now v
step-Runs past w b matches starts ok_now v =
    let done = match_round-Runs past w b starts v in
    Runs-ran _ w done.state tt _ (ground (arith, done.ran))
      (past-IsAlive past done.state matches (λ t i. refl) (λ i. refl) done.holds)
step-Runs past w b (arrives k a group msgs) starts ok_now v =
    arrive-Runs past w v k a group msgs ok_now
step-Runs past w b (departs k a) starts ok_now v =
    let done = depart-Runs past w v k a ok_now in
    Runs-ran _ w done.state tt _ (ground (arith, done.ran)) done.holds
step-Runs past w b (succeeds a id) starts ok_now v = Callbacks.on_success-Runs past w a v id ok_now
step-Runs past w b (fails a text) starts ok_now v =
    Callbacks.on_failure-Runs past w a v b text starts ok_now
step-Runs past w b (gives_up k) starts ok_now v = give_up-Runs past w v k ok_now
step-Runs past w b (erases key) starts ok_now v =
    let h : Hidden = record (hidden w) { consumers = MapTs.erase w.consumers key } in
    Runs-ran _ w (with_hidden w h) tt _ refl (
      past-IsAlive past (with_hidden w h) (erases key) (λ t i. refl) (λ i. refl)
        (with_hidden-IsAlive past w h (erases-IsSound past w v key) v))
step-Runs past w b (passes n) starts ok_now v =
    Runs-ran _ w (record w { now = w.now + n }) tt _ refl
      (past-IsAlive past (record w { now = w.now + n }) (passes n) (λ t i. refl) (λ i. refl)
        (record {
          produces = v.produces;
          consumes = v.consumes;
          acks = v.acks;
          in_range = v.in_range;
          settled = v.settled;
          sound = v.sound;
        }))
