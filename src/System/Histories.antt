-- ===== src/System/Histories.antt =====
-- The steps of the server and its histories, by the rules of System/Keeps.
use rocketmq_proxy.Prelude.{
  ℕ, Bool, true, false, List, [], ◌∷◌, Option, none, some, Bytes, nat_less, bytes_less, All,
}
use rocketmq_proxy.Message.{MqMessageExt}
use rocketmq_proxy.Locker.{ConsumerUnitLocker, new}
use rocketmq_proxy.Consumer.{ConsumerUnit, leave}
use rocketmq_proxy.Consumer.History.{
  unit_step, unit_step-Every, unlocks, leaves, unit_after, leave-AllValid,
}
use rocketmq_proxy.Consumer.History
use rocketmq_proxy.Broker.{Broker}
use rocketmq_proxy.World.{pure, ◌>>◌}
use rocketmq_proxy.Worker.{set_consumer_unit}
use rocketmq_proxy.Calls.{RequestType, request_produce, request_consume, request_consume_ack}
use rocketmq_proxy.Server.{handle, handle_rpcs, handle_events}
use rocketmq_proxy.System.{
  Step, receives_produce, receives_consume, receives_ack, history, handles, matches, arrives,
  departs, succeeds, fails, gives_up, erases, passes, step, steps, arrive, depart, give_up,
}
use rocketmq_proxy.System.Keeps.{
  Keeps, keeps, Keeps-unit, Keeps-bind, Keeps-read, Keeps-pure, Keeps-set_consumer_unit,
}
use rocketmq_proxy.System.Sends.{
  produce-proceed-Keeps, produce-cancel-Keeps, new-Keeps, receive_produce-Keeps, on_success-Keeps,
  on_failure-Keeps,
}
use rocketmq_proxy.System.Matches.{match_round-Keeps}
use rocketmq_proxy.System.Requests.{
  consume-proceed-Keeps, consume-cancel-Keeps, ack-proceed-Keeps, ack-cancel-Keeps,
  consume-new-Keeps, ack-new-Keeps, receive_consume-Keeps, receive_ack-Keeps,
}
use rocketmq_proxy.System.Lasting.{Lasting, UnitHolds}

handle-Keeps :
    {L : Lasting}
    → (b : Broker) (type : RequestType) (a : ℕ) (went_well : Bool)
    → Keeps L (handle b (record { type_ = type; address = a }) went_well)
unfolding handle
handle-Keeps b request_produce a true = produce-proceed-Keeps b a
handle-Keeps b request_produce a false = produce-cancel-Keeps a
handle-Keeps b request_consume a true = consume-proceed-Keeps a
handle-Keeps b request_consume a false = consume-cancel-Keeps b a
handle-Keeps b request_consume_ack a true = ack-proceed-Keeps b a
handle-Keeps b request_consume_ack a false = ack-cancel-Keeps a

-- A batch that comes is valid, at whatever time it comes.
abbrev pub Brought : Lasting → Step → Type 0
Brought L (arrives k a group msgs) = (now : ℕ) → L.Valid (new now group msgs)
Brought L _ = Unit

arrive-Keeps :
    {L : Lasting}
    → (k a : ℕ) (group : Bytes) (msgs : List (ℕ × MqMessageExt))
    → Brought L (arrives k a group msgs)
    → Keeps L (arrive k a group msgs)
unfolding arrive unit_step
arrive-Keeps {L = L} k a group msgs brought = Keeps-unit k _ (λ u valid.
    Keeps-bind _ _ (Keeps-read _) (λ now. Keeps-set_consumer_unit k _ (
      unit_step-Every L.Valid L.step-Valid u (History.arrives a now group msgs) (brought now)
        valid)))

depart-Keeps : {L : Lasting} → (k a : ℕ) → Keeps L (depart k a)
unfolding depart leave unit_step
depart-Keeps {L = L} k a = Keeps-unit k _ (λ u valid.
    by_outcome u (leave a u) (unit_step-Every L.Valid L.step-Valid u (leaves a) tt valid))
  where
    by_outcome :
        (u : ConsumerUnit) (r : Option (ConsumerUnitLocker × ConsumerUnit))
        → UnitHolds L (unit_after u r)
        → Keeps L {A = Option ConsumerUnitLocker} (elim r [
          | none ↦ pure none
          | some (l, u') ↦ (do set_consumer_unit k u'; pure (some l))
        ])
    by_outcome u none valid = Keeps-pure none
    by_outcome u (some (l, u')) valid =
        Keeps-bind _ _ (Keeps-set_consumer_unit k u' valid) (λ _. Keeps-pure (some l))

give_up-Keeps : {L : Lasting} → (k : ℕ) → Keeps L (give_up k)
unfolding give_up unit_step
give_up-Keeps {L = L} k = Keeps-unit k _ (λ u valid.
    Keeps-set_consumer_unit k _ (unit_step-Every L.Valid L.step-Valid u unlocks tt valid))

step-Keeps : {L : Lasting} → (b : Broker) (s : Step) → Brought L s → Keeps L (step b s)
unfolding step
step-Keeps b (receives_produce a r) brought = receive_produce-Keeps a r
step-Keeps b (receives_consume a r) brought = receive_consume-Keeps a r
step-Keeps b (receives_ack a r) brought = receive_ack-Keeps a r
step-Keeps b (handles tag went_well) brought = handle-Keeps b tag.type_ tag.address went_well
step-Keeps b matches brought = search (keeps, match_round-Keeps)
step-Keeps b (arrives k a group msgs) brought = arrive-Keeps k a group msgs brought
step-Keeps b (departs k a) brought = search (keeps, depart-Keeps)
step-Keeps b (succeeds a id) brought = on_success-Keeps a id
step-Keeps b (fails a text) brought = on_failure-Keeps b a text
step-Keeps b (gives_up k) brought = give_up-Keeps k
step-Keeps b (erases key) brought = search keeps
step-Keeps b (passes n) brought = search keeps

steps-Keeps :
    {L : Lasting} → (b : Broker) (ss : List Step) → All (Brought L) ss → Keeps L (steps b ss)
unfolding steps
steps-Keeps b [] brought = Keeps-pure tt
steps-Keeps b (s ∷ ss) brought =
    Keeps-bind _ _ (step-Keeps b s brought.0) (λ _. steps-Keeps b ss brought.1)

-- What holds at the start holds after every history in which all batches that come are valid.
pub history-Keeps :
    {L : Lasting} → (b : Broker) (ss : List Step) → All (Brought L) ss → Keeps L (history b ss)
unfolding history handle_rpcs handle_events
history-Keeps b ss brought =
    search (keeps, new-Keeps, consume-new-Keeps, ack-new-Keeps, steps-Keeps, brought) depth 12
