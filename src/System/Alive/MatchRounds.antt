-- ===== src/System/Alive/MatchRounds.antt =====
-- A round of the matcher finds the call objects that it answers.
use rocketmq_proxy.Prelude.{
  All-get, ℕ, ◌<◌, true, false, List, [], ◌∷◌, some, bytes_less, length, get_elem?, arith, ap, ◌≡◌,
  refl, inl, inr, if◌then◌else◌, get_elem?-lt, Bool-cases, Option-cases,
}
use rocketmq_proxy.QueueTs
use rocketmq_proxy.QueueTs.{QueueTs}
use rocketmq_proxy.Message.{MsgWorkerConsumeStatus, proxy_consume_init, client_receive, consume_ack}
use rocketmq_proxy.Consumer.{fetch}
use rocketmq_proxy.Consumer.Readable.{fetch-Reads, fetch-AllValid}
use rocketmq_proxy.Broker.{Broker}
use rocketmq_proxy.World.{
  World, M, read, ◌>>=◌, ◌>>◌, ConsumeMsgUnit, is_init, get_is_fetch_msg_timeout,
  get_is_ack_timeout,
}
use rocketmq_proxy.Worker.{get_consumer, reset_consumer_active}
use rocketmq_proxy.Calls.{response_time_out}
use rocketmq_proxy.Matcher.{
  get_unit, fetch_and_consume, requeue, match_init, match_receive, match_by, match_unit,
  match_round,
}
use rocketmq_proxy.System.{Step}
use rocketmq_proxy.Consumer.History.{UnitIsValid}
use rocketmq_proxy.System.Alive.Quiet.{
  hidden, with_hidden, Starts, Finds, Nothing, get_consumer-Quiet, reset_consumer_active-Quiet,
  reconsume-Quiet, with_unit, with_unit-IsSound,
}
use rocketmq_proxy.System.Alive.Invariant.{IsAlive, Runs, Runs-ran, Runs-bind, Quiet-bind, Leaves}
use rocketmq_proxy.System.Alive.Matches.{
  IsHeld, with_hidden-IsHeld, popped-IsHeld, requeue-Runs, dropped-IsAlive, settled_waits,
}
use rocketmq_proxy.System.Alive.Answers.{response_time_out-Runs, deliver-Runs}

-- The unit is held between the operations on it.
abbrev Holds : List Step → ℕ → Unit {0} → World → Type 0
Holds past p x w = IsHeld past w p

module _ (past : List Step) (p k : ℕ) where
  -- The end of `match_init`, for the unit as it is then.
  abbrev end_init : ConsumeMsgUnit → M (Unit {0})
  end_init unit = do
    timed_out ← read (λ w. get_is_fetch_msg_timeout w.now unit)
    if timed_out
        then (do reset_consumer_active unit.topic unit.group; response_time_out unit.call_data)
        else requeue p

  end_init-Runs :
      (w : World) (unit : ConsumeMsgUnit)
      → get_elem? w.consume_msg_units p ≡ some unit
      → IsHeld past w p
      → Runs (end_init unit) w (Leaves (IsAlive past))
  end_init-Runs w unit at_p v = elim (Bool-cases (get_is_fetch_msg_timeout w.now unit)) [
    | inr patient ↦
        let rest = requeue-Runs past w p v in
        Runs-ran _ w rest.state tt _ (ground (arith, patient, rest.ran)) rest.holds
    | inl late ↦
        let yet : is_init unit.status ≡ true =
          unfold get_is_fetch_msg_timeout in ground (arith, late) in
        let rest =
          Quiet-bind (reset_consumer_active unit.topic unit.group)
            (λ _. response_time_out unit.call_data) w Nothing (Leaves (IsAlive past))
            (reset_consumer_active-Quiet w v.sound unit.topic unit.group)
            (λ _ h sound _.
              response_time_out-Runs past (with_hidden w h) p unit at_p yet
                (with_hidden-IsHeld past w p h sound v)) in
        Runs-ran _ w rest.state tt _ (ground (arith, late, rest.ran)) rest.holds
  ]

  -- What is fetched is delivered.
  fetch_and_consume-Runs :
      (w : World) (unit : ConsumeMsgUnit)
      → get_elem? w.consume_msg_units p ≡ some unit
      → is_init unit.status ≡ true
      → k < length w.consumer_units
      → IsHeld past w p
      → Runs (fetch_and_consume (some k) p) w (Holds past p)
  unfolding fetch_and_consume
  fetch_and_consume-Runs w unit at_p yet there v =
      let (u, at_k) = get_elem?-lt w.consumer_units k there in
      let valid = All-get UnitIsValid w.consumer_units k u v.sound.batches at_k in
      elim (Option-cases (fetch u)) [
        | inl empty ↦ Runs-ran _ w w tt _ (ground (arith, at_k, empty)) v
        | inr ((o, u'), fetched) ↦
            let (msg, is_msg) = fetch-Reads u u' o valid fetched in
            let valid' = fetch-AllValid u u' o valid fetched in
            let h = with_unit (hidden w) k u' in
            let sound = with_unit-IsSound (hidden w) k u' valid' v.sound in
            let rest =
              deliver-Runs past (with_hidden w h) p unit at_p yet
                (with_hidden-IsHeld past w p h sound v) msg in
            Runs-ran _ w rest.state tt _ (ground (arith, at_k, fetched, is_msg, rest.ran))
              rest.holds
      ]

  match_init-Runs :
      (w : World) (unit : ConsumeMsgUnit)
      → get_elem? w.consume_msg_units p ≡ some unit
      → is_init unit.status ≡ true
      → k < length w.consumer_units
      → IsHeld past w p
      → Runs (match_init (some k) p) w (Leaves (IsAlive past))
  unfolding match_init
  match_init-Runs w unit at_p yet there v =
      let got = fetch_and_consume-Runs w unit at_p yet there v in
      let (unit', at_p') = get_elem?-lt got.state.consume_msg_units p got.holds.there in
      Runs-bind (fetch_and_consume (some k) p) (λ _. get_unit p >>= end_init) w got.state tt _
        got.ran
        (Runs-bind (get_unit p) end_init got.state got.state unit' _ (ground (arith, at_p'))
          (end_init-Runs got.state unit' at_p' got.holds))

  match_receive-Runs :
      (w : World) (unit : ConsumeMsgUnit)
      → get_elem? w.consume_msg_units p ≡ some unit
      → is_init unit.status ≡ false
      → k < length w.consumer_units
      → IsHeld past w p
      → Runs (match_receive (some k) p) w (Leaves (IsAlive past))
  unfolding match_receive
  match_receive-Runs w unit at_p over there v = elim (Bool-cases (get_is_ack_timeout w.now unit)) [
    | inr patient ↦
        let rest = requeue-Runs past w p v in
        Runs-ran _ w rest.state tt _ (ground (arith, at_p, patient, rest.ran)) rest.holds
    | inl late ↦
        let (_, h, ran, sound, _) = reconsume-Quiet w v.sound k unit.msg_id there in
        Runs-ran _ w (with_hidden w h) tt _ (ground (arith, at_p, late, ran)) (
          dropped-IsAlive past (with_hidden w h) p
            (λ i. settled_waits w.consume_msg_units p unit i at_p over)
            (with_hidden-IsHeld past w p h sound v))
  ]

  -- The three branches on the unit's status.
  match_by-Runs :
      (w : World) (unit : ConsumeMsgUnit) (s : MsgWorkerConsumeStatus)
      → get_elem? w.consume_msg_units p ≡ some unit
      → unit.status ≡ s
      → k < length w.consumer_units
      → IsHeld past w p
      → Runs (match_by (some k) p s) w (Leaves (IsAlive past))
  match_by-Runs w unit proxy_consume_init at_p e there v =
      match_init-Runs w unit at_p (ap is_init e) there v
  match_by-Runs w unit client_receive at_p e there v =
      match_receive-Runs w unit at_p (ap is_init e) there v
  match_by-Runs w unit consume_ack at_p e there v = Runs-ran _ w w tt _ refl (
      dropped-IsAlive past w p (λ i. settled_waits w.consume_msg_units p unit i at_p (ap is_init e))
        v)

match_unit-Runs :
    (past : List Step) (w : World) (p : ℕ) (b : Broker)
    → Starts b
    → IsHeld past w p
    → Runs (match_unit b p) w (Leaves (IsAlive past))
unfolding match_unit
match_unit-Runs past w p b starts v =
    let (unit, at_p) = get_elem?-lt w.consume_msg_units p v.there in
    Runs-bind (get_unit p) _ w w unit _ (ground (arith, at_p)) (
      Quiet-bind (get_consumer b unit.topic unit.group) (λ o. match_by o p unit.status) w Finds _
        (get_consumer-Quiet w v.sound b unit.topic unit.group starts)
        (λ o h sound (k, is_k, there). rw is_k (
          match_by-Runs past p k (with_hidden w h) unit unit.status at_p refl there
            (with_hidden-IsHeld past w p h sound v))))

-- A round of the matcher, whether or not the pool is empty.
pub match_round-Runs :
    (past : List Step) (w : World) (b : Broker)
    → Starts b
    → IsAlive past w
    → Runs (match_round b) w (λ _ w'. IsAlive past w')
unfolding match_round QueueTs.try_pop
match_round-Runs past w b starts v = by_pool w.consume_msg_pool.data_queue refl
  where
    by_pool :
        (pool : List ℕ)
        → w.consume_msg_pool.data_queue ≡ pool
        → Runs (match_round b) w (λ _ w'. IsAlive past w')
    by_pool [] e = Runs-ran _ w w false _ (ground (arith, e)) v
    by_pool (p ∷ pool) e =
        let w' : World = record w { consume_msg_pool = record { data_queue = pool } } in
        let rest = match_unit-Runs past w' p b starts (popped-IsHeld past w p pool e v) in
        Runs-ran _ w rest.state true _ (ground (arith, e, rest.ran)) rest.holds
