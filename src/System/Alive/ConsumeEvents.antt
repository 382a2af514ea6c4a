-- ===== src/System/Alive/ConsumeEvents.antt =====
-- The events of the consume calls, and their requests.
use rocketmq_proxy.Prelude.{
  ℕ, true, false, List, [], ◌∷◌, some, Bytes, bytes_less, ap, set, arith, ◌≡◌, refl, inl, inr,
  get_elem?-set_self, set-set,
}
use rocketmq_proxy.StdMap.Values.{AllValues, erase-AllValues}
use rocketmq_proxy.MapTs
use rocketmq_proxy.MapTs.{MapTs}
use rocketmq_proxy.Broker.{Broker}
use rocketmq_proxy.Proto.{ConsumeRequest}
use rocketmq_proxy.World.{World, M, modify, ◌>>=◌, process, finish, ConsumeCallData}
use rocketmq_proxy.Worker.{get_consumer}
use rocketmq_proxy.Matcher.{reconsume}
use rocketmq_proxy.Calls
use rocketmq_proxy.Calls.{get_consume, put_consume}
use rocketmq_proxy.Calls.Consume.{proceed, cancel, del, give_back}
use rocketmq_proxy.System.{Step, receives_consume, receive_consume}
use rocketmq_proxy.System.Contract.{MayCome, Awaits}
use rocketmq_proxy.System.Alive.Changes.{Fits-edit}
use rocketmq_proxy.System.Alive.Found.{find_event, find_answer, find_request}
use rocketmq_proxy.System.Alive.Pool.{waiting, IsSettled}
use rocketmq_proxy.System.Alive.Quiet.{
  Hidden, hidden, with_hidden, IsSound, Starts, Finds, Nothing, get_consumer-Quiet, reconsume-Quiet,
}
use rocketmq_proxy.System.Alive.Kinds.{consume_view, Produces-past, Consumes-past, Acks-past}
use rocketmq_proxy.System.Alive.Invariant.{IsAlive, Runs, Quiet-bind, Runs-ran, Leaves}
use rocketmq_proxy.System.Alive.Consumes.{
  event, pooled, ended, ended-IsAlive, process_call_lem, pooled-IsAlive,
}

-- What becomes of the message that was handed out.
give_back-Runs :
    (past : List Step) (w : World) (b : Broker) (c : ConsumeCallData) (id : Bytes)
    → Starts b
    → IsAlive past w
    → Runs (give_back b c id) w (λ _ w'.
      (h : Hidden) × (ids : MapTs Bytes ℕ) × (w' ≡ record (with_hidden w h) { id_unit_map = ids })
      × IsSound h
      × AllValues (IsSettled w.consume_msg_units) ids.the_map)
unfolding MapTs.erase
give_back-Runs past w b c [] starts v =
    Runs-ran _ w w tt _ refl (hidden w, w.id_unit_map, refl, v.sound, v.settled)
give_back-Runs past w b c (x ∷ xs) starts v =
    let forget : M (Unit {0}) =
      modify λ w. record w { id_unit_map = MapTs.erase w.id_unit_map (x ∷ xs) } in
    Quiet-bind (get_consumer b c.topic c.group) (λ o. reconsume o (x ∷ xs) >>= λ _. forget) w Finds
      _ (get_consumer-Quiet w v.sound b c.topic c.group starts)
      (λ o h sound (k, is_k, there). rw is_k (
        Quiet-bind (reconsume (some k) (x ∷ xs)) (λ _. forget) (with_hidden w h) Nothing _
          (reconsume-Quiet (with_hidden w h) sound k (x ∷ xs) there)
          (λ _ h' sound' _. Runs-ran _ _ _ tt _ refl (
            h',
            MapTs.erase w.id_unit_map (x ∷ xs),
            refl,
            sound',
            erase-AllValues _ (x ∷ xs) w.id_unit_map.the_map v.settled,
          ))))

module _ (past : List Step) (w : World) (a : ℕ) (v : IsAlive past w) where
  abbrev waiting_for : ℕ → ℕ
  waiting_for = waiting w.consume_msg_units w.consume_msg_pool.data_queue

  -- The event of a request puts a unit into the pool, and that of an answer deletes the object.
  pub proceed-Runs :
      MayCome Calls.request_consume a true past w
      → Runs (proceed a) w (Leaves (IsAlive (event a true ∷ past)))
  unfolding proceed del
  proceed-Runs may =
      elim (find_event consume_view Calls.request_consume w.consume_calls w.actions past waiting_for
        a v.consumes may) [
          | inl ((c, at_a, e), first) ↦
              let waits : c.status ≡ process = ap (λ s. s.0) e in
              let alive : c.deleted ≡ false = ap (λ s. s.1) e in
              Runs-ran _ w (pooled w a c) tt _
                (ground (arith, at_a, waits, alive, process_call_lem past w a c at_a e first v))
                (pooled-IsAlive past w a c at_a e first v)
          | inr (c, at_a, e) ↦
              let over : c.status ≡ finish = ap (λ s. s.0) e in
              let alive : c.deleted ≡ false = ap (λ s. s.1) e in
              Runs-ran _ w (ended w (hidden w) w.id_unit_map a c) tt _
                (ground (arith, at_a, over, alive))
                (ended-IsAlive past w (hidden w) w.id_unit_map a c true at_a e v.sound v.settled v)
        ]

  pub cancel-Runs :
      (b : Broker)
      → Starts b
      → MayCome Calls.request_consume a false past w
      → Runs (cancel b a) w (Leaves (IsAlive (event a false ∷ past)))
  unfolding cancel del
  cancel-Runs b starts (requested, may) =
      let (c, at_a, e) =
        find_answer consume_view Calls.request_consume w.consume_calls w.actions past waiting_for a
          v.consumes requested may in
      let alive : c.deleted ≡ false = ap (λ s. s.1) e in
      let c' : ConsumeCallData = record c { status = finish } in
      let back = give_back-Runs past w b c c.msg_id starts v in
      let (h, ids, same, sound, settled) = back.holds in
      Runs-ran _ w (ended w h ids a c) tt _
        (ground (
          arith,
          at_a,
          alive,
          back.ran,
          same,
          get_elem?-set_self w.consume_calls a c' c at_a,
          set-set w.consume_calls a c' (record c { status = finish; deleted = true }),
        ))
        (ended-IsAlive past w h ids a c false at_a e sound settled v)

  -- A client's request goes into an object that awaits it.
  pub receive_consume-Runs :
      (r : ConsumeRequest)
      → Awaits Calls.request_consume a past w
      → Runs (receive_consume a r) w (Leaves (IsAlive (receives_consume a r ∷ past)))
  unfolding receive_consume
  receive_consume-Runs r awaits =
      let (c, at_a, e) =
        find_request consume_view Calls.request_consume w.consume_calls w.actions past waiting_for a
          v.consumes awaits in
      let alive : c.deleted ≡ false = ap (λ s. s.1) e in
      let c' : ConsumeCallData = record c { request = r } in
      let s = receives_consume a r in
      Runs-ran _ w (record w { consume_calls = set w.consume_calls a c' }) tt _
        (ground (arith, at_a, alive))
        (record {
          produces =
              Produces-past w.produce_calls w.actions past s (λ i. refl) (λ i. refl) v.produces;
          consumes =
              Consumes-past (set w.consume_calls a c') w.actions past waiting_for s (λ i. refl)
                (Fits-edit consume_view Calls.request_consume w.consume_calls w.actions past
                  waiting_for a c at_a v.consumes c' refl);
          acks = Acks-past w.consume_ack_calls w.actions past s (λ i. refl) v.acks;
          in_range = v.in_range;
          settled = v.settled;
          sound = v.sound;
        })
