-- ===== src/System/Alive/Producing.antt =====
-- What `process` of a call that sends a message comes to: a message goes out, or the client is
-- answered with an error.
use rocketmq_proxy.Prelude.{
  ℕ, false, [], ◌∷◌, ◌++◌, some, Bytes, bytes, bytes_less, get_elem?, arith, ◌≡◌, ◌⊎◌, inl, inr,
  Bool-cases, Option-cases,
}
use rocketmq_proxy.StdMap.{find, insert}
use rocketmq_proxy.Broker.{Broker, MqMessage}
use rocketmq_proxy.World.{World, ok, ProduceCallData, ProducerUnit, send}
use rocketmq_proxy.Worker.{get_producer, new_producer, send_by, produce}
use rocketmq_proxy.Calls.Produce.{process_call, lacks_param}
use rocketmq_proxy.Calls.Produce.Branches.{
  with_new, new_lem, outgoing, finished_with, fail_with_lem, with_new_keeps,
}
use rocketmq_proxy.System.Alive.Quiet.{Hidden, hidden, with_hidden, IsSound, Starts}

-- The state after a message has been sent.
abbrev pub sent_with : World → ℕ → MqMessage → World
sent_with w a msg = record w { actions = w.actions ++ send a msg ∷ [] }

module _ (b : Broker) (starts : Starts b) (w : World) (v : IsSound (hidden w)) where
  -- A producer that is known, or has been started.
  get_producer_starts :
      (topic group : Bytes)
      → (u : ProducerUnit) × (h : Hidden) × (get_producer b topic group w
          ≡ ok (some u, with_hidden w h))
        × IsSound h
  unfolding get_producer
  get_producer_starts topic group = elim (Option-cases (find (topic ++ group) w.producers)) [
    | inr (u, known) ↦ (u, hidden w, rw (known, get_producer), v)
    | inl unknown ↦
        let u = new_producer topic group w in
        (
          u,
          record (hidden w) { producers = insert (topic ++ group) u w.producers },
          ground (arith, unknown, starts.producers u.producer w.now),
          record { batches = v.batches; known = v.known },
        )
  ]

module _ (b : Broker) (w : World) (a : ℕ) (d : ProduceCallData) where
  -- How `process` ends.
  abbrev pub Ending : Type 0
  Ending =
      (h : Hidden) × IsSound h
      × (((text : Bytes) × (process_call b a w
              ≡ ok (tt, finished_with (with_hidden (with_new w) h) a d text)))
          ⊎ ((msg : MqMessage) × (process_call b a w
                ≡ ok (tt, sent_with (with_hidden (with_new w) h) a msg))))

module _ (b : Broker) (starts : Starts b) (w : World) (v : IsSound (hidden w)) (a : ℕ)
    (d : ProduceCallData) (at_a : get_elem? w.produce_calls a ≡ some d)
    (alive : d.deleted ≡ false) where
  -- A complete request: the message is sent, or `send` throws.
  sends_or_throws : lacks_param d.request ≡ false → Ending b w a d
  unfolding process_call produce send_by
  sends_or_throws complete =
      let r = d.request in
      let (u, h, got, sound) = get_producer_starts b starts (with_new w) v r.topic r.group in
      let there = with_new_keeps w a d at_a in
      (
        h,
        sound,
        elim (Option-cases (b.send (outgoing r) w.now)) [
          | inl went ↦
              inr (outgoing r, ground (arith, new_lem w, there, alive, complete, got, went))
          | inr (what, threw) ↦ inl (
            what,
            ground (
              arith,
              new_lem w,
              there,
              alive,
              complete,
              got,
              threw,
              fail_with_lem (with_hidden (with_new w) h) a d what there alive,
            ),
          )
        ],
      )

  pub process_call_ends : Ending b w a d
  unfolding process_call
  process_call_ends = elim (Bool-cases (lacks_param d.request)) [
    | inr complete ↦ sends_or_throws complete
    | inl lacking ↦ (
      hidden w,
      v,
      inl (
        bytes "params error!",
        ground (
          arith,
          new_lem w,
          lacking,
          alive,
          with_new_keeps w a d at_a,
          fail_with_lem (with_new w) a d (bytes "params error!") (with_new_keeps w a d at_a) alive,
        ),
      ),
    )
  ]
