-- ===== src/Worker/Consumers.antt =====
-- Which consumer a topic and a group get.
use rocketmq_proxy.Prelude.{
  ℕ, true, ◌++◌, [], ◌∷◌, none, some, Bytes, bytes_less, length, if◌then◌else◌, arith, ◌≡◌, ◌∙◌,
  refl, same_refl,
}
use rocketmq_proxy.StdMap.Lookup.{find-insert}
use rocketmq_proxy.MapTs
use rocketmq_proxy.Broker.{Broker}
use rocketmq_proxy.Consumer.{ConsumerUnit}
use rocketmq_proxy.World.{World, ok}
use rocketmq_proxy.Worker.{get_consumer, new_consumer, prepare_consumer, init_msg_queue}

-- A consumer that is known is not started again.
pub get_consumer_known :
    (b : Broker) (topic group : Bytes) (w : World) (c : ℕ)
    → MapTs.try_get w.consumers (topic ++ group) ≡ some c
    → get_consumer b topic group w ≡ ok (some c, w)
unfolding get_consumer
get_consumer_known b topic group w c e = rw (e, get_consumer)

-- A start that succeeds registers the new unit under the key.
abbrev pub registered : Bytes → Bytes → World → World
registered topic group w = record (prepare_consumer topic group w) {
  consumers = MapTs.insert w.consumers (topic ++ group) (length w.consumer_units);
}

-- For a key that is new the outcome turns on `start`. If it returns, the new unit is registered
-- under the key and its address returned. If it throws, the pointer is null and the key stays
-- unknown, so the next call tries again; but the queue of the key has been made.
pub get_consumer_new :
    (b : Broker) (topic group : Bytes) (w : World)
    → MapTs.try_get w.consumers (topic ++ group) ≡ none
    → get_consumer b topic group w ≡ (
        if b.consumer_start (new_consumer topic group w).consumer w.now
        then ok (some (length w.consumer_units), registered topic group w)
        else ok (none, prepare_consumer topic group w))
unfolding get_consumer init_msg_queue
get_consumer_new b topic group w e = ground (arith, e)

registered_known :
    (topic group : Bytes) (w : World) (key : Bytes)
    → MapTs.try_get w.consumers (topic ++ group) ≡ none
    → key ≡ topic ++ group
    → MapTs.try_get (registered topic group w).consumers key ≡ some (length w.consumer_units)
unfolding MapTs.try_get MapTs.insert
registered_known topic group w key e k = ground (
  arith,
  find-insert (topic ++ group) key (length w.consumer_units) w.consumers.the_map,
  same_refl key,
)

-- The key of a consumer is its topic and group written one after the other. So once a consumer
-- has been started for one topic and group, every topic and group that give the same text get that
-- consumer, which is subscribed to the first topic in the first group and has no batches yet, and
-- no other is made.
pub get_consumer_collision :
    (b : Broker) (topic group topic' group' : Bytes) (w : World)
    → MapTs.try_get w.consumers (topic ++ group) ≡ none
    → b.consumer_start (new_consumer topic group w).consumer w.now ≡ true
    → topic' ++ group' ≡ topic ++ group
    → let w' = registered topic group w in
      (get_consumer b topic group w ≡ ok (some (length w.consumer_units), w'))
      × (get_consumer b topic' group' w' ≡ ok (some (length w.consumer_units), w'))
      × (u : ConsumerUnit) × (w'.consumer_units ≡ w.consumer_units ++ u ∷ [])
      × (u.consumer.subscribed_topic ≡ topic)
      × (u.consumer.group_name ≡ group)
      × (u.lockers ≡ [])
unfolding prepare_consumer init_msg_queue new_consumer
get_consumer_collision b topic group topic' group' w e started k = (
  get_consumer_new b topic group w e ∙ rw started,
  get_consumer_known b topic' group' _ _ (registered_known topic group w _ e k),
  new_consumer topic group w,
  refl,
  refl,
  refl,
  refl,
)
