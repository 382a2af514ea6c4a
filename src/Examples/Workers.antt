-- ===== src/Examples/Workers.antt =====
-- Instances of the theorems on the worker's consumers.
use rocketmq_proxy.Prelude.{
  some, none, bytes, ◌≡◌, refl, length, ◌++◌, [], ◌∷◌, bytes_less, if◌then◌else◌,
}
use rocketmq_proxy.Consumer.{ConsumerUnit}
use rocketmq_proxy.StdMap
use rocketmq_proxy.MapTs
use rocketmq_proxy.World.{ok}
use rocketmq_proxy.Worker.{get_consumer, new_consumer, prepare_consumer}
use rocketmq_proxy.Worker.Consumers.{get_consumer_new, get_consumer_collision, registered}
use rocketmq_proxy.Examples.{late_broker, empty_world, early_world}

get_consumer_new_example : get_consumer late_broker (bytes "t") (bytes "g") early_world ≡ (
    if late_broker.consumer_start
      (new_consumer (bytes "t") (bytes "g") early_world).consumer
      early_world.now
    then ok
        (some (length early_world.consumer_units), registered (bytes "t") (bytes "g") early_world)
    else ok (none, prepare_consumer (bytes "t") (bytes "g") early_world))
unfolding MapTs.try_get MapTs.new StdMap.find
get_consumer_new_example = get_consumer_new late_broker (bytes "t") (bytes "g") early_world refl

-- The topic "ab" in the group "c", and the topic "a" in the group "bc".
get_consumer_collision_example :
    let w' = registered (bytes "ab") (bytes "c") empty_world in
    (get_consumer late_broker (bytes "ab") (bytes "c") empty_world
      ≡ ok (some (length empty_world.consumer_units), w'))
    × (get_consumer late_broker (bytes "a") (bytes "bc") w'
        ≡ ok (some (length empty_world.consumer_units), w'))
    × (u : ConsumerUnit) × (w'.consumer_units ≡ empty_world.consumer_units ++ u ∷ [])
    × (u.consumer.subscribed_topic ≡ bytes "ab")
    × (u.consumer.group_name ≡ bytes "c")
    × (u.lockers ≡ [])
unfolding MapTs.try_get MapTs.new StdMap.find
get_consumer_collision_example =
    get_consumer_collision late_broker (bytes "ab") (bytes "c") (bytes "a") (bytes "bc") empty_world
      refl refl refl
