-- ===== src/Examples/Shutdowns.antt =====
-- Instances of the theorems on the two threads that shut consumers down.
use rocketmq_proxy.Prelude.{
  ℕ, Bool, true, false, List, [], ◌∷◌, some, bytes, bytes_less, nat_less, set, ◌≡◌, refl, inl, same,
  lex_less,
}
use rocketmq_proxy.StdMap
use rocketmq_proxy.MapTs
use rocketmq_proxy.Consumer.{
  ConsumerUnit, unlock_all, unlock_lockers, get_is_too_inactive, wait_lock,
}
use rocketmq_proxy.Worker.{new_consumer}
use rocketmq_proxy.Locker
use rocketmq_proxy.World.{World}
use rocketmq_proxy.Shutdown.{Threads, inner, closing, resting, shuts, clears, turns}
use rocketmq_proxy.Shutdown.Handover.{handover, stuck, key_lost}
use rocketmq_proxy.Examples.{empty_world, idle_unit, busy_unit}

-- `shutdown` waits as long as the unit has batches that nobody has given up.
abbrev waits_for_batches : ConsumerUnit → Bool
waits_for_batches u = all_done u.lockers
  where
    all_done : List (ℕ × Locker.ConsumerUnitLocker) → Bool
    all_done [] = true
    all_done ((a, l) ∷ rest) = elim (Locker.is_done l) [ true ↦ all_done rest | false ↦ false ]

-- An idle consumer and one with a batch that no client fetches.
abbrev two_consumers : World
two_consumers = record empty_world {
  now = 30;
  consumers = record { the_map = (bytes "ag", 0) ∷ (bytes "tg", 1) ∷ [] };
  consumer_units = idle_unit ∷ busy_unit ∷ [];
}

abbrev closing_second : Threads
closing_second = record {
  world = two_consumers;
  clear_consumer_key = bytes "tg";
  keys = bytes "ag" ∷ bytes "tg" ∷ [];
  shutdown_at = closing (bytes "tg") 1 [];
  clear_at = resting;
}

handover_example :
    turns waits_for_batches closing_second (clears ∷ clears ∷ clears ∷ clears ∷ shuts ∷ [])
    ≡ some (record closing_second {
      world =
          let w = two_consumers in
          record w {
            consumer_units = set w.consumer_units 1 (unlock_all busy_unit);
            consumers = MapTs.erase w.consumers (bytes "tg");
          };
      clear_consumer_key = [];
      shutdown_at = inner [];
    })
unfolding MapTs.try_get StdMap.find StdMap.insert StdMap.place StdMap.assign StdMap.overwrite same
    lex_less unlock_all unlock_lockers wait_lock new_consumer Locker.new Locker.start
    Locker.add_msgs Locker.add_msg Locker.release Locker.release_loop Locker.trigger_check
    Locker.scan Locker.conclude
handover_example =
    handover waits_for_batches closing_second 116 (bytes "g") 1 [] busy_unit refl refl refl refl
      refl refl

abbrev without_key : Threads
without_key = record closing_second { clear_consumer_key = [] }

stuck_example :
    (t' : Threads) × (turns waits_for_batches without_key
        (clears ∷ shuts ∷ clears ∷ clears ∷ shuts ∷ [])
      ≡ some t')
    × (t'.world ≡ two_consumers)
    × (t'.shutdown_at ≡ closing (bytes "tg") 1 [])
unfolding wait_lock new_consumer StdMap.insert StdMap.place StdMap.find Locker.new Locker.start
    Locker.add_msgs Locker.add_msg
stuck_example =
    stuck waits_for_batches without_key (bytes "tg") 1 [] busy_unit refl refl refl (refl, inl refl)
      (clears ∷ shuts ∷ clears ∷ clears ∷ shuts ∷ [])

abbrev visiting_both : Threads
visiting_both = record {
  world = two_consumers;
  clear_consumer_key = [];
  keys = bytes "ag" ∷ bytes "tg" ∷ [];
  shutdown_at = inner (bytes "ag" ∷ bytes "tg" ∷ []);
  clear_at = resting;
}

key_lost_example :
    turns waits_for_batches visiting_both
      (shuts ∷ clears ∷ clears ∷ shuts ∷ shuts ∷ clears ∷ clears ∷ [])
    ≡ some (record visiting_both {
      world =
          let w = two_consumers in
          record w {
            consumer_units = set w.consumer_units 0 (unlock_all idle_unit);
            consumers = MapTs.erase w.consumers (bytes "ag");
          };
      clear_consumer_key = [];
      shutdown_at = closing (bytes "tg") 1 [];
    })
unfolding MapTs.try_get StdMap.find same lex_less get_is_too_inactive new_consumer wait_lock
key_lost_example =
    key_lost waits_for_batches visiting_both 97 (bytes "g") (bytes "tg") 0 1 [] idle_unit busy_unit
      refl refl refl refl refl refl refl refl refl refl
