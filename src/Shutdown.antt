-- ===== src/Shutdown.antt =====
-- MsgWorker.cpp: `shutdownConsumer` and `clearMsgForConsumer`, the two threads that shut down the
-- consumers nobody uses. They talk through `clearConsumerKey`. A step ends where a thread takes or
-- gives back a mutex, sleeps or waits, so the steps of the two may alternate in any order.
pub mod Handover
use rocketmq_proxy.Prelude.{
  ℕ, Bool, true, false, not, ◌&&◌, List, [], ◌∷◌, Option, none, some, Bytes, bytes_less, get_elem?,
  set, if◌then◌else◌,
}
use rocketmq_proxy.QueueTs.{is_empty}
use rocketmq_proxy.MapTs
use rocketmq_proxy.Consumer.{ConsumerUnit, get_is_too_inactive, unlock_all}
use rocketmq_proxy.World.{World}

-- Where `shutdownConsumer` is: before `getAllKeys`; in the loop, with the keys that are left; or in
-- the library's `shutdown` of the unit at an address, for a key, with the keys that are left.
pub data ShutdownAt : Type 0 where
  outer : ShutdownAt
  inner : List Bytes → ShutdownAt
  closing : Bytes → ℕ → List Bytes → ShutdownAt

-- Where `clearMsgForConsumer` is: before it reads the key; with the key that it has read; before
-- `unlockAll` of the unit at an address; or before it empties the key.
pub data ClearAt : Type 0 where
  resting forgetting : ClearAt
  checking : Bytes → ClearAt
  clearing : ℕ → ClearAt

-- The state, with the members and locals that the two threads use. `keys` is the vector of
-- `shutdownConsumer`, which lives as long as the thread.
pub record Threads : Type 0 where
  pub world : World
  pub clear_consumer_key : Bytes
  pub keys : List Bytes
  pub shutdown_at : ShutdownAt
  pub clear_at : ClearAt

-- `none` is a dangling pointer.
abbrev pub on_unit {ℓ} : {A : Type ℓ} → Option ConsumerUnit → (ConsumerUnit → Option A) → Option A
on_unit none f = none
on_unit (some u) f = f u

-- The body of the loop over the keys, up to the call of `shutdown`.
unfoldable pub visit : Threads → Bytes → List Bytes → Option ℕ → Option Threads
visit t k ks none = some (record t { shutdown_at = inner ks })
visit t k ks (some a) = on_unit (get_elem? t.world.consumer_units a) λ u. some (
    if get_is_too_inactive t.world.now u
    then record t { clear_consumer_key = k; shutdown_at = closing k a ks }
    else record t { shutdown_at = inner ks })

-- `shutdown` of the library returns or goes on waiting, by the unit's state; then the key is erased.
unfoldable pub close : (ConsumerUnit → Bool) → Threads → Bytes → ℕ → List Bytes → Option Threads
close returns t k a ks = on_unit (get_elem? t.world.consumer_units a) λ u. some (
    if returns u
    then record t {
      world = let w = t.world in record w { consumers = MapTs.erase w.consumers k };
      shutdown_at = inner ks;
    }
    else t)

-- A step of `shutdownConsumer`.
unfoldable pub shutdown_step : (ConsumerUnit → Bool) → Threads → ShutdownAt → Option Threads
unfolding visit close
shutdown_step returns t outer =
    let keys = MapTs.get_all_keys t.world.consumers t.keys in
    some (record t { keys = keys; shutdown_at = inner keys })
shutdown_step returns t (inner []) = some (record t { shutdown_at = outer })
shutdown_step returns t (inner (k ∷ ks)) = visit t k ks (MapTs.try_get t.world.consumers k)
shutdown_step returns t (closing k a ks) = close returns t k a ks

-- `key != "" && consumers.try_get(clearConsumerKey, consumer)`. The second operand reads the member
-- anew, not the local `key`.
unfoldable pub check_key : Threads → Bytes → Option ℕ → Threads
check_key t [] found = record t { clear_at = resting }
check_key t (x ∷ xs) none = record t { clear_at = resting }
check_key t (x ∷ xs) (some a) = record t { clear_at = clearing a }

-- A step of `clearMsgForConsumer`.
unfoldable pub clear_step : Threads → ClearAt → Option Threads
unfolding check_key
clear_step t resting = some (record t { clear_at = checking t.clear_consumer_key })
clear_step t (checking key) =
    some (check_key t key (MapTs.try_get t.world.consumers t.clear_consumer_key))
clear_step t (clearing a) = on_unit (get_elem? t.world.consumer_units a) λ u. some (record t {
  world = let w = t.world in record w { consumer_units = set w.consumer_units a (unlock_all u) };
  clear_at = forgetting;
})
clear_step t forgetting = some (record t { clear_consumer_key = []; clear_at = resting })

-- Whose turn it is.
pub data Turn : Type 0 where
  shuts clears : Turn

unfoldable pub turn : (ConsumerUnit → Bool) → Threads → Turn → Option Threads
unfolding shutdown_step clear_step
turn returns t shuts = shutdown_step returns t t.shutdown_at
turn returns t clears = clear_step t t.clear_at

unfoldable pub turns : (ConsumerUnit → Bool) → Threads → List Turn → Option Threads
turns returns t [] = some t
turns returns t (x ∷ xs) = elim (turn returns t x) [ none ↦ none | some t' ↦ turns returns t' xs ]
