-- ===== src/Shutdown/Handover.antt =====
-- How the two threads hand a consumer over, and how the key of one can be lost.
use rocketmq_proxy.Prelude.{
  ℕ, Bool, true, false, List, [], ◌∷◌, some, Bytes, bytes_less, get_elem?, set, arith, ◌≡◌, refl,
  ◌⊎◌, inl, inr, same, get_elem?-set_self,
}
use rocketmq_proxy.StdMap.Lookup.{find-erase_ne}
use rocketmq_proxy.MapTs
use rocketmq_proxy.Consumer.{ConsumerUnit, unlock_all, get_is_too_inactive}
use rocketmq_proxy.Shutdown.{
  Threads, inner, closing, resting, checking, Turn, shuts, clears, turn, turns,
}

-- While `shutdownConsumer` is in `shutdown` for a consumer whose key it has set, and which is
-- registered: one round of `clearMsgForConsumer` gives up all batches of that consumer and empties
-- the key; if `shutdown` then returns, the key is erased and the loop goes on with the next. Nothing
-- else changes.
pub handover :
    (returns : ConsumerUnit → Bool) (t : Threads) (x : ℕ) (xs : Bytes) (a : ℕ) (ks : List Bytes)
    (u : ConsumerUnit)
    → t.shutdown_at ≡ closing (x ∷ xs) a ks
    → t.clear_at ≡ resting
    → t.clear_consumer_key ≡ x ∷ xs
    → MapTs.try_get t.world.consumers (x ∷ xs) ≡ some a
    → get_elem? t.world.consumer_units a ≡ some u
    → returns (unlock_all u) ≡ true
    → turns returns t (clears ∷ clears ∷ clears ∷ clears ∷ shuts ∷ [])
      ≡ some (record t {
        world =
            let w = t.world in
            record w {
              consumer_units = set w.consumer_units a (unlock_all u);
              consumers = MapTs.erase w.consumers (x ∷ xs);
            };
        clear_consumer_key = [];
        shutdown_at = inner ks;
      })
unfolding turns turn
handover returns t x xs a ks u at_k rests key known at_a ended =
    ground (arith, get_elem?-set_self t.world.consumer_units a (unlock_all u) u at_a)

-- If the key is empty while `shutdownConsumer` is in `shutdown` for a consumer, and `shutdown` does
-- not return for the consumer as it is: however the two threads alternate from then on, the
-- consumer's batches are never given up, no consumer is erased, and `shutdownConsumer` stays where
-- it is.
pub stuck :
    (returns : ConsumerUnit → Bool) (t : Threads) (k : Bytes) (a : ℕ) (ks : List Bytes)
    (u : ConsumerUnit)
    → t.shutdown_at ≡ closing k a ks
    → get_elem? t.world.consumer_units a ≡ some u
    → returns u ≡ false
    → (t.clear_consumer_key ≡ []) × ((t.clear_at ≡ resting) ⊎ (t.clear_at ≡ checking []))
    → (order : List Turn)
    → (t' : Threads) × (turns returns t order ≡ some t')
      × (t'.world ≡ t.world)
      × (t'.shutdown_at ≡ closing k a ks)
unfolding turns turn
stuck returns t k a ks u at_k at_a waits keyless [] = (t, refl, refl, at_k)
stuck returns t k a ks u at_k at_a waits keyless (shuts ∷ order) =
    let (t', run, same_world, still) = stuck returns t k a ks u at_k at_a waits keyless order in
    (t', ground (arith, run), same_world, still)
stuck returns t k a ks u at_k at_a waits (no_key, inl rests) (clears ∷ order) =
    let (t', run, same_world, still) =
      stuck returns (record t { clear_at = checking [] }) k a ks u at_k at_a waits
        (no_key, inr refl) order in
    (t', ground (arith, run), same_world, still)
stuck returns t k a ks u at_k at_a waits (no_key, inr checks) (clears ∷ order) =
    let (t', run, same_world, still) =
      stuck returns (record t { clear_at = resting }) k a ks u at_k at_a waits (no_key, inl refl)
        order in
    (t', ground (arith, run), same_world, still)

-- Two consumers that are registered and inactive, of which the first shuts down at once: if
-- `clearMsgForConsumer` has taken the key of the first before its shutdown, and empties the key
-- after that of the second is set, then the key of the second is lost, while `shutdownConsumer` is
-- in its shutdown.
pub key_lost :
    (returns : ConsumerUnit → Bool) (t : Threads) (x : ℕ) (xs k : Bytes) (a b : ℕ) (ks : List Bytes)
    (u v : ConsumerUnit)
    → t.shutdown_at ≡ inner ((x ∷ xs) ∷ k ∷ ks)
    → t.clear_at ≡ resting
    → MapTs.try_get t.world.consumers (x ∷ xs) ≡ some a
    → MapTs.try_get t.world.consumers k ≡ some b
    → same k (x ∷ xs) ≡ false
    → get_elem? t.world.consumer_units a ≡ some u
    → get_elem? t.world.consumer_units b ≡ some v
    → get_is_too_inactive t.world.now u ≡ true
    → get_is_too_inactive t.world.now v ≡ true
    → returns u ≡ true
    → turns returns t (shuts ∷ clears ∷ clears ∷ shuts ∷ shuts ∷ clears ∷ clears ∷ [])
      ≡ some (record t {
        world =
            let w = t.world in
            record w {
              consumer_units = set w.consumer_units a (unlock_all u);
              consumers = MapTs.erase w.consumers (x ∷ xs);
            };
        clear_consumer_key = [];
        shutdown_at = closing k b ks;
      })
unfolding turns turn MapTs.try_get MapTs.erase
key_lost returns t x xs k a b ks u v at_keys rests known known' other at_a at_b late late' ended =
    ground (arith, find-erase_ne (x ∷ xs) k t.world.consumers.the_map other)
