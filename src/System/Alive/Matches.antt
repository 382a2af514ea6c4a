-- ===== src/System/Alive/Matches.antt =====
-- The matcher's unit, while it is out of the pool.
use mathlib.Core.Path.{subst}
use rocketmq_proxy.Prelude.{
  ℕ, ◌+◌, ◌<◌, true, false, List, [], ◌∷◌, ◌++◌, some, bytes_less, ap, length, get_elem?, arith,
  ◌≡◌, refl, ◌∙◌,
}
use rocketmq_proxy.StdMap.Values.{AllValues}
use rocketmq_proxy.QueueTs
use rocketmq_proxy.World.{World, ConsumeMsgUnit, is_init}
use rocketmq_proxy.Matcher.{requeue}
use rocketmq_proxy.System.{Step}
use rocketmq_proxy.System.Contract.{one}
use rocketmq_proxy.System.Alive.Pool.{
  waits?, waits_at, waiting, waiting-rotate, InRange, InRange-rotate, IsSettled,
}
use rocketmq_proxy.System.Alive.Quiet.{Hidden, hidden, with_hidden, IsSound}
use rocketmq_proxy.System.Alive.Kinds.{Produces, Consumes, Acks, Consumes-waiting}
use rocketmq_proxy.System.Alive.Invariant.{IsAlive, Runs, Runs-ran, Leaves}

-- What waits while a unit is out of the pool.
abbrev pub held : List ConsumeMsgUnit → List ℕ → ℕ → ℕ → ℕ
held units pool p i = waits_at units i p + waiting units pool i

-- The invariant while a unit is out of the pool.
pub record IsHeld (past : List Step) (w : World) (p : ℕ) : Type 0 where
  pub produces : Produces w.produce_calls w.actions past
  pub consumes :
      Consumes w.consume_calls w.actions past
        (held w.consume_msg_units w.consume_msg_pool.data_queue p)
  pub acks : Acks w.consume_ack_calls w.actions past
  pub there : p < length w.consume_msg_units
  pub in_range : InRange w.consume_msg_units w.consume_msg_pool.data_queue
  pub settled : AllValues (IsSettled w.consume_msg_units) w.id_unit_map.the_map
  pub sound : IsSound (hidden w)

pub with_hidden-IsHeld :
    (past : List Step) (w : World) (p : ℕ) (h : Hidden)
    → IsSound h
    → IsHeld past w p
    → IsHeld past (with_hidden w h) p
with_hidden-IsHeld past w p h sound v = record {
  produces = v.produces;
  consumes = v.consumes;
  acks = v.acks;
  there = v.there;
  in_range = v.in_range;
  settled = v.settled;
  sound = sound;
}

-- The unit that is taken from the front of the pool is held.
pub popped-IsHeld :
    (past : List Step) (w : World) (p : ℕ) (pool : List ℕ)
    → w.consume_msg_pool.data_queue ≡ p ∷ pool
    → IsAlive past w
    → IsHeld past (record w { consume_msg_pool = record { data_queue = pool } }) p
popped-IsHeld past w p pool e v =
    let in_range : InRange w.consume_msg_units (p ∷ pool) =
      subst (InRange w.consume_msg_units) e v.in_range in
    record {
      produces = v.produces;
      consumes =
          Consumes-waiting w.consume_calls w.actions past _ _
            (λ i. ap (λ l. waiting w.consume_msg_units l i) e) v.consumes;
      acks = v.acks;
      there = in_range.0;
      in_range = in_range.1;
      settled = v.settled;
      sound = v.sound;
    }

-- It goes to the end of the pool.
pub requeue-Runs :
    (past : List Step) (w : World) (p : ℕ)
    → IsHeld past w p
    → Runs (requeue p) w (Leaves (IsAlive past))
unfolding requeue QueueTs.push QueueTs.new
requeue-Runs past w p v =
    let units = w.consume_msg_units in
    let pool = w.consume_msg_pool.data_queue in
    Runs-ran _ w (record w { consume_msg_pool = record { data_queue = pool ++ p ∷ [] } }) tt _ refl
      (record {
        produces = v.produces;
        consumes =
            Consumes-waiting w.consume_calls w.actions past (held units pool p)
              (waiting units (pool ++ p ∷ [])) (waiting-rotate units p pool) v.consumes;
        acks = v.acks;
        in_range = InRange-rotate units p pool (v.there, v.in_range);
        settled = v.settled;
        sound = v.sound;
      })

-- A unit that waits for no message leaves the pool.
pub dropped-IsAlive :
    (past : List Step) (w : World) (p : ℕ)
    → ((i : ℕ) → waits_at w.consume_msg_units i p ≡ 0)
    → IsHeld past w p
    → IsAlive past w
dropped-IsAlive past w p over v = record {
  produces = v.produces;
  consumes =
      Consumes-waiting w.consume_calls w.actions past _ _ (λ i. omega (arith, over i)) v.consumes;
  acks = v.acks;
  in_range = v.in_range;
  settled = v.settled;
  sound = v.sound;
}

pub settled_waits :
    (units : List ConsumeMsgUnit) (p : ℕ) (u : ConsumeMsgUnit) (i : ℕ)
    → get_elem? units p ≡ some u
    → is_init u.status ≡ false
    → waits_at units i p ≡ 0
settled_waits units p u i at_p over = ap (λ o. waits? o i) at_p ∙ ground (arith, over)

pub init_waits :
    (units : List ConsumeMsgUnit) (p : ℕ) (u : ConsumeMsgUnit) (i : ℕ)
    → get_elem? units p ≡ some u
    → is_init u.status ≡ true
    → waits_at units i p ≡ one i u.call_data
init_waits units p u i at_p waits_yet = ap (λ o. waits? o i) at_p ∙ ground (arith, waits_yet)
