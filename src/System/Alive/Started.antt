-- ===== src/System/Alive/Started.antt =====
-- The server when it has started.
use rocketmq_proxy.Prelude.{ℕ, zero, suc, [], Bytes, arith, ◌≡◌, refl}
use rocketmq_proxy.QueueTs
use rocketmq_proxy.MapTs
use rocketmq_proxy.Broker.{Broker}
use rocketmq_proxy.World.{World, ok, new_worker}
use rocketmq_proxy.Worker.{set_config}
use rocketmq_proxy.Calls.{request_produce, request_consume, request_consume_ack}
use rocketmq_proxy.Calls.Produce.Branches as ProduceBranches
use rocketmq_proxy.Calls.ConsumeAck.Branches as AckBranches
use rocketmq_proxy.Server.{handle_rpcs, handle_events}
use rocketmq_proxy.System.Alive.Counts
use rocketmq_proxy.System.Alive.Counts.{IsCall, Fits}
use rocketmq_proxy.System.Alive.Kinds.{produce_view, consume_view, ack_view}
use rocketmq_proxy.System.Alive.Consumes
use rocketmq_proxy.System.Alive.Invariant.{IsAlive}

-- The worker as `main` makes it, before the first call object.
abbrev pub configured : ℕ → Bytes → Bytes → Bytes → Bytes → World
configured now name_server access_key secret_key channel =
    set_config name_server access_key secret_key channel (new_worker now)

-- With the three call objects that `HandleRpcs` makes.
abbrev pub started : World → World
started w = AckBranches.with_new (Consumes.with_new (ProduceBranches.with_new w))

pub handle_rpcs_lem : (b : Broker) (w : World) → handle_rpcs b [] w ≡ ok (tt, started w)
unfolding handle_rpcs handle_events
handle_rpcs_lem b w = ground (
  arith,
  ProduceBranches.new_lem w,
  Consumes.new_lem (ProduceBranches.with_new w),
  AckBranches.new_lem (Consumes.with_new (ProduceBranches.with_new w)),
)

module _ (now : ℕ) (name_server access_key secret_key channel : Bytes) where
  abbrev start : World
  start = started (configured now name_server access_key secret_key channel)

  pub start-IsAlive : IsAlive [] start
  unfolding set_config MapTs.new QueueTs.new
  start-IsAlive = record {
    produces = (record { fit = fits_produce; last = (0, refl, refl) }, λ a. ground arith);
    consumes = record { fit = fits_consume; last = (0, refl, refl) };
    acks = record { fit = fits_ack; last = (0, refl, refl) };
    in_range = tt;
    settled = tt;
    sound = record { batches = tt; known = tt };
  }
    where
      fits_produce :
          Counts.AllFit produce_view request_produce start.produce_calls start.actions [] (λ a. 0)
      fits_produce zero = (refl, omega arith, omega arith, omega arith, omega arith)
      fits_produce (suc a) = ground arith

      fits_consume :
          Counts.AllFit consume_view request_consume start.consume_calls start.actions [] (λ a. 0)
      fits_consume zero = (refl, omega arith, omega arith, omega arith, omega arith)
      fits_consume (suc a) = ground arith

      fits_ack :
          Counts.AllFit ack_view request_consume_ack start.consume_ack_calls start.actions []
            (λ a. 0)
      fits_ack zero = (refl, omega arith, omega arith, omega arith, omega arith)
      fits_ack (suc a) = ground arith
