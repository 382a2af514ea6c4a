-- ===== src/Server.antt =====
-- ServerImpl.h: `HandleRpcs`, the thread that takes the events of the completion queue. The queue
-- and the service are gRPC's; an event is the tag of a call object with whether its operation went
-- well.
pub mod Ends
use rocketmq_proxy.Prelude.{
  ℕ, Bool, true, false, List, [], ◌∷◌, Option, none, some, ◌++◌, Bytes, bytes, decimal, ◌&&◌,
  if◌then◌else◌,
}
use rocketmq_proxy.Broker.{Broker}
use rocketmq_proxy.World.{World, M, Result, pure, ◌>>=◌, ◌>>◌}
use rocketmq_proxy.Calls.{RequestType, request_produce, request_consume, request_consume_ack}
use rocketmq_proxy.Calls.Produce
use rocketmq_proxy.Calls.Consume
use rocketmq_proxy.Calls.ConsumeAck

-- What a tag points to: the type of the call object, and its address.
pub record Tag : Type 0 where
  pub type_ : RequestType
  pub address : ℕ

abbrev pub get_type : Tag → RequestType
get_type tag = tag.type_

abbrev handle_type : Broker → RequestType → ℕ → Bool → M (Unit {0})
handle_type b request_produce a true = Produce.proceed b a
handle_type b request_produce a false = Produce.cancel a
handle_type b request_consume a true = Consume.proceed a
handle_type b request_consume a false = Consume.cancel b a
handle_type b request_consume_ack a true = ConsumeAck.proceed b a
handle_type b request_consume_ack a false = ConsumeAck.cancel a

-- The branches of the `switch`.
unfoldable pub handle : Broker → Tag → Bool → M (Unit {0})
handle b tag ok = handle_type b (get_type tag) tag.address ok

-- The loop, for what the calls of `Next` bring; `none` is a call that fails, after which the thread
-- sleeps.
unfoldable pub handle_events : Broker → List (Option (Tag × Bool)) → M (Unit {0})
handle_events b [] = pure tt
handle_events b (none ∷ events) = handle_events b events
handle_events b (some (tag, ok) ∷ events) = do handle b tag ok; handle_events b events

-- `HandleRpcs`: a call object of each kind, and the loop.
unfoldable pub handle_rpcs : Broker → List (Option (Tag × Bool)) → M (Unit {0})
unfolding handle_events
handle_rpcs b events = do
  _ ← Produce.new
  _ ← Consume.new
  _ ← ConsumeAck.new
  handle_events b events

-- The members of `ServerImpl` that the constructor sets.
pub record ServerImpl : Type 0 where
  pub host : Bytes
  pub port : ℕ
  pub name_server_host : Bytes
  pub access_key : Bytes
  pub secret_key : Bytes
  pub access_channel : Bytes

unfoldable pub new : Bytes → ℕ → Bytes → Bytes → Bytes → Bytes → ServerImpl
new host port name_server access_key secret_key access_channel = record {
  host = host;
  port = port;
  name_server_host = name_server;
  access_key = access_key;
  secret_key = secret_key;
  access_channel = access_channel;
}

-- The address that `Run` listens on.
unfoldable pub server_address : ServerImpl → Bytes
unfolding decimal
server_address s = s.host ++ (bytes ":" ++ decimal s.port)

-- A call of gRPC while the server starts or ends.
pub data GrpcCall : Type 0 where
  add_listening_port : Bytes → GrpcCall
  register_service add_completion_queue build_and_start : GrpcCall
  shutdown_server shutdown_queue : GrpcCall

-- Whether the pointers `cq_` and `server_` hold an object.
pub record Owned : Type 0 where
  pub cq : Bool
  pub server : Bool

abbrev pub nothing_owned : Owned
nothing_owned = record { cq = false; server = false }

-- The destructor, which follows both pointers; `none` is a null pointer.
unfoldable pub destroy : Owned → Option (List GrpcCall)
destroy owned =
    if owned.server && owned.cq then some (shutdown_server ∷ shutdown_queue ∷ []) else none

-- What a run of the server did: the calls of gRPC, the pointers, the line that it printed, and what
-- its loop did.
pub record Running : Type 0 where
  pub calls : List GrpcCall
  pub owned : Owned
  pub printed : Bytes
  pub handled : Result (Unit {0} × World)

-- `Run`, for the events that come.
unfoldable pub run : Broker → ServerImpl → List (Option (Tag × Bool)) → World → Running
unfolding server_address handle_rpcs
run b s events w = record {
  calls =
      add_listening_port (server_address s)
      ∷ register_service
      ∷ add_completion_queue
      ∷ build_and_start
      ∷ [];
  owned = record { cq = true; server = true };
  printed = bytes "Server listening on " ++ (server_address s ++ bytes "\n");
  handled = handle_rpcs b events w;
}
