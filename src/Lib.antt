-- ===== src/Lib.antt =====
-- A model of the RocketMQ proxy, and what is proved of it.
--
-- The proxy is a gRPC server between clients and a RocketMQ broker. A client asks it to send a
-- message (`Produce`), for the next message of a topic and a group (`Consume`), or acknowledges a
-- message (`ConsumeAck`). The broker pushes batches of messages to the proxy; the callback that
-- takes a batch blocks until clients have fetched and acknowledged all messages of the batch, and
-- then tells the broker whether they were consumed.
--
-- The parts, and the files that model them:
--   * QueueTs (QueueTS.hpp) and MapTs (MapTS.hpp): the queue and the map that the threads share.
--     StdMap is `std::map`, an association list in the order of its keys.
--   * Message, Locker (MsgWorker.h, MsgWorker.cpp): `MsgUnit` and `ConsumerUnitLocker`, a batch.
--     The fields of the record are the members; a `shared_ptr` is the address of its unit in
--     `heap`. `new` is the constructor, `get_msg`, `set_msg_status` and `trigger_check` are the
--     methods, `release` is what `unlockAll` does to one batch. Locker/History has the histories.
--   * Consumer (MsgWorker.h, MsgWorker.cpp): `ConsumerUnit`, the batches of one consumer, and
--     what its callback reports. `wait_lock` and `leave` are the two halves of `waitLock` and
--     `eraseLock`, before and after the wait.
--   * Proto (protos/Proxy.proto): the requests and replies.
--   * Broker (include/): what the program gives to the broker's client library and gets from it, with
--     the enumerations and the exceptions of that library that it reads.
--   * World: the state that all threads share, that is the members of `MsgWorker`, the objects
--     behind its pointers, the call objects, and in `actions` what was handed to the libraries. A
--     step of a thread is a function of the monad `M`: it yields a result and a state, or a
--     `Fault` where the process ends (a pointer that is null or dangling, a failed assertion).
--   * Worker (MsgWorker.h, MsgWorker.cpp): `getProducer`, `getConsumer`, `produce` and the rest of
--     what the calls and the matcher use. Worker/Threads has `runAll`. Consumer/Listener is
--     `ConsumerMsgListener`.
--   * Calls (CallData.h, common.h), with Calls/Consume (ConsumeCallData.h, ConsumeCallData.cpp),
--     Calls/ConsumeAck (ConsumeAckCallData.h, ConsumeAckCallData.cpp) and Calls/Produce
--     (ProduceCallData.h, ProducerCallback.h): the call objects. `create`, `process_call`, `del`,
--     `cancel` and `proceed` are the methods `create`, `process`, `del`, `cancel`, `Proceed`.
--   * Matcher (MsgWorker.cpp): `loopMatch`, which hands messages to the requests that wait.
--   * Notify (MsgWorker.h, MsgWorker.cpp, ConsumeCallData.cpp): `notifyCV`, for which the matcher
--     waits, with `notifyTimeout`, as steps that alternate in any order.
--   * Logger (ProxyLogger.h, ProxyLogger.cpp): the constructor, `writeLog`, `loopConsumeLog` and
--     `bulk`. Clock is `getTime`, and Ip (Ip.hpp) is `getLocalIp`.
--   * Shutdown (MsgWorker.cpp): `shutdownConsumer` and `clearMsgForConsumer`, as steps of two
--     threads that alternate in any order.
--   * Server (ServerImpl.h): `Run` and `HandleRpcs`, which hands the events of the completion queue
--     to the call objects.
--   * System: all of these composed on the one state: requests that come, events, rounds of the
--     matcher, callbacks of the broker and of sends, and consumers that are given up, as steps in
--     any order. System/Keeps has the rules by which a step keeps what System/Lasting asks of all
--     batches and of all actions; System/Safety and System/Genuine are two instances.
--     System/Served follows one message from the broker to the client and back. System/Contract
--     says what gRPC and the client library promise of the events and the callbacks that they
--     bring, as a condition on a history: at most one event for each operation that a call object
--     has begun, at most one callback for each message sent. System/Alive counts these operations,
--     events and callbacks for each call object.
--   * Start (Server.cpp): `main`, the reading of the configuration.
--   * Clients (ConsumeClient.cpp, ConsumeClientSleep.cpp, ProduceClient.cpp): the sample clients, as
--     what they call, print and sleep, for any answers of the service.
--   * Wire (Proxy.pb.cc): the messages on the wire, as the classes that protoc generated read, write,
--     size and merge them.
--   * Examples, Locker/Examples, Consumer/Examples, QueueTs/Examples, MapTs/Examples: concrete
--     states, tests, and instances of the theorems.
--   * Prelude: the names and lemmas that the other modules share.
--
-- How they interact: a consume call puts a unit into `consume_msg_pool`; the matcher takes it from
-- there, fetches a message from the batches of the consumer, answers the call and keeps the unit
-- until its acknowledgement or its timeout; an acknowledge call marks the messages in the batches
-- and the unit in `id_unit_map`; when a batch is done, the broker's callback leaves. Sends,
-- deliveries and acknowledgements are pushed to the logger's queue.
--
-- Bounds and parameters. Each method that holds a mutex is one step, and so is each handler and
-- each round of the matcher, in which the clock is read once. For `fetchAndConsume` and
-- `setMsgAck` this is an assumption: they hold `lockersMtx` shared only (MsgWorker.cpp, lines 212
-- and 232), so in the program a call of each may overlap in one batch. The wait of a callback for
-- its batch is given by its predicate; that a notification comes between the test of the predicate
-- and the block, and is lost, is outside the model, since `triggerCheck` does not take the batch's
-- mutex (lines 323-327 and 336). Times are natural numbers of
-- seconds. Loops over containers recurse on their lists; the loops that never end are given by
-- their rounds, for any number of rounds, so no fuel limits a result. The client library of the
-- broker is the record `Broker`, curl, the JSON library and the clock of the logger are the record
-- `Libraries`, and the calls of the operating system in `getLocalIp` are the record `System` of
-- Ip; nothing is assumed of them but where a theorem says so (`Starts`: the library starts each
-- producer and each consumer; where it does not, the source follows a null pointer). Whether the
-- library's `shutdown` of a consumer returns is a test `returns` on the consumer; the options, the
-- file system and the parser of the configuration are the record `Machine`. The protobuf library
-- is the record `Wire`, with the laws `IsWire` that it documents; the loop that reads a message is
-- on fuel, one for each field and one for the end, and the theorems say that six are enough for
-- the messages of this service. An `int32` of a request is its 32-bit pattern. The retry counter
-- stays below 7 and the logger's count below its bound, so neither overflows; the logger's error
-- count stops at ten.
--
-- Not modelled: what the server prints for its operator, but for the lines of `Run` and
-- `getLocalIp`; the stubs of gRPC and, of Proxy.pb.cc, what only calls the protobuf library; and the
-- headers of the broker's client library under include/, but for the two enumerations and the text
-- of an exception that the program reads (Broker).
pub mod Prelude
pub mod StdMap
pub mod QueueTs
pub mod MapTs
pub mod Message
pub mod Locker
pub mod Broker
pub mod Consumer
pub mod Proto
pub mod World
pub mod Worker
pub mod Calls
pub mod Ip
pub mod Clock
pub mod Matcher
pub mod Logger
pub mod Shutdown
pub mod Notify
pub mod Server
pub mod System
pub mod Start
pub mod Clients
pub mod Wire
pub mod Examples
