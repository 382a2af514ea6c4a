-- ===== src/Clients/ConsumeClientSleep.antt =====
-- ConsumeClientSleep.cpp: the consuming client with a pause before each acknowledgement.
use rocketmq_proxy.Prelude.{◌==◌, List, [], ◌∷◌, ◌++◌, Bytes, bytes, if◌then◌else◌}
use rocketmq_proxy.Proto.{ConsumeReply, ConsumeAckReply}
use rocketmq_proxy.Clients.{
  Rpc, replies, breaks, consumes, acknowledges, connects, calls, sleeps, waits, Run, pure, ends,
  act, ◌>>=◌, ◌>>◌, print_line, give_up,
}

-- The constructor's `msgId`.
abbrev pub new_msg_id : Bytes
new_msg_id = []

abbrev pub empty_msg_id : Bytes
empty_msg_id = []

-- What `Consume` does with the end of its call: the member `msgId` afterwards.
unfoldable pub consumed : Bytes → Rpc ConsumeReply → Run Bytes
unfolding give_up
consumed msg_id (replies reply) =
    if reply.code == 0
    then pure reply.msg_id
    else (do print_line (bytes "error!:" ++ reply.error_msg); pure msg_id)
consumed msg_id (breaks code text) = give_up code text

unfoldable pub consume : Bytes → Bytes → Bytes → Rpc ConsumeReply → Run Bytes
unfolding consumed
consume msg_id topic group answer = do
  act (calls (consumes (record { topic = topic; consumer_group = group })))
  consumed msg_id answer

unfoldable pub acked : Bytes → Rpc ConsumeAckReply → Run (Unit {0})
unfolding give_up
acked msg_id (replies reply) =
    if reply.code == 0
    then print_line (msg_id ++ bytes " ack success!")
    else print_line reply.error_msg
acked msg_id (breaks code text) = give_up code text

-- `ConsumeAck`. The status keeps its default 0.
unfoldable pub consume_ack : Bytes → Bytes → Bytes → Rpc ConsumeAckReply → Run (Unit {0})
unfolding acked
consume_ack msg_id topic group answer = do
  act (
      calls (
        acknowledges
          (record { topic = topic; msg_id = msg_id; consumer_group = group; status = 0 })))
  acked msg_id answer

abbrev pub test_topic : Bytes
test_topic = bytes "test-topic"

-- `if (client.msgId.size())`
unfoldable pub ack_if_any : Bytes → Rpc ConsumeAckReply → Run (Unit {0})
unfolding consume_ack
ack_if_any [] answer = pure tt
ack_if_any (x ∷ xs) answer = consume_ack (x ∷ xs) test_topic test_topic answer

-- A round of the loop: the member `msgId` afterwards.
unfoldable pub round : Bytes → Rpc ConsumeReply × Rpc ConsumeAckReply → Run Bytes
unfolding consume ack_if_any
round msg_id (answer, ack_answer) = do
  msg_id' ← consume msg_id test_topic test_topic answer
  act (sleeps 20)
  ack_if_any msg_id' ack_answer
  pure empty_msg_id

-- The loop, for the answers that have come.
unfoldable pub rounds : Bytes → List (Rpc ConsumeReply × Rpc ConsumeAckReply) → Run (Unit {0})
rounds msg_id [] = ends waits
rounds msg_id (answers ∷ later) = do msg_id' ← round msg_id answers; rounds msg_id' later

-- `main`, which reads no arguments.
unfoldable pub main : List (Rpc ConsumeReply × Rpc ConsumeAckReply) → Run (Unit {0})
unfolding rounds
main answers = do act (connects (bytes "127.0.0.1:8090")); rounds new_msg_id answers
