-- ===== src/Clients/ConsumeClient.antt =====
-- ConsumeClient.cpp: the client that fetches messages of a topic and acknowledges them.
use rocketmq_proxy.Prelude.{◌==◌, List, [], ◌∷◌, ◌++◌, Bytes, bytes, if◌then◌else◌}
use rocketmq_proxy.Proto.{ConsumeReply, ConsumeAckReply}
use rocketmq_proxy.Clients.{
  Rpc, replies, breaks, consumes, acknowledges, connects, calls, waits, exits, Run, pure, ends, act,
  ◌>>=◌, ◌>>◌, print_line, give_up,
}

-- The constructor's `msgId`.
abbrev pub new_msg_id : Bytes
new_msg_id = []

abbrev pub empty_msg_id : Bytes
empty_msg_id = []

-- What `Consume` does with the end of its call: the member `msgId` afterwards.
unfoldable pub consumed : Bytes → Rpc ConsumeReply → Run Bytes
unfolding give_up
consumed msg_id (replies reply) =
    if reply.code == 0
    then (do print_line (reply.msg_id ++ bytes " recieved!"); pure reply.msg_id)
    else (do print_line (bytes "error!:" ++ reply.error_msg); pure msg_id)
consumed msg_id (breaks code text) = give_up code text

unfoldable pub consume : Bytes → Bytes → Bytes → Rpc ConsumeReply → Run Bytes
unfolding consumed
consume msg_id topic group answer = do
  act (calls (consumes (record { topic = topic; consumer_group = group })))
  consumed msg_id answer

unfoldable pub acked : Bytes → Rpc ConsumeAckReply → Run (Unit {0})
unfolding give_up
acked msg_id (replies reply) =
    if reply.code == 0
    then print_line (msg_id ++ bytes " ack success!")
    else print_line reply.error_msg
acked msg_id (breaks code text) = give_up code text

-- `ConsumeAck`. The status 0 is set over the random one.
unfoldable pub consume_ack : Bytes → Bytes → Bytes → Rpc ConsumeAckReply → Run (Unit {0})
unfolding acked
consume_ack msg_id topic group answer = do
  act (
      calls (
        acknowledges
          (record { topic = topic; msg_id = msg_id; consumer_group = group; status = 0 })))
  acked msg_id answer

-- `if (client.msgId.size())`
unfoldable pub ack_if_any : Bytes → Bytes → Rpc ConsumeAckReply → Run (Unit {0})
unfolding consume_ack
ack_if_any topic [] answer = pure tt
ack_if_any topic (x ∷ xs) answer = consume_ack (x ∷ xs) topic topic answer

-- What the service answers in a round, if it is asked.
abbrev pub Answers : Type 0
Answers = Rpc ConsumeReply × Rpc ConsumeAckReply

-- A round of the loop: the member `msgId` afterwards.
unfoldable pub round : Bytes → Bytes → Answers → Run Bytes
unfolding consume ack_if_any
round topic msg_id (answer, ack_answer) = do
  msg_id' ← consume msg_id topic topic answer
  ack_if_any topic msg_id' ack_answer
  pure empty_msg_id

-- The loop, for the answers that have come.
unfoldable pub rounds : Bytes → Bytes → List Answers → Run (Unit {0})
rounds topic msg_id [] = ends waits
rounds topic msg_id (answers ∷ later) = do
  msg_id' ← round topic msg_id answers
  rounds topic msg_id' later

-- The prompt, in UTF-8.
abbrev prompt : Bytes
prompt =
    (0xE8 ∷ 0xBE ∷ 0x93 ∷ 0xE5 ∷ 0x85 ∷ 0xA5 ∷ [])
    ++ bytes "host topic"
    ++ (0xEF ∷ 0xBC ∷ 0x81 ∷ [])

-- `main`, for its arguments with the program's name first.
unfoldable pub main : List Bytes → List Answers → Run (Unit {0})
unfolding rounds
main (name ∷ host ∷ topic ∷ more) answers = do act (connects host); rounds topic new_msg_id answers
main _ answers = do print_line prompt; ends (exits 1)
