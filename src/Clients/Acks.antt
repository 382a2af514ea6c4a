-- ===== src/Clients/Acks.antt =====
-- What the consuming clients acknowledge.
use rocketmq_proxy.Prelude.{◌==◌, List, [], ◌∷◌, Bytes, if◌then◌else◌, arith, ◌≡◌, refl, map}
use rocketmq_proxy.Proto.{ConsumeAckRequest, ConsumeAckReply}
use rocketmq_proxy.Clients.{Rpc, replies, breaks, acknowledges, Act, calls}
use rocketmq_proxy.Clients.ConsumeClient
use rocketmq_proxy.Clients.ConsumeClient.{Answers}
use rocketmq_proxy.Clients.ConsumeClientSleep

-- The acknowledgements among what a program does.
unfoldable pub acks_among : List Act → List ConsumeAckRequest
acks_among [] = []
acks_among (calls (acknowledges r) ∷ acts) = r ∷ acks_among acts
acks_among (_ ∷ acts) = acks_among acts

-- The id that a reply hands out, if its code is 0 and the id is not empty, and those of the later
-- rounds, unless the call of its acknowledgement breaks.
abbrev then_handed : Bytes → Rpc ConsumeAckReply → List Bytes → List Bytes
then_handed [] r later = later
then_handed (x ∷ xs) (replies _) later = (x ∷ xs) ∷ later
then_handed (x ∷ xs) (breaks _ _) later = (x ∷ xs) ∷ []

-- The message ids that the service hands out, until a call that is made breaks.
unfoldable pub handed_out : List Answers → List Bytes
handed_out [] = []
handed_out ((breaks _ _, r) ∷ rs) = []
handed_out ((replies reply, r) ∷ rs) =
    then_handed (if reply.code == 0 then reply.msg_id else []) r (handed_out rs)

abbrev pub ack_request : Bytes → Bytes → ConsumeAckRequest
ack_request topic msg_id = record {
  topic = topic;
  msg_id = msg_id;
  consumer_group = topic;
  status = 0;
}

rounds-acks :
    (topic : Bytes) (rs : List Answers)
    → acks_among (ConsumeClient.rounds topic [] rs).0 ≡ map (ack_request topic) (handed_out rs)
unfolding ConsumeClient.rounds ConsumeClient.round acks_among handed_out
rounds-acks topic [] = refl
rounds-acks topic ((breaks c t, r) ∷ rs) = refl
rounds-acks topic ((replies reply, replies r) ∷ rs) = ground (arith, rounds-acks topic rs)
rounds-acks topic ((replies reply, breaks c t) ∷ rs) = ground (arith, rounds-acks topic rs)

rounds_sleep-acks :
    (rs : List Answers)
    → acks_among (ConsumeClientSleep.rounds [] rs).0
      ≡ map (ack_request ConsumeClientSleep.test_topic) (handed_out rs)
unfolding ConsumeClientSleep.rounds ConsumeClientSleep.round acks_among handed_out
rounds_sleep-acks [] = refl
rounds_sleep-acks ((breaks c t, r) ∷ rs) = refl
rounds_sleep-acks ((replies reply, replies r) ∷ rs) = ground (arith, rounds_sleep-acks rs)
rounds_sleep-acks ((replies reply, breaks c t) ∷ rs) = ground (arith, rounds_sleep-acks rs)

-- Whatever the service answers: each of the two consuming clients, where it is given a host and a
-- topic if it reads them, acknowledges each message that it is handed, once, in order and with the
-- status 0, under its topic, and acknowledges nothing else.
pub client_acks :
    (name host topic : Bytes) (more : List Bytes) (rs : List Answers)
    → (acks_among (ConsumeClient.main (name ∷ host ∷ topic ∷ more) rs).0
        ≡ map (ack_request topic) (handed_out rs))
      × (acks_among (ConsumeClientSleep.main rs).0
          ≡ map (ack_request ConsumeClientSleep.test_topic) (handed_out rs))
unfolding ConsumeClient.main ConsumeClientSleep.main acks_among
client_acks name host topic more rs =
    (ground (arith, rounds-acks topic rs), ground (arith, rounds_sleep-acks rs))
