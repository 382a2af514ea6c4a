-- ===== src/Examples/Clients.antt =====
-- Instances of the theorems on the sample clients.
use rocketmq_proxy.Prelude.{
  List, [], ◌∷◌, ◌++◌, suc, bytes, decimal, length, ◌+◌, ◌≡◌, refl, map, arith,
}
use rocketmq_proxy.Proto.{ProduceReply}
use rocketmq_proxy.Clients.{replies, breaks, connects, calls, produces, prints, returns, undefined}
use rocketmq_proxy.Clients.ConsumeClient
use rocketmq_proxy.Clients.ConsumeClient.{Answers}
use rocketmq_proxy.Clients.ConsumeClientSleep
use rocketmq_proxy.Clients.ProduceClient
use rocketmq_proxy.Clients.Acks.{client_acks, acks_among, handed_out, ack_request}
use rocketmq_proxy.Clients.Produces.{client_sends, request, sent}

-- A message, a timeout, a message whose acknowledgement breaks, and an answer that is not asked for.
abbrev answers : List Answers
answers =
    (
      replies (record { code = 0; msg_id = bytes "m1"; body = []; error_msg = [] }),
      replies (record { code = 0; msg_id = []; error_msg = bytes "msg ack succ!" }),
    )
    ∷ (
      replies (record { code = 1000; msg_id = []; body = []; error_msg = [] }),
      breaks 14 (bytes "Connection reset"),
    )
    ∷ (
      replies (record { code = 0; msg_id = bytes "m2"; body = []; error_msg = [] }),
      breaks 14 (bytes "Connection reset"),
    )
    ∷ (
      replies (record { code = 0; msg_id = bytes "m3"; body = []; error_msg = [] }),
      breaks 14 (bytes "Connection reset"),
    )
    ∷ []

handed : handed_out answers ≡ bytes "m1" ∷ bytes "m2" ∷ []
unfolding handed_out
handed = refl

client_acks_example :
    (acks_among
        (ConsumeClient.main (bytes "client" ∷ bytes "127.0.0.1:8090" ∷ bytes "t" ∷ []) answers).0
      ≡ map (ack_request (bytes "t")) (handed_out answers))
    × (acks_among (ConsumeClientSleep.main answers).0
        ≡ map (ack_request ConsumeClientSleep.test_topic) (handed_out answers))
client_acks_example = client_acks (bytes "client") (bytes "127.0.0.1:8090") (bytes "t") [] answers

abbrev accepted : List ProduceReply
accepted =
    (record { code = 0; msg_id = bytes "m1"; err_msg = [] })
    ∷ (record { code = 0; msg_id = bytes "m2"; err_msg = [] })
    ∷ []

abbrev refused : ProduceReply
refused = record { code = 1; msg_id = []; err_msg = bytes "no route" }

client_sends_example :
    (ProduceClient.main
        (bytes "client" ∷ bytes "h" ∷ bytes "t" ∷ bytes "b" ∷ decimal (length accepted) ∷ [])
        (map replies accepted)
      ≡ (connects (bytes "h") ∷ sent (bytes "t") (bytes "b") accepted, returns tt))
    × (ProduceClient.main
          (bytes "client"
            ∷ bytes "h"
            ∷ bytes "t"
            ∷ bytes "b"
            ∷ decimal (suc (length accepted + 3))
            ∷ [])
          (map replies accepted ++ replies refused ∷ [])
        ≡ (
          connects (bytes "h")
              ∷ (sent (bytes "t") (bytes "b") accepted
                  ++ calls (produces (request (bytes "t") (bytes "b")))
                    ∷ prints (bytes "no route" ++ bytes "\n")
                    ∷ []),
          undefined,
        ))
client_sends_example =
    client_sends (bytes "client") (bytes "h") (bytes "t") (bytes "b") accepted 3 refused
      (omega arith) (omega arith) (omega arith)
