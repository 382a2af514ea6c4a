-- ===== src/Examples/Starts.antt =====
-- Instances of the theorems on the start, the event loop and the clients.
use rocketmq_proxy.Message.{reconsume_later}
use rocketmq_proxy.Locker.History.{step, acks}
use rocketmq_proxy.Consumer.Recorded.{AckedIn}
use rocketmq_proxy.Consumer.Routing.{each}
use rocketmq_proxy.Prelude.{
  All, true, false, not, ◌&&◌, [], ◌∷◌, some, Bytes, bytes, bytes_less, is_some, ◌≡◌, refl, same,
  lex_less, set,
}
use rocketmq_proxy.StdMap
use rocketmq_proxy.StdMap.{Map}
use rocketmq_proxy.MapTs
use rocketmq_proxy.Start.{Json, Machine, main, read_config}
use rocketmq_proxy.Start.Configs.{main_lem, has_strings, string_fields, is_running, is_failed}
use rocketmq_proxy.World.{World, ok, finish, ConsumeCallData}
use rocketmq_proxy.Calls.{request_consume}
use rocketmq_proxy.Server.{handle}
use rocketmq_proxy.Server.Ends.{handle_consume_gone}
use rocketmq_proxy.Examples.{late_broker, busy_unit, delivered_unit, consuming, consume_call}

-- The configuration that README.md gives.
abbrev readme_fields : Map Bytes Bytes
readme_fields =
    (bytes "host", bytes "127.0.0.1")
    ∷ (bytes "accessKey", bytes "XXXXXXX")
    ∷ (bytes "secretKey", bytes "XXXXX")
    ∷ (bytes "nameServer", bytes "XXXXXXX")
    ∷ (bytes "esServer", bytes "http://es.AAAA.com:9200")
    ∷ (bytes "logFileName", bytes "/root/es.log")
    ∷ []

abbrev readme_json : Json
readme_json = record { get_string = λ f. StdMap.find f readme_fields; get_int = λ f. some 8080 }

abbrev machine : Machine
machine = record {
  option_value = λ o. bytes "server.json";
  access = λ file. true;
  read_json = λ file. some readme_json;
}

-- The server ends with it.
readme_fails : is_failed (main machine) ≡ true
unfolding main read_config StdMap.find same lex_less
readme_fails = refl

main_lem_example :
    let complete =
      has_strings readme_json string_fields && is_some (readme_json.get_int (bytes "port")) in
    (is_running (main machine) ≡ complete) × (is_failed (main machine) ≡ not complete)
main_lem_example = main_lem machine readme_json refl refl refl

abbrev answered_call : ConsumeCallData
answered_call = record consume_call { status = finish; msg_id = bytes "m1" }

abbrev unreached : World
unreached = record (consuming busy_unit delivered_unit) {
  consume_calls = answered_call ∷ [];
  id_unit_map = record { the_map = (bytes "m1", 0) ∷ [] };
}

handle_consume_gone_example :
    let acked = each (λ l. step l (acks (bytes "m1") reconsume_later)) busy_unit.lockers in
    (handle late_broker (record { type_ = request_consume; address = 0 }) false unreached
      ≡ ok (
        tt,
        record unreached {
          consumer_units = set unreached.consumer_units 0 (record busy_unit { lockers = acked });
          id_unit_map = MapTs.erase unreached.id_unit_map (bytes "m1");
          consume_calls =
              set unreached.consume_calls 0
                (record answered_call { status = finish; deleted = true });
        },
      ))
    × All (λ e. AckedIn (bytes "m1") reconsume_later e.1) acked
unfolding MapTs.try_get StdMap.find same lex_less
handle_consume_gone_example =
    handle_consume_gone late_broker unreached 0 0 109 (bytes "1") answered_call busy_unit refl refl
      refl refl refl
