-- ===== src/Start/Configs.antt =====
-- Which configurations the server runs with.
use rocketmq_proxy.Prelude.{
  Bool, true, false, not, ◌&&◌, List, [], ◌∷◌, some, Bytes, bytes, is_some, arith, ◌≡◌,
}
use rocketmq_proxy.QueueTs.{is_empty}
use rocketmq_proxy.Start.{Json, Machine, Outcome, failed, runs, main, read_config}

-- All fields of a list are texts.
abbrev pub has_strings : Json → List Bytes → Bool
has_strings j [] = true
has_strings j (f ∷ fs) = is_some (j.get_string f) && has_strings j fs

abbrev pub string_fields : List Bytes
string_fields =
    bytes "nameServer"
    ∷ bytes "accessKey"
    ∷ bytes "secretKey"
    ∷ bytes "esServer"
    ∷ bytes "esUsername"
    ∷ bytes "esPassword"
    ∷ bytes "host"
    ∷ bytes "logFileName"
    ∷ []

abbrev pub is_running : Outcome → Bool
is_running (runs c) = true
is_running _ = false

abbrev pub is_failed : Outcome → Bool
is_failed failed = true
is_failed _ = false

-- With a file that can be read and parsed, the server runs exactly if each of the eight texts is
-- there, the address, the user and the password of Elasticsearch among them, and the port is a
-- number; else it ends with an error.
pub main_lem :
    (m : Machine) (j : Json)
    → is_empty (m.option_value (bytes "-f")) ≡ false
    → m.access (m.option_value (bytes "-f")) ≡ true
    → m.read_json (m.option_value (bytes "-f")) ≡ some j
    → let complete = has_strings j string_fields && is_some (j.get_int (bytes "port")) in
      (is_running (main m) ≡ complete) × (is_failed (main m) ≡ not complete)
unfolding main read_config
main_lem m j named there parsed = (ground arith, ground arith)
