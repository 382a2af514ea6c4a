-- ===== src/Start.antt =====
-- Server.cpp: `main`, which reads the configuration and starts the threads. The file system, the
-- parser of JSON and the options (Arg_helper.h, of the client library) are parameters.
pub mod Configs
use rocketmq_proxy.Prelude.{
  ℕ, Bool, true, false, not, ◌||◌, List, [], ◌∷◌, Option, none, some, Bytes, bytes, if◌then◌else◌,
}
use rocketmq_proxy.QueueTs.{is_empty}
use rocketmq_proxy.World.{World}
use rocketmq_proxy.Worker.{set_config}
use rocketmq_proxy.Ip.{System}
use rocketmq_proxy.Logger
use rocketmq_proxy.Server
use rocketmq_proxy.Logger.{Logger}

-- The fields of a JSON object as `get<string>` and `get<int>` read them: `none` where they throw.
pub record Json : Type 0 where
  pub get_string : Bytes → Option Bytes
  pub get_int : Bytes → Option ℕ

-- The option `-f`, whether a file can be accessed, and its content as `read_json` parses it, or
-- `none` where that throws.
pub record Machine : Type 0 where
  pub option_value : Bytes → Bytes
  pub access : Bytes → Bool
  pub read_json : Bytes → Option Json

-- The locals of `main` that the configuration sets.
pub record Config : Type 0 where
  pub name_server : Bytes
  pub access_key : Bytes
  pub secret_key : Bytes
  pub es_server : Bytes
  pub es_username : Bytes
  pub es_password : Bytes
  pub host : Bytes
  pub log_file_name : Bytes
  pub port : ℕ

infixl 5 ◌>>=◌
abbrev pub ◌>>=◌ {ℓ κ} : {A : Type ℓ} {B : Type κ} → Option A → (A → Option B) → Option B
none >>= f = none
some a >>= f = f a

-- The body of the `try`. The field "esServer" is read twice.
unfoldable pub read_config : Json → Option Config
read_config j = do
  name_server ← j.get_string (bytes "nameServer")
  access_key ← j.get_string (bytes "accessKey")
  secret_key ← j.get_string (bytes "secretKey")
  _ ← j.get_string (bytes "esServer")
  es_server ← j.get_string (bytes "esServer")
  es_username ← j.get_string (bytes "esUsername")
  es_password ← j.get_string (bytes "esPassword")
  host ← j.get_string (bytes "host")
  log_file_name ← j.get_string (bytes "logFileName")
  port ← j.get_int (bytes "port")
  some (record {
    name_server = name_server;
    access_key = access_key;
    secret_key = secret_key;
    es_server = es_server;
    es_username = es_username;
    es_password = es_password;
    host = host;
    log_file_name = log_file_name;
    port = port;
  })

-- How `main` goes on: it ends with the usage, it ends with an error, or the server runs with a
-- configuration.
pub data Outcome : Type 0 where
  usage failed : Outcome
  runs : Config → Outcome

abbrev pub by_config : Option Config → Outcome
by_config none = failed
by_config (some c) = runs c

unfoldable pub main : Machine → Outcome
unfolding read_config
main m =
    let file = m.option_value (bytes "-f") in
    if is_empty file || not (m.access file)
    then usage
    else by_config (m.read_json file >>= read_config)

-- `setConfig` with what was read. The channel is always the same.
unfoldable pub configure : Config → World → World
configure c w = set_config c.name_server c.access_key c.secret_key (bytes "channel") w

-- The logger that `main` makes, which sends after a hundred entries.
unfoldable pub make_logger : Config → System → (Bytes → Bool) → Bytes → ℕ → Option Logger
make_logger c os fopen ip now =
    Logger.construct os fopen ip c.es_server c.es_username c.es_password c.log_file_name 100 now

-- The server that `main` makes.
unfoldable pub make_server : Config → Server.ServerImpl
make_server c = Server.new c.host c.port c.name_server c.access_key c.secret_key (bytes "channel")
