-- ===== src/Logger.antt =====
-- ProxyLogger.cpp: `loopConsumeLog`, which collects the queue's entries and sends them to
-- Elasticsearch in bulk, or to the log file. curl, the JSON library and the clock are parameters.
pub mod Conserved
pub mod Fallback
pub mod Opened
use rocketmq_proxy.Prelude.{
  ℕ, ◌+◌, ◌-◌, ◌*◌, ◌%◌, ◌^◌, zero, suc, length, take, leb, ltb, not, Bool, true, false, ◌&&◌, ◌||◌,
  List, [], ◌∷◌, ◌++◌, Option, none, some, Bytes, bytes, if◌then◌else◌,
}
use rocketmq_proxy.QueueTs
use rocketmq_proxy.QueueTs.{QueueTs, is_empty}
use rocketmq_proxy.Ip.{System, get_local_ip}
use rocketmq_proxy.Clock.{Tm, get_time}
use rocketmq_proxy.World.{LogUnit}

-- What the libraries do. `curl_easy_init` yields a handle or not; `perform` posts data to an
-- address, with the pieces of the response if curl succeeds; `read_errors` parses a response: it
-- throws, or there is no field "errors", or it has a value. `write_json` is the text of an entry
-- with its time.
pub data Errors : Type 0 where
  throws no_field : Errors
  field : Bool → Errors

-- The options that `bulk` sets on the handle.
pub record Post : Type 0 where
  pub url : Bytes
  pub text : Bytes
  pub username : Bytes
  pub password : Bytes

pub record Libraries : Type 0 where
  pub curl_easy_init : ℕ → Bool
  pub perform : ℕ → Post → Option (List Bytes)
  pub read_errors : Bytes → Errors
  pub write_json : LogUnit → Bytes → Bytes
  pub time : ℕ → ℕ
  pub localtime : ℕ → Tm

-- Where data went.
pub data Sink : Type 0 where
  es file : Sink

-- The members that the loop uses and its locals `count`, `data` and `lastTime`. `reads` counts the
-- readings of the clock, and `posts` the calls of `bulk`; `outs` is what was accepted or written.
pub record Logger : Type 0 where
  pub max : ℕ
  pub host : Bytes
  pub es_username : Bytes
  pub es_password : Bytes
  pub log_file_opened : Bool
  pub es_error_count : ℕ
  pub es_error_max : ℕ
  pub count : ℕ
  pub text : Bytes
  pub last_time : ℕ
  pub reads : ℕ
  pub posts : ℕ
  pub outs : List (Sink × Bytes)

-- The constructor's members, with whether `fopen` succeeded, and the loop's first locals.
unfoldable pub new : ℕ → Bytes → Bytes → Bytes → Bool → ℕ → Logger
new max host username password opened now = record {
  max = max;
  host = host;
  es_username = username;
  es_password = password;
  log_file_opened = opened;
  es_error_count = 0;
  es_error_max = 10;
  count = 0;
  text = [];
  last_time = now;
  reads = 0;
  posts = 0;
  outs = [];
}

-- The text in an array, up to its first 0; `none` is a read past the end of the array.
unfoldable pub c_str : Bytes → Option Bytes
c_str [] = none
c_str (zero ∷ s) = some []
c_str (suc c ∷ s) = elim (c_str s) [ none ↦ none | some t ↦ some (suc c ∷ t) ]

-- The constructor. `ip` is what the array holds at first, which nothing sets; `fopen` says which
-- files can be opened. The lines that are printed are left out.
unfoldable pub construct :
    System → (Bytes → Bool) → Bytes → Bytes → Bytes → Bytes → Bytes → ℕ → ℕ → Option Logger
unfolding new c_str
construct os fopen ip host username password log_file_name max now =
    elim (c_str (get_local_ip os (bytes "eth0") ip 16).ip) [
      | none ↦ none
      | some address ↦
          some
            (new max host username password (fopen (log_file_name ++ (bytes "_" ++ address))) now)
    ]

-- `writeLog`: the unit goes to the logger's queue.
unfoldable pub write_log :
    ℕ → Bytes → Bytes → Bytes → Bytes → ℕ → ℕ → QueueTs LogUnit → QueueTs LogUnit
write_log type msg_id topic group body delay_level status log_queue =
    QueueTs.push log_queue (record {
      type = type;
      msg_id = msg_id;
      topic = topic;
      group = group;
      body = body;
      delay_level = delay_level;
      status = status;
    })

-- `writeData`, which curl calls for each piece of the response, of less than 2^31 bytes: the number
-- of its bytes, as an `int`, and the text with them.
unfoldable pub write_data : Bytes → ℕ → ℕ → Bytes → ℕ × Bytes
write_data piece size nmemb str =
    let numbytes = size * nmemb % 2 ^ 32 in (numbytes, str ++ take numbytes piece)

-- The text after the pieces of a response. The size that curl gives is always 1.
unfoldable pub received : List Bytes → Bytes → Bytes
unfolding write_data
received [] str = str
received (piece ∷ pieces) str = received pieces (write_data piece 1 (length piece) str).1

-- `none` is an exception, which nothing catches.
abbrev pub accepted : Errors → Option Bool
accepted throws = none
accepted no_field = some false
accepted (field has_error) = some (not has_error)

unfoldable pub on_response : Libraries → Option (List Bytes) → Option Bool
unfolding received
on_response lib none = some false
on_response lib (some pieces) = accepted (lib.read_errors (received pieces []))

-- `bulk`: whether the server took the data.
unfoldable pub bulk : Libraries → Logger → Bytes → Bytes → Option Bool
unfolding on_response
bulk lib l url text =
    if lib.curl_easy_init l.posts
    then on_response lib (
        lib.perform l.posts
          (record { url = url; text = text; username = l.es_username; password = l.es_password }))
    else some false

-- `logFileOpened && fwrite(...)`
unfoldable pub write_file : Logger → Logger
write_file l = if l.log_file_opened then record l { outs = l.outs ++ (file, l.text) ∷ [] } else l

-- The branches on the result of `bulk`.
unfoldable pub after_bulk : Logger → Option Bool → Option Logger
unfolding write_file
after_bulk l none = none
after_bulk l (some true) =
    some (record l { posts = suc l.posts; outs = l.outs ++ (es, l.text) ∷ [] })
after_bulk l (some false) =
    let l' = write_file l in
    some (record l' { posts = suc l.posts; es_error_count = l.es_error_count + 1 })

unfoldable pub flush : Libraries → Logger → Option Logger
unfolding write_file after_bulk
flush lib l =
    if leb l.es_error_max l.es_error_count
    then some (write_file l)
    else after_bulk l (bulk lib l (l.host ++ bytes "/_bulk") l.text)

-- The locals after a flush.
abbrev pub restart : Libraries → Logger → Logger
restart lib l = record l { text = []; count = 0; last_time = lib.time l.reads; reads = suc l.reads }

abbrev pub restart? : Libraries → Option Logger → Option Logger
restart? lib none = none
restart? lib (some l) = some (restart lib l)

-- The test of `checkAndSendLog`: enough entries, or some bytes and more than a second.
abbrev pub is_due : Libraries → Logger → Bool
is_due lib l =
    leb l.max l.count || (ltb 1 (lib.time l.reads - l.last_time) && not (is_empty l.text))

-- The test reads the clock only where the count does not decide it.
abbrev pub tested : Logger → Logger
tested l = if leb l.max l.count then l else record l { reads = suc l.reads }

unfoldable pub check_and_send_log : Libraries → Logger → Option Logger
check_and_send_log lib l =
    if is_due lib l then restart? lib (flush lib (tested l)) else some (tested l)

abbrev pub init : Bytes
init = bytes "{ \"index\": { \"_index\": \"msg\", \"_type\": \"msg\"}}\n"

-- The two lines of an entry.
unfoldable pub entry : Libraries → LogUnit → ℕ → Bytes
unfolding get_time
entry lib unit now = init ++ (lib.write_json unit (get_time lib.localtime now []) ++ bytes "\n")

-- The inner loop's body up to the check.
unfoldable pub append_entry : Libraries → Logger → LogUnit → Logger
append_entry lib l unit = record l {
  text = l.text ++ entry lib unit (lib.time l.reads);
  count = l.count + 1;
  reads = suc l.reads;
}

unfoldable pub consume_one : Libraries → Logger → LogUnit → Option Logger
unfolding append_entry
consume_one lib l unit = check_and_send_log lib (append_entry lib l unit)

-- The inner loop, for the entries that the queue hands out before it is found empty, and the check
-- behind it: one round of the outer loop.
unfoldable pub round : Libraries → Logger → List LogUnit → Option Logger
unfolding consume_one
round lib l [] = check_and_send_log lib l
round lib l (unit ∷ units) = elim (consume_one lib l unit) [
  | none ↦ none
  | some l' ↦ round lib l' units
]

-- The outer loop, for the entries of each round.
unfoldable pub rounds : Libraries → Logger → List (List LogUnit) → Option Logger
rounds lib l [] = some l
rounds lib l (units ∷ more) = elim (round lib l units) [
  | none ↦ none
  | some l' ↦ rounds lib l' more
]
