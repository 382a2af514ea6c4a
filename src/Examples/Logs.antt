-- ===== src/Examples/Logs.antt =====
-- Instances of the theorems on the logger.
use rocketmq_proxy.Prelude.{
  true, ◌<◌, List, [], ◌∷◌, ◌++◌, ◌/◌, ◌%◌, some, none, Option, Bytes, bytes, ◌≡◌, refl, flatten,
  arith, suc, ◌+◌, length, two_digits, decimal, digits,
}
use rocketmq_proxy.Clock.{time_text, get_time, time_array_size}
use rocketmq_proxy.Clock.Overrun.{get_time_overruns}
use rocketmq_proxy.World.{LogUnit}
use rocketmq_proxy.Logger.{
  Libraries, Errors, Logger, new, rounds, round, consume_one, append_entry, check_and_send_log,
  flush, bulk, after_bulk, write_file, entry,
}
use rocketmq_proxy.Logger.Conserved.{rounds_conserve, IsLog, written}
use rocketmq_proxy.Logger.Fallback.{GivenUp-forever, count_bounded}

-- A server that answers every other post with errors, and a clock of one second for each reading.
abbrev flaky : Libraries
flaky = record {
  curl_easy_init = λ post. true;
  perform = λ post request. some (request.url ∷ []);
  read_errors = λ ret. Errors.field true;
  write_json = λ unit now. unit.msg_id ++ now;
  time = λ reading. reading;
  localtime = λ now. record {
    tm_year = 120;
    tm_mon = 3;
    tm_mday = 17;
    tm_hour = now / 3600 % 24;
    tm_min = now / 60 % 60;
    tm_sec = now % 60;
  };
}

abbrev unit : Bytes → LogUnit
unit id = record {
  type = 1;
  msg_id = id;
  topic = bytes "t";
  group = bytes "g";
  body = bytes "b";
  delay_level = 0;
  status = 0;
}

abbrev two_rounds : List (List LogUnit)
two_rounds =
    (unit (bytes "m1") ∷ unit (bytes "m2") ∷ unit (bytes "m3") ∷ []) ∷ (unit (bytes "m4") ∷ []) ∷ []

abbrev logger : Logger
logger = new 2 (bytes "es") (bytes "user") (bytes "secret") true 0

abbrev or_start : Option Logger → Logger
or_start none = logger
or_start (some l) = l

abbrev at_end : Logger
at_end = or_start (rounds flaky logger two_rounds)

rounds_conserve_example :
    (s : Bytes) × IsLog flaky (flatten two_rounds) s
    × (written at_end ≡ written logger ++ s)
    × (at_end.log_file_opened ≡ true)
unfolding rounds round consume_one append_entry check_and_send_log flush bulk after_bulk write_file
    entry new
rounds_conserve_example = rounds_conserve flaky logger at_end two_rounds refl refl

abbrev given_up : Logger
given_up = record logger { es_error_count = 10 }

GivenUp-forever_example :
    (l' : Logger) × (rounds flaky given_up two_rounds ≡ some l')
    × (l'.posts ≡ given_up.posts)
    × (l'.es_error_count ≡ given_up.es_error_count)
    × (l'.es_error_max ≡ given_up.es_error_max)
unfolding new
GivenUp-forever_example = GivenUp-forever flaky given_up two_rounds (omega arith)

abbrev after_round : Logger
after_round = or_start (round flaky logger (unit (bytes "m1") ∷ unit (bytes "m2") ∷ []))

count_bounded_example : (after_round.count < after_round.max) × (after_round.max ≡ logger.max)
unfolding round consume_one append_entry check_and_send_log flush bulk after_bulk write_file entry
    new
count_bounded_example =
    count_bounded flaky logger after_round (unit (bytes "m1") ∷ unit (bytes "m2") ∷ [])
      (omega arith) refl

-- The time of 2020-04-17, whatever the clock says of the day.
get_time_overruns_example : suc (length (get_time flaky.localtime 3723 [])) ≡ time_array_size + 4
get_time_overruns_example = get_time_overruns flaky.localtime 3723 (omega arith)

time_example : time_text (flaky.localtime 32523) ≡ bytes "2020-04-17T09:02:03.000+0800"
unfolding time_text two_digits decimal digits
time_example = refl
