-- ===== src/Worker/Threads.antt =====
-- MsgWorker.h: the threads that `runAll` starts, and the logger that `setLogger` gives the first.
use rocketmq_proxy.Prelude.{ℕ, List, [], ◌∷◌, ◌++◌, Option, some}

-- A thread, by the method that it runs. The logger's is called on the pointer that the worker holds
-- when the thread is made; `none` is a pointer that nothing set.
pub data Thread : Type 0 where
  loop_consume_log : Option ℕ → Thread
  loop_match notify_timeout shutdown_consumer clear_msg_for_consumer : Thread

-- The worker's `logger`, and the threads that were started.
pub record Starting : Type 0 where
  pub logger : Option ℕ
  pub threads : List Thread

abbrev pub set_logger : ℕ → Starting → Starting
set_logger log s = record s { logger = some log }

abbrev starts : Thread → Starting → Starting
starts t s = record s { threads = s.threads ++ t ∷ [] }

abbrev pub start_logger : Starting → Starting
start_logger s = starts (loop_consume_log s.logger) s

abbrev pub start_matcher : Starting → Starting
start_matcher s = starts loop_match s

abbrev pub start_notify_timeout : Starting → Starting
start_notify_timeout s = starts notify_timeout s

abbrev pub start_shutdown_consumer : Starting → Starting
start_shutdown_consumer s = starts shutdown_consumer s

abbrev pub start_clear_msg_for_consumer : Starting → Starting
start_clear_msg_for_consumer s = starts clear_msg_for_consumer s

unfoldable pub run_all : Starting → Starting
run_all s =
    start_clear_msg_for_consumer
      (start_shutdown_consumer (start_notify_timeout (start_matcher (start_logger s))))
