-- ===== src/Clock.antt =====
-- ProxyLogger.cpp: `getTime`, the time of a log entry as text. `localtime` is a parameter.
pub mod Overrun
use rocketmq_proxy.Prelude.{ℕ, ◌+◌, ◌++◌, Bytes, bytes, decimal, two_digits}

-- The fields of `tm` that are read. A year counts from 1900, a month from 0; no time of the log is
-- before 1900.
pub record Tm : Type 0 where
  pub tm_year : ℕ
  pub tm_mon : ℕ
  pub tm_mday : ℕ
  pub tm_hour : ℕ
  pub tm_min : ℕ
  pub tm_sec : ℕ

-- What `sprintf` prints into `t`, before the closing 0.
unfoldable pub time_text : Tm → Bytes
time_text ltm =
    decimal (1900 + ltm.tm_year)
    ++ (bytes "-"
        ++ (two_digits (1 + ltm.tm_mon)
            ++ (bytes "-"
                ++ (two_digits ltm.tm_mday
                    ++ (bytes "T"
                        ++ (two_digits ltm.tm_hour
                            ++ (bytes ":"
                                ++ (two_digits ltm.tm_min
                                    ++ (bytes ":"
                                        ++ (two_digits ltm.tm_sec ++ bytes ".000+0800"))))))))))

-- The size of the array `t`.
abbrev pub time_array_size : ℕ
time_array_size = 25

-- `getTime` at a time. The text is the one that is printed, whether it fits into `t` or not.
unfoldable pub get_time : (ℕ → Tm) → ℕ → Bytes → Bytes
unfolding time_text
get_time localtime now time_str = time_str ++ time_text (localtime (now + 28800))
