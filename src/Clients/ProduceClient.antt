-- ===== src/Clients/ProduceClient.antt =====
-- ProduceClient.cpp: the client that sends a message a number of times.
use rocketmq_proxy.Prelude.{
  ℕ, zero, suc, ◌+◌, ◌-◌, ◌*◌, ltb, leb, ◌==◌, Bool, ◌&&◌, ◌||◌, List, [], ◌∷◌, ◌++◌, Option, none,
  some, Bytes, bytes, if◌then◌else◌,
}
use rocketmq_proxy.Proto.{ProduceReply}
use rocketmq_proxy.Clients.{
  Rpc, replies, breaks, produces, connects, calls, waits, uncaught, undefined, exits, Run, pure,
  ends, act, ◌>>=◌, ◌>>◌, print_line, give_up,
}

-- What `Produce` does with the end of its call. On an error reply it reaches its end without a
-- `return`.
unfoldable pub produced : Rpc ProduceReply → Run Bytes
unfolding give_up
produced (replies reply) =
    if reply.code == 0 then pure reply.msg_id else (do print_line reply.err_msg; ends undefined)
produced (breaks code text) = give_up code text

unfoldable pub produce : Bytes → Bytes → Bytes → Bytes → Rpc ProduceReply → Run Bytes
unfolding produced
produce topic group tag body answer = do
  act (
      calls (
        produces
          (record { topic = topic; group = group; tag = tag; body = body; delay_level = 0 })))
  produced answer

-- A whitespace character of the locale "C": tab, newline, vertical tab, form feed, carriage return
-- or space.
abbrev is_space : ℕ → Bool
is_space c = (leb 9 c && leb c 13) || c == 32

abbrev is_digit : ℕ → Bool
is_digit c = leb 48 c && leb c 57

-- The value of the digits at the head of a text, after `n`.
unfoldable pub digits_value : ℕ → Bytes → ℕ
digits_value n [] = n
digits_value n (c ∷ s) =
    let more = digits_value (n * 10 + (c - 48)) s in if is_digit c then more else n

-- The number at the head of a text that has no sign; `none` where there is no digit.
abbrev magnitude : Bytes → Option ℕ
magnitude [] = none
magnitude (c ∷ s) = if is_digit c then some (digits_value 0 (c ∷ s)) else none

-- An `int`, by its sign and its size.
abbrev in_range : ℕ → Option ℕ → Option ℕ
in_range limit none = none
in_range limit (some n) = if ltb limit n then none else some n

pub data Number : Type 0 where
  pos : ℕ → Number
  neg : ℕ → Number

abbrev signed : (ℕ → Number) → Option ℕ → Option Number
signed f none = none
signed f (some n) = some (f n)

abbrev stoi_sign : Bytes → Option Number
stoi_sign [] = none
stoi_sign (c ∷ s) =
    if c == 45
    then signed neg (in_range 2147483648 (magnitude s))
    else signed pos (in_range 2147483647 (magnitude (if c == 43 then s else c ∷ s)))

-- `std::stoi` of the library; `none` is `invalid_argument` or `out_of_range`.
unfoldable pub stoi : Bytes → Option Number
unfolding digits_value
stoi [] = none
stoi (c ∷ s) = let rest = stoi s in if is_space c then rest else stoi_sign (c ∷ s)

-- The number of rounds of `for (int i = 0; i < num; i++)`.
abbrev pub rounds_of : Number → ℕ
rounds_of (pos n) = n
rounds_of (neg n) = 0

abbrev pub tag : Bytes
tag = bytes "*"

-- The loop, by the rounds that are left, for the answers that have come.
unfoldable pub produce_loop : Bytes → Bytes → ℕ → List (Rpc ProduceReply) → Run (Unit {0})
unfolding produce
produce_loop topic body zero answers = pure tt
produce_loop topic body (suc n) [] = ends waits
produce_loop topic body (suc n) (answer ∷ later) = do
  reply ← produce topic topic tag body answer
  print_line (bytes "received: " ++ reply)
  produce_loop topic body n later

-- The prompt, in UTF-8.
abbrev prompt : Bytes
prompt =
    (0xE8 ∷ 0xBE ∷ 0x93 ∷ 0xE5 ∷ 0x85 ∷ 0xA5 ∷ [])
    ++ bytes "host topic body num"
    ++ (0xEF ∷ 0xBC ∷ 0x81 ∷ [])

-- `num`, by the arguments after the first three.
unfoldable pub read_num : List Bytes → Run Number
unfolding stoi
read_num [] = pure (pos 1)
read_num (num_str ∷ more) = elim (stoi num_str) [ none ↦ ends uncaught | some n ↦ pure n ]

-- `main`, for its arguments with the program's name first: the process ends with 0 at its end.
unfoldable pub main : List Bytes → List (Rpc ProduceReply) → Run (Unit {0})
unfolding produce_loop read_num
main (name ∷ host ∷ topic ∷ body ∷ more) answers = do
  num ← read_num more
  act (connects host)
  produce_loop topic body (rounds_of num) answers
main _ answers = do print_line prompt; ends (exits 1)
