-- ===== src/Clients/Produces.antt =====
-- What the producing client sends: the number that it is given is read back, and the loop sends
-- that many messages.
use rocketmq_proxy.Prelude.{
  ℕ, zero, suc, ◌+◌, ◌-◌, ◌*◌, ◌/◌, ◌%◌, ◌<◌, ◌≤◌, ltb, digits, decimal, List, [], ◌∷◌, ◌++◌, some,
  Bytes, bytes, All, length, ◌≢◌, arith, Bool-cases, inl, inr, ◌≡◌, refl, ◌∙◌, ap, map,
}
use rocketmq_proxy.Proto.{ProduceRequest, ProduceReply}
use rocketmq_proxy.Clients.{
  Rpc, replies, produces, Act, connects, calls, prints, returns, undefined,
}
use rocketmq_proxy.Clients.ProduceClient.{
  digits_value, stoi, pos, read_num, produce_loop, tag, main,
}

abbrev IsDigit : ℕ → Type 0
IsDigit c = (48 ≤ c) × (c < 58)

-- A first digit of `out` is read after `n` by the digits of a number that is printed before `out`.
digits_value-digit :
    (n c : ℕ) (s : Bytes) → IsDigit c → digits_value n (c ∷ s) ≡ digits_value (n * 10 + (c - 48)) s
unfolding digits_value
digits_value-digit n c s h = ground arith

digits_value-step :
    (n c m : ℕ) (s : Bytes)
    → IsDigit c
    → n * 10 + (c - 48) ≡ m
    → digits_value n (c ∷ s) ≡ digits_value m s
digits_value-step n c m s h e = digits_value-digit n c s h ∙ ap (λ k. digits_value k s) e

-- A printed number reads as the number.
digits_value-digits :
    (f n : ℕ) (out : Bytes) → n ≤ f → digits_value 0 (digits f n out) ≡ digits_value n out
unfolding digits
digits_value-digits zero n out h =
    digits_value-step 0 (48 + n % 10) n out (omega arith) (omega arith)
digits_value-digits (suc f) n out h = elim (Bool-cases (ltb n 10)) [
  | inl small ↦ rw small (digits_value-step 0 (48 + n) n out (ground arith) (omega arith))
  | inr large ↦ rw large (
      digits_value-digits f (n / 10) ((48 + n % 10) ∷ out) (ground arith)
      ∙ digits_value-step (n / 10) (48 + n % 10) n out (omega arith) (omega arith))
]

abbrev StartsWithDigit : Bytes → Type 0
StartsWithDigit [] = ⊥
StartsWithDigit (c ∷ s) = IsDigit c

digits-StartsWithDigit : (f n : ℕ) (out : Bytes) → StartsWithDigit (digits f n out)
unfolding digits
digits-StartsWithDigit zero n out = omega arith
digits-StartsWithDigit (suc f) n out = elim (Bool-cases (ltb n 10)) [
  | inl small ↦ rw small (ground arith)
  | inr large ↦ rw large (digits-StartsWithDigit f (n / 10) ((48 + n % 10) ∷ out))
]

stoi-digit :
    (s : Bytes)
    → StartsWithDigit s
    → digits_value 0 s < 2147483648
    → stoi s ≡ some (pos (digits_value 0 s))
unfolding stoi
stoi-digit [] h small = absurd h
stoi-digit (c ∷ s) h small = ground arith

digits_value-decimal : (n : ℕ) → digits_value 0 (decimal n) ≡ n
unfolding decimal digits_value
digits_value-decimal n = digits_value-digits n n [] (omega arith)

-- `stoi` reads what `<<` prints.
stoi-decimal : (n : ℕ) → n < 2147483648 → stoi (decimal n) ≡ some (pos n)
unfolding decimal
stoi-decimal n h =
    stoi-digit (decimal n) (digits-StartsWithDigit n n []) (omega (arith, digits_value-decimal n))
    ∙ ap (λ k. some (pos k)) (digits_value-decimal n)

abbrev pub IsAccepted : ProduceReply → Type 0
IsAccepted r = r.code ≡ 0

abbrev pub request : Bytes → Bytes → ProduceRequest
request topic body = record {
  topic = topic;
  group = topic;
  tag = tag;
  body = body;
  delay_level = 0;
}

-- What the program does for some replies: a request for each, and a line with the id.
unfoldable pub sent : Bytes → Bytes → List ProduceReply → List Act
sent topic body [] = []
sent topic body (r ∷ rs) =
    calls (produces (request topic body))
    ∷ prints ((bytes "received: " ++ r.msg_id) ++ bytes "\n")
    ∷ sent topic body rs

produce_loop_complete :
    (topic body : Bytes) (rs : List ProduceReply)
    → All IsAccepted rs
    → produce_loop topic body (length rs) (map replies rs) ≡ (sent topic body rs, returns tt)
unfolding produce_loop sent
produce_loop_complete topic body [] all = refl
produce_loop_complete topic body (r ∷ rs) all = ground (arith, produce_loop_complete topic body rs)

loop_of_accepted :
    (topic body : Bytes) (r : ProduceReply) (n : ℕ) (later : List (Rpc ProduceReply))
    → r.code ≡ 0
    → produce_loop topic body (suc n) (replies r ∷ later) ≡ (
      calls (produces (request topic body))
          ∷ prints ((bytes "received: " ++ r.msg_id) ++ bytes "\n")
          ∷ (produce_loop topic body n later).0,
      (produce_loop topic body n later).1,
    )
unfolding produce_loop
loop_of_accepted topic body r n later good = ground arith

loop_of_refused :
    (topic body : Bytes) (k : ℕ) (e : ProduceReply)
    → e.code ≢ 0
    → produce_loop topic body (suc k) (replies e ∷ [])
      ≡ (calls (produces (request topic body)) ∷ prints (e.err_msg ++ bytes "\n") ∷ [], undefined)
unfolding produce_loop
loop_of_refused topic body k e bad = ground arith

produce_loop_refused :
    (topic body : Bytes) (rs : List ProduceReply) (k : ℕ) (e : ProduceReply)
    → All IsAccepted rs
    → e.code ≢ 0
    → produce_loop topic body (suc (length rs + k)) (map replies rs ++ replies e ∷ []) ≡ (
      sent topic body rs
          ++ calls (produces (request topic body)) ∷ prints (e.err_msg ++ bytes "\n") ∷ [],
      undefined,
    )
unfolding produce_loop sent
produce_loop_refused topic body [] k e all bad =
    ap (λ n. produce_loop topic body (suc n) (replies e ∷ [])) (omega arith)
    ∙ loop_of_refused topic body k e bad
produce_loop_refused topic body (r ∷ rs) k e all bad =
    let same : suc (length (r ∷ rs) + k) ≡ suc (suc (length rs + k)) = omega arith in
    ap (λ n. produce_loop topic body n (map replies (r ∷ rs) ++ replies e ∷ [])) same
    ∙ ground (
      arith,
      loop_of_accepted topic body r (suc (length rs + k)) (map replies rs ++ replies e ∷ []),
      produce_loop_refused topic body rs k e,
    )

main-num :
    (name host topic body : Bytes) (n : ℕ) (answers : List (Rpc ProduceReply))
    → n < 2147483648
    → main (name ∷ host ∷ topic ∷ body ∷ decimal n ∷ []) answers ≡ (
      connects host ∷ (produce_loop topic body n answers).0,
      (produce_loop topic body n answers).1,
    )
unfolding main read_num
main-num name host topic body n answers h = ground (arith, stoi-decimal n h)

-- Started with a number below 2^31, the producing client sends that many messages, one after the
-- other, if each is accepted: it prints the id of each and ends with 0. If a message is refused, it
-- prints the error and then reaches the end of a function that should return a value.
pub client_sends :
    (name host topic body : Bytes) (rs : List ProduceReply) (k : ℕ) (e : ProduceReply)
    → All IsAccepted rs
    → e.code ≢ 0
    → suc (length rs + k) < 2147483648
    → (main (name ∷ host ∷ topic ∷ body ∷ decimal (length rs) ∷ []) (map replies rs)
        ≡ (connects host ∷ sent topic body rs, returns tt))
      × (main
            (name ∷ host ∷ topic ∷ body ∷ decimal (suc (length rs + k)) ∷ [])
            (map replies rs ++ replies e ∷ [])
          ≡ (
            connects host
                ∷ (sent topic body rs
                    ++ calls (produces (request topic body))
                      ∷ prints (e.err_msg ++ bytes "\n")
                      ∷ []),
            undefined,
          ))
client_sends name host topic body rs k e all bad h = (
  ground (
    arith,
    main-num name host topic body (length rs) (map replies rs),
    produce_loop_complete topic body rs,
  ),
  ground (
    arith,
    main-num name host topic body (suc (length rs + k)) (map replies rs ++ replies e ∷ []),
    produce_loop_refused topic body rs k e,
  ),
)
