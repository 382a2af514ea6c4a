-- ===== src/Logger/Opened.antt =====
-- Which file the logger opens.
use rocketmq_proxy.Prelude.{
  ℕ, zero, suc, ◌≤◌, Bool, List, [], ◌∷◌, ◌++◌, Option, none, some, Bytes, bytes, take, drop,
  length, All, arith, ◌≡◌, ◌≢◌, refl, ap, ◌∙◌, append_assoc, Option-cases, inl, inr,
}
use rocketmq_proxy.Ip.{System, get_local_ip, ask_address, print_into}
use rocketmq_proxy.Logger.{new, c_str, construct}

-- The text of the interface's address, if the operating system gives one.
abbrev pub address_text : System → Bytes → Option Bytes
address_text os name = elim os.socket [
  | none ↦ none
  | some sd ↦ elim (os.ioctl sd (take 15 name)) [ none ↦ none | some sin ↦ some (os.inet_ntoa sin) ]
]

-- What stands after `_` in the name of the file.
abbrev pub suffix : System → Bytes → Option Bytes
suffix os ip = elim (address_text os (bytes "eth0")) [ some text ↦ some text | none ↦ c_str ip ]

-- A text that fits into 16 bytes with its closing 0, as an address "255.255.255.255" does.
abbrev pub Fits : Bytes → Type 0
Fits text = (length text ≤ 15) × All (λ c. c ≢ 0) text

c_str-append : (text rest : Bytes) → All (λ c. c ≢ 0) text → c_str (text ++ 0 ∷ rest) ≡ some text
unfolding c_str
c_str-append [] rest all = refl
c_str-append (zero ∷ text) rest all = absurd (all.0 refl)
c_str-append (suc c ∷ text) rest all = rw (c_str-append text rest all.1)

take_all {ℓ} : {A : Type ℓ} (n : ℕ) (xs : List A) → length xs ≤ n → take n xs ≡ xs
take_all zero [] h = refl
take_all zero (x ∷ xs) h = absurd (omega arith)
take_all (suc n) [] h = refl
take_all (suc n) (x ∷ xs) h = ap (◌∷◌ x) (take_all n xs (omega arith))

c_str-print_into : (ip text : Bytes) → Fits text → c_str (print_into ip 16 text) ≡ some text
unfolding print_into
c_str-print_into ip text (short, all) = rw (take_all 15 text short) (
    ap c_str (append_assoc text (0 ∷ []) (drop (length (text ++ 0 ∷ [])) ip))
    ∙ c_str-append text _ all)

c_str-get_local_ip :
    (os : System) (ip : Bytes)
    → ((sin : ℕ) → Fits (os.inet_ntoa sin))
    → c_str (get_local_ip os (bytes "eth0") ip 16).ip ≡ suffix os ip
unfolding get_local_ip ask_address
c_str-get_local_ip os ip fits = elim (Option-cases os.socket) [
  | inl no_socket ↦ simp (no_socket, get_local_ip, suffix, address_text)
  | inr (sd, socket) ↦ elim (Option-cases (os.ioctl sd (take 15 (bytes "eth0")))) [
    | inl no_address ↦ simp (socket, no_address, get_local_ip, ask_address, suffix, address_text)
    | inr (sin, address) ↦ simp (
      socket,
      address,
      get_local_ip,
      ask_address,
      suffix,
      address_text,
      c_str-print_into ip (os.inet_ntoa sin) (fits sin),
    )
  ]
]

-- The file's name is the one that is given, `_`, and the address of the interface, if the system
-- finds one whose text fits into the array. If it finds none, what stands after `_` is what the
-- array happens to hold up to its first 0, and without a 0 the read goes past the array's end.
pub construct_lem :
    (os : System) (fopen : Bytes → Bool) (ip host user pass name : Bytes) (max now : ℕ)
    → ((sin : ℕ) → Fits (os.inet_ntoa sin))
    → construct os fopen ip host user pass name max now ≡ elim (suffix os ip) [
      | none ↦ none
      | some s ↦ some (new max host user pass (fopen (name ++ (bytes "_" ++ s))) now)
    ]
unfolding construct
construct_lem os fopen ip host user pass name max now fits =
    rw (construct, c_str-get_local_ip os ip fits)
