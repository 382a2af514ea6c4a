-- ===== src/Ip.antt =====
-- Ip.hpp: `getLocalIp`, the address of a network interface as text. The calls of the operating
-- system are a parameter.
use rocketmq_proxy.Prelude.{
  ℕ, zero, suc, ◌-◌, List, [], ◌∷◌, ◌++◌, Option, none, some, Bytes, bytes, take, drop, length,
}

-- What the operating system answers: a descriptor, the address of an interface, the text of an
-- address, and the texts of the two errors. `none` is the answer -1.
pub record System : Type 0 where
  pub socket : Option ℕ
  pub ioctl : ℕ → Bytes → Option ℕ
  pub inet_ntoa : ℕ → Bytes
  pub socket_error : Bytes
  pub ioctl_error : Bytes

-- What the function does outside its memory.
pub data Act : Type 0 where
  opens : ℕ → Act
  closes : ℕ → Act
  prints : Bytes → Act

-- The `int` that is returned, the array that `ip` points to, and what was done.
pub record Lookup : Type 0 where
  pub code : ℕ
  pub ip : Bytes
  pub acts : List Act

-- -1, as a 32-bit pattern.
abbrev pub minus_one : ℕ
minus_one = 4294967295

abbrev pub ifnamsiz : ℕ
ifnamsiz = 16

-- `snprintf(ip, size, "%s", text)`: the text, cut to what fits before the end of the array, and 0.
unfoldable pub print_into : Bytes → ℕ → Bytes → Bytes
print_into ip zero text = ip
print_into ip (suc size) text = let new = take size text ++ 0 ∷ [] in new ++ drop (length new) ip

-- `ioctl` with the name of the interface, of which 15 bytes are kept, and what follows.
unfoldable pub ask_address : System → Bytes → Bytes → ℕ → ℕ → Lookup
unfolding print_into
ask_address os eth_inf ip size sd = elim (os.ioctl sd (take (ifnamsiz - 1) eth_inf)) [
  | none ↦ record {
    code = minus_one;
    ip = ip;
    acts =
        opens sd
        ∷ prints (bytes "ioctl error: " ++ (os.ioctl_error ++ bytes "\n"))
        ∷ closes sd
        ∷ [];
  }
  | some sin ↦ record {
    code = 0;
    ip = print_into ip size (os.inet_ntoa sin);
    acts = opens sd ∷ closes sd ∷ [];
  }
]

unfoldable pub get_local_ip : System → Bytes → Bytes → ℕ → Lookup
unfolding ask_address
get_local_ip os eth_inf ip size = elim os.socket [
  | none ↦ record {
    code = minus_one;
    ip = ip;
    acts = prints (bytes "socket error: " ++ (os.socket_error ++ bytes "\n")) ∷ [];
  }
  | some sd ↦ ask_address os eth_inf ip size sd
]
