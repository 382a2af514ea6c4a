-- ===== src/Clients.antt =====
-- ConsumeClient.cpp, ConsumeClientSleep.cpp and ProduceClient.cpp: the sample clients. What the
-- service answers to each call is a parameter.
pub mod ConsumeClient
pub mod ConsumeClientSleep
pub mod ProduceClient
pub mod Acks
pub mod Produces
use rocketmq_proxy.Prelude.{ℕ, decimal, List, [], ◌∷◌, ◌++◌, Bytes, bytes}
use rocketmq_proxy.Proto.{ConsumeRequest, ConsumeAckRequest, ProduceRequest}

-- The end of a call: a reply, or a status that is not `ok`, with its code and its text.
pub data Rpc (R : Type 0) : Type 0 where
  replies : R → Rpc R
  breaks : ℕ → Bytes → Rpc R

pub data Request : Type 0 where
  consumes : ConsumeRequest → Request
  acknowledges : ConsumeAckRequest → Request
  produces : ProduceRequest → Request

-- What a program does: it opens a channel, calls the service, prints, or sleeps some seconds.
pub data Act : Type 0 where
  connects : Bytes → Act
  calls : Request → Act
  prints : Bytes → Act
  sleeps : ℕ → Act

-- How a part of a program ends: with a value, in a call that is not answered yet, by an exception
-- that nothing catches, at the end of a function that should return a value, or by `exit`.
pub data End (A : Type 0) : Type 0 where
  returns : A → End A
  waits uncaught undefined : End A
  exits : ℕ → End A

abbrev pub Run : Type 0 → Type 0
Run A = List Act × End A

abbrev pub pure : {A : Type 0} → A → Run A
pure a = ([], returns a)

abbrev pub ends : {A : Type 0} → End A → Run A
ends e = ([], e)

abbrev pub act : Act → Run (Unit {0})
act x = (x ∷ [], returns tt)

infixl 5 ◌>>=◌ ◌>>◌
abbrev pub ◌>>=◌ : {A B : Type 0} → Run A → (A → Run B) → Run B
◌>>=◌ (acts, e) f = elim e [
  | returns a ↦ let (acts', e') = f a in (acts ++ acts', e')
  | waits ↦ (acts, waits)
  | uncaught ↦ (acts, uncaught)
  | undefined ↦ (acts, undefined)
  | exits n ↦ (acts, exits n)
]

abbrev pub ◌>>◌ : {B : Type 0} → Run (Unit {0}) → Run B → Run B
m >> k = m >>= λ _. k

-- `cout << … << endl`
abbrev pub print_line : Bytes → Run (Unit {0})
print_line text = act (prints (text ++ bytes "\n"))

-- What the clients do where a call's status is not `ok`.
unfoldable pub give_up : {A : Type 0} → ℕ → Bytes → Run A
unfolding decimal
give_up code text = do print_line (decimal code ++ bytes ": " ++ text); ends (exits 1)
