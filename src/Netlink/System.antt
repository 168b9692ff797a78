-- ===== src/Netlink/System.antt =====
-- The system calls and library functions that the program makes. What they answer is a parameter:
-- an answer may depend on all that happened before. A run extends the record of what happened.
use Prim.Native.String.{String}
use nettool.Base.{ℕ, ℤ, Option, none, some, List, ◌∷◌}
use nettool.Netlink.Buffer.{Buf}

-- What stands for a conversion of a printed format.
pub data Arg : Type 0 where
  number : ℤ → Arg
  text : String → Arg
  -- The bytes of a message at RTA_DATA, as text.
  chars : ℕ → Arg
  -- A pointer to an offset of the message.
  pointer : ℕ → Arg
  -- A null pointer.
  null_text : Arg

pub data Event : Type 0 where
  opened : ℤ → Event
  bound : ℤ → ℤ → Event
  sent : ℤ → Buf → ℕ → Event
  received : ℤ → ℤ → Buf → Event
  closed : ℤ → Event
  printed printed_error : String → List Arg → Event
  started_thread : ℤ → Event
  allocated : Event

-- The latest event first.
abbrev pub Trace : Type 0
Trace = List Event

-- `recvmsg` answers its status and what the buffer holds afterwards. `inet_pton` answers the
-- address of a text, or nothing; `inet_ntop` the text of an address, empty when it fails; `if_nametoindex` answers 0 for an unknown name.
pub record Kernel : Type 0 where
  pub socket : Trace → ℤ
  pub bind : Trace → ℤ
  pub sendmsg : Trace → ℤ
  pub recvmsg : Trace → ℤ × Buf
  pub pthread_create : Trace → ℤ
  pub errno : Trace → ℤ
  pub getpid : ℕ
  pub if_nametoindex : String → ℕ
  pub inet_pton : ℕ → String → Option ℕ
  pub inet_ntop : ℕ → ℕ → String
  pub select : Trace → ℤ
  pub strerror : ℤ → String

-- `none`: the fuel of a loop ran out.
abbrev pub Prog : Type 0 → Type 0
Prog A = Trace → Option (A × Trace)

abbrev pub pure : {A : Type 0} → A → Prog A
pure a t = some (a, t)

abbrev pub stuck : {A : Type 0} → Prog A
stuck t = none

module _ {A B : Type 0} where
  abbrev pub follow : Option (A × Trace) → (A → Prog B) → Option (B × Trace)
  follow none f = none
  follow (some (a, t)) f = f a t

  infixl 5 ◌>>=◌ ◌>>◌
  abbrev pub ◌>>=◌ : Prog A → (A → Prog B) → Prog B
  m >>= f = λ t. follow (m t) f

  abbrev pub ◌>>◌ : Prog A → Prog B → Prog B
  m >> n = m >>= λ _. n

abbrev pub record_event : Event → Prog (Unit {0})
record_event e t = some (tt, e ∷ t)

abbrev pub print : String → List Arg → Prog (Unit {0})
print format args = record_event (printed format args)

-- To the standard error.
abbrev pub print_error : String → List Arg → Prog (Unit {0})
print_error format args = record_event (printed_error format args)

module _ (k : Kernel) where
  abbrev pub errno : Prog ℤ
  errno t = some (k.errno t, t)

  abbrev pub socket : Prog ℤ
  socket t = some (k.socket t, opened (k.socket t) ∷ t)

  abbrev pub bind : ℤ → Prog ℤ
  bind fd t = some (k.bind t, bound fd (k.bind t) ∷ t)

  abbrev pub sendmsg : ℤ → Buf → ℕ → Prog ℤ
  sendmsg fd b n t = some (k.sendmsg t, sent fd b n ∷ t)

  abbrev pub recvmsg : ℤ → Prog (ℤ × Buf)
  recvmsg fd t = some (k.recvmsg t, received fd (k.recvmsg t).0 (k.recvmsg t).1 ∷ t)

abbrev pub close : ℤ → Prog (Unit {0})
close fd = record_event (closed fd)
