-- ===== src/IoManager/Event.antt =====
-- `IOManager::Event` (src/iomanager/ioscheduler.h): the sets of the flags READ and WRITE, whose values
-- are those of EPOLLIN and EPOLLOUT, and the bitwise operators on them.
pub mod Laws
use Prim.Native.Nat.{bit_and, bit_or, bit_xor}
use coroutinelib.Base.{ℕ, ◌+◌, ◌≡◌, refl, Bool, true, false, ◌==◌, not, if◌then◌else◌}

pub data Event : Type 0 where
  none read write read_write : Event

-- The values of the enumeration.
abbrev pub code : Event → ℕ
code Event.none = 0x0
code Event.read = 0x1
code Event.write = 0x4
code Event.read_write = 0x5

-- `(Event)(a | b)`.
abbrev pub or_event : Event → Event → Event
or_event Event.none b = b
or_event Event.read Event.none = Event.read
or_event Event.read Event.read = Event.read
or_event Event.read b = Event.read_write
or_event Event.write Event.none = Event.write
or_event Event.write Event.write = Event.write
or_event Event.write b = Event.read_write
or_event Event.read_write b = Event.read_write

-- `(Event)(a & b)`.
abbrev pub and_event : Event → Event → Event
and_event Event.none b = Event.none
and_event Event.read Event.read = Event.read
and_event Event.read Event.read_write = Event.read
and_event Event.read b = Event.none
and_event Event.write Event.write = Event.write
and_event Event.write Event.read_write = Event.write
and_event Event.write b = Event.none
and_event Event.read_write b = b

-- `(Event)(a & ~b)`.
abbrev pub without : Event → Event → Event
without a Event.none = a
without a Event.read_write = Event.none
without Event.none b = Event.none
without Event.read Event.read = Event.none
without Event.read Event.write = Event.read
without Event.write Event.read = Event.write
without Event.write Event.write = Event.none
without Event.read_write Event.read = Event.write
without Event.read_write Event.write = Event.read

-- The test of a set as a condition.
abbrev pub is_set : Event → Bool
is_set Event.none = false
is_set _ = true

-- `a & b` as a condition.
abbrev pub has : Event → Event → Bool
has a b = is_set (and_event a b)

-- `!(a) & b` as a condition: `!` comes first, so that the left operand is 1 or 0.
abbrev pub not_and : Event → Event → Bool
not_and a b = not (bit_and (if is_set a then 0 else 1) (code b) == 0)

-- The number of flags in a set.
abbrev pub flags : Event → ℕ
flags Event.none = 0
flags Event.read = 1
flags Event.write = 1
flags Event.read_write = 2

-- READ or WRITE, the events that a call may name.
pub data IsSingle : Event → Type 0 where
  is_read : IsSingle Event.read
  is_write : IsSingle Event.write

-- The operators are the bitwise ones on the values.
pub code-or : (a b : Event) → code (or_event a b) ≡ bit_or (code a) (code b)
code-or Event.none Event.none = refl
code-or Event.none Event.read = refl
code-or Event.none Event.write = refl
code-or Event.none Event.read_write = refl
code-or Event.read Event.none = refl
code-or Event.read Event.read = refl
code-or Event.read Event.write = refl
code-or Event.read Event.read_write = refl
code-or Event.write Event.none = refl
code-or Event.write Event.read = refl
code-or Event.write Event.write = refl
code-or Event.write Event.read_write = refl
code-or Event.read_write Event.none = refl
code-or Event.read_write Event.read = refl
code-or Event.read_write Event.write = refl
code-or Event.read_write Event.read_write = refl

pub code-and : (a b : Event) → code (and_event a b) ≡ bit_and (code a) (code b)
code-and Event.none Event.none = refl
code-and Event.read_write Event.none = refl
code-and Event.read Event.none = refl
code-and Event.write Event.none = refl
code-and Event.none Event.read = refl
code-and Event.none Event.write = refl
code-and Event.none Event.read_write = refl
code-and Event.read Event.read = refl
code-and Event.read Event.write = refl
code-and Event.read Event.read_write = refl
code-and Event.write Event.read = refl
code-and Event.write Event.write = refl
code-and Event.write Event.read_write = refl
code-and Event.read_write Event.read = refl
code-and Event.read_write Event.write = refl
code-and Event.read_write Event.read_write = refl

-- `a & ~b`, over the three bits that the values use.
pub code-without : (a b : Event) → code (without a b) ≡ bit_and (code a) (bit_xor (code b) 0x7)
code-without Event.none Event.none = refl
code-without Event.none Event.read = refl
code-without Event.none Event.write = refl
code-without Event.none Event.read_write = refl
code-without Event.read Event.none = refl
code-without Event.read Event.read = refl
code-without Event.read Event.write = refl
code-without Event.read Event.read_write = refl
code-without Event.write Event.none = refl
code-without Event.write Event.read = refl
code-without Event.write Event.write = refl
code-without Event.write Event.read_write = refl
code-without Event.read_write Event.none = refl
code-without Event.read_write Event.read = refl
code-without Event.read_write Event.write = refl
code-without Event.read_write Event.read_write = refl
