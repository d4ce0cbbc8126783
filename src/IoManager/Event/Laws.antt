-- ===== src/IoManager/Event/Laws.antt =====
-- How setting and clearing a flag changes a set of events (src/iomanager/ioscheduler.h).
use coroutinelib.Base.{◌+◌, ◌≡◌, refl, true, false, arith}
use coroutinelib.IoManager.Event.{Event, or_event, without, has, flags, IsSingle, is_read, is_write}

-- A proof for each set.
pub Event-cases {κ} :
    (P : Event → Type κ)
    → P Event.none
    → P Event.read
    → P Event.write
    → P Event.read_write
    → (a : Event) → P a
Event-cases P n r w b Event.none = n
Event-cases P n r w b Event.read = r
Event-cases P n r w b Event.write = w
Event-cases P n r w b Event.read_write = b

pub has-without_self : (a e : Event) → IsSingle e → has (without a e) e ≡ false
has-without_self a _ is_read =
    Event-cases (λ a. has (without a Event.read) Event.read ≡ false) refl refl refl refl a
has-without_self a _ is_write =
    Event-cases (λ a. has (without a Event.write) Event.write ≡ false) refl refl refl refl a

pub has-without_read : (a : Event) → has (without a Event.read) Event.write ≡ has a Event.write
has-without_read =
    Event-cases (λ a. has (without a Event.read) Event.write ≡ has a Event.write) refl refl refl
      refl

pub has-without_write : (a : Event) → has (without a Event.write) Event.read ≡ has a Event.read
has-without_write =
    Event-cases (λ a. has (without a Event.write) Event.read ≡ has a Event.read) refl refl refl refl

pub has-or_self : (a e : Event) → IsSingle e → has (or_event a e) e ≡ true
has-or_self a _ is_read =
    Event-cases (λ a. has (or_event a Event.read) Event.read ≡ true) refl refl refl refl a
has-or_self a _ is_write =
    Event-cases (λ a. has (or_event a Event.write) Event.write ≡ true) refl refl refl refl a

pub has-or_read : (a : Event) → has (or_event a Event.read) Event.write ≡ has a Event.write
has-or_read =
    Event-cases (λ a. has (or_event a Event.read) Event.write ≡ has a Event.write) refl refl refl
      refl

pub has-or_write : (a : Event) → has (or_event a Event.write) Event.read ≡ has a Event.read
has-or_write =
    Event-cases (λ a. has (or_event a Event.write) Event.read ≡ has a Event.read) refl refl refl
      refl

pub flags-without : (a e : Event) → IsSingle e → has a e ≡ true → flags (without a e) + 1 ≡ flags a
flags-without a _ is_read =
    Event-cases (λ a. has a Event.read ≡ true → flags (without a Event.read) + 1 ≡ flags a)
      (λ h. cc) (λ h. omega arith) (λ h. cc) (λ h. omega arith) a
flags-without a _ is_write =
    Event-cases (λ a. has a Event.write ≡ true → flags (without a Event.write) + 1 ≡ flags a)
      (λ h. cc) (λ h. cc) (λ h. omega arith) (λ h. omega arith) a

-- Without the flag nothing is cleared.
pub without-absent : (a e : Event) → IsSingle e → has a e ≡ false → without a e ≡ a
without-absent a _ is_read =
    Event-cases (λ a. has a Event.read ≡ false → without a Event.read ≡ a) (λ h. refl) (λ h. cc)
      (λ h. refl) (λ h. cc) a
without-absent a _ is_write =
    Event-cases (λ a. has a Event.write ≡ false → without a Event.write ≡ a) (λ h. refl) (λ h. refl)
      (λ h. cc) (λ h. cc) a

pub flags-or : (a e : Event) → IsSingle e → has a e ≡ false → flags (or_event a e) ≡ flags a + 1
flags-or a _ is_read =
    Event-cases (λ a. has a Event.read ≡ false → flags (or_event a Event.read) ≡ flags a + 1)
      (λ h. omega arith) (λ h. cc) (λ h. omega arith) (λ h. cc) a
flags-or a _ is_write =
    Event-cases (λ a. has a Event.write ≡ false → flags (or_event a Event.write) ≡ flags a + 1)
      (λ h. omega arith) (λ h. omega arith) (λ h. cc) (λ h. cc) a
