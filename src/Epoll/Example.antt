-- ===== src/Epoll/Example.antt =====
-- An epoll instance whose calls fail only for the documented reasons: the interface of Epoll.antt can
-- be met.
use coroutinelib.Base.{
  ℕ, ◌≡◌, ◌≢◌, refl, sym, Option, none, some, Bool, true, false, ◌==◌, if◌then◌else◌, arith, ◌⊎◌,
  inl, inr, Option-cases, is_some,
}
use coroutinelib.IoManager.Event.{Event}
use coroutinelib.Epoll.{Op, Epoll}

-- A function written at one argument.
abbrev pub update : (ℕ → Option Event) → ℕ → Option Event → ℕ → Option Event
update s fd e other = if other == fd then e else s other

abbrev pub ctl_of : (ℕ → Option Event) → Op → ℕ → Event → (ℕ → Option Event) × Bool
ctl_of s Op.add fd e = if is_some (s fd) then (s, true) else (update s fd (some e), false)
ctl_of s Op.modify fd e = if is_some (s fd) then (update s fd (some e), false) else (s, true)
ctl_of s Op.delete fd e = if is_some (s fd) then (update s fd none, false) else (s, true)

pub update_self : (s : ℕ → Option Event) (fd : ℕ) (e : Option Event) → update s fd e fd ≡ e
update_self s fd e = ground arith

pub update_other :
    (s : ℕ → Option Event) (fd : ℕ) (e : Option Event) (other : ℕ)
    → other ≢ fd
    → update s fd e other ≡ s other
update_other s fd e other n = ground arith

-- Whether a descriptor is watched.
known : (s : ℕ → Option Event) (fd : ℕ) → (is_some (s fd) ≡ true) ⊎ (is_some (s fd) ≡ false)
known s fd = elim (Option-cases (s fd)) [ inl e ↦ inr (rw e) | inr (a, e) ↦ inl (rw e) ]

true≢false : true ≢ false
true≢false e = cc

some≢none : (o : Option Event) → is_some o ≡ true → o ≢ none
some≢none o h e = cc

is_none : (o : Option Event) → is_some o ≡ false → o ≡ none
is_none none h = refl
is_none (some a) h = absurd (true≢false h)

pub ctl_of-failed :
    (s : ℕ → Option Event) (op : Op) (fd : ℕ) (e : Event)
    → (ctl_of s op fd e).1 ≡ true
    → (ctl_of s op fd e).0 ≡ s
ctl_of-failed s Op.add fd e = elim (known s fd) [
  | inl k ↦ rw k (λ h. refl)
  | inr k ↦ rw k (λ h. absurd (true≢false (sym h)))
]
ctl_of-failed s Op.modify fd e = elim (known s fd) [
  | inl k ↦ rw k (λ h. absurd (true≢false (sym h)))
  | inr k ↦ rw k (λ h. refl)
]
ctl_of-failed s Op.delete fd e = elim (known s fd) [
  | inl k ↦ rw k (λ h. absurd (true≢false (sym h)))
  | inr k ↦ rw k (λ h. refl)
]

pub ctl_of-other :
    (s : ℕ → Option Event) (op : Op) (fd : ℕ) (e : Event) (other : ℕ)
    → other ≢ fd
    → (ctl_of s op fd e).0 other ≡ s other
ctl_of-other s Op.add fd e other n = elim (known s fd) [
  | inl k ↦ rw k refl
  | inr k ↦ rw k (update_other s fd (some e) other n)
]
ctl_of-other s Op.modify fd e other n = elim (known s fd) [
  | inl k ↦ rw k (update_other s fd (some e) other n)
  | inr k ↦ rw k refl
]
ctl_of-other s Op.delete fd e other n = elim (known s fd) [
  | inl k ↦ rw k (update_other s fd none other n)
  | inr k ↦ rw k refl
]

pub added_lem :
    (s : ℕ → Option Event) (fd : ℕ) (e : Event)
    → (ctl_of s Op.add fd e).1 ≡ false
    → (s fd ≡ none) × ((ctl_of s Op.add fd e).0 fd ≡ some e)
added_lem s fd e = elim (known s fd) [
  | inl k ↦ rw k (λ h. absurd (true≢false h))
  | inr k ↦ rw k (λ h. (is_none (s fd) k, update_self s fd (some e)))
]

pub modified_lem :
    (s : ℕ → Option Event) (fd : ℕ) (e : Event)
    → (ctl_of s Op.modify fd e).1 ≡ false
    → (s fd ≢ none) × ((ctl_of s Op.modify fd e).0 fd ≡ some e)
modified_lem s fd e = elim (known s fd) [
  | inl k ↦ rw k (λ h. (some≢none (s fd) k, update_self s fd (some e)))
  | inr k ↦ rw k (λ h. absurd (true≢false h))
]

pub deleted_lem :
    (s : ℕ → Option Event) (fd : ℕ) (e : Event)
    → (ctl_of s Op.delete fd e).1 ≡ false
    → (s fd ≢ none) × ((ctl_of s Op.delete fd e).0 fd ≡ none)
deleted_lem s fd e = elim (known s fd) [
  | inl k ↦ rw k (λ h. (some≢none (s fd) k, update_self s fd none))
  | inr k ↦ rw k (λ h. absurd (true≢false h))
]

abbrev pub map_epoll : Epoll
map_epoll = record {
  State = ℕ → Option Event;
  interest = λ s fd. s fd;
  ctl = ctl_of;
  close = λ s fd. update s fd none;
  ctl_failed = ctl_of-failed;
  ctl_other = ctl_of-other;
  added = added_lem;
  modified = modified_lem;
  deleted = deleted_lem;
  closed = λ s fd. update_self s fd none;
  close_other = λ s fd other n. update_other s fd none other n;
}
