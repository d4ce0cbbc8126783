-- ===== src/Hook/Init.antt =====
-- `hook_init` of src/hook/hook.cc, and the pointers to the original functions that src/hook/hook.h
-- declares. A pointer is a number, none for null; `dlsym` is an argument.
use coroutinelib.Base.{
  ℕ, ◌≡◌, refl, Option, none, Bool, true, false, List, [], ◌∷◌, if◌then◌else◌, ◌==◌,
}
use coroutinelib.Faults.{Result, non_null}

-- The functions of the macro `HOOK_FUN`.
pub data Name : Type 0 where
  sleep usleep nanosleep socket connect accept read readv recv recvfrom recvmsg write : Name
  writev send sendto sendmsg close fcntl ioctl getsockopt setsockopt : Name

abbrev hook_fun : List Name
hook_fun =
    Name.sleep ∷ Name.usleep ∷ Name.nanosleep ∷ Name.socket ∷ Name.connect ∷ Name.accept ∷ Name.read
    ∷ Name.readv ∷ Name.recv ∷ Name.recvfrom ∷ Name.recvmsg ∷ Name.write ∷ Name.writev ∷ Name.send
    ∷ Name.sendto ∷ Name.sendmsg ∷ Name.close ∷ Name.fcntl ∷ Name.ioctl ∷ Name.getsockopt
    ∷ Name.setsockopt ∷ []

-- The position of a name in the list.
abbrev index : Name → ℕ
index Name.sleep = 0
index Name.usleep = 1
index Name.nanosleep = 2
index Name.socket = 3
index Name.connect = 4
index Name.accept = 5
index Name.read = 6
index Name.readv = 7
index Name.recv = 8
index Name.recvfrom = 9
index Name.recvmsg = 10
index Name.write = 11
index Name.writev = 12
index Name.send = 13
index Name.sendto = 14
index Name.sendmsg = 15
index Name.close = 16
index Name.fcntl = 17
index Name.ioctl = 18
index Name.getsockopt = 19
index Name.setsockopt = 20

-- `is_inited`, and the pointers `sleep_f` to `setsockopt_f`.
pub record Originals : Type 0 where
  pub is_inited : Bool
  pub pointer : Name → Option ℕ

-- Before any initialisation.
abbrev pub null_pointers : Originals
null_pointers = record { is_inited = false; pointer = λ n. none }

-- `name_f = dlsym(RTLD_NEXT, "name")`.
unfoldable pub load_one : (dlsym : Name → Option ℕ) → Originals → Name → Originals
load_one dlsym o name = record o {
  pointer = λ n. if index n == index name then dlsym name else o.pointer n;
}

unfoldable pub load_all : (dlsym : Name → Option ℕ) → Originals → List Name → Originals
unfolding load_one
load_all dlsym o [] = o
load_all dlsym o (name ∷ names) = load_all dlsym (load_one dlsym o name) names

-- `hook_init`.
unfoldable pub hook_init : (dlsym : Name → Option ℕ) → Originals → Originals
unfolding load_all
hook_init dlsym o =
    if o.is_inited then o else load_all dlsym (record o { is_inited = true }) hook_fun

-- A call of an original function through its pointer.
unfoldable pub call_original : Originals → Name → Result ℕ
call_original o name = non_null (o.pointer name)

-- The first `hook_init` sets every pointer to what `dlsym` gives, and a later one changes nothing: an
-- original function is called exactly when `dlsym` found it at first.
pub hook_init-once :
    (dlsym later : Name → Option ℕ) (o : Originals) (name : Name)
    → o.is_inited ≡ false
    → (hook_init later (hook_init dlsym o) ≡ hook_init dlsym o)
      × (call_original (hook_init dlsym o) name ≡ non_null (dlsym name))
unfolding hook_init load_all load_one call_original
hook_init-once dlsym later o name e = rw e (refl, set_all name)
  where
    set_all :
        (name : Name)
        → non_null ((load_all dlsym (record o { is_inited = true }) hook_fun).pointer name)
          ≡ non_null (dlsym name)
    set_all Name.sleep = refl
    set_all Name.usleep = refl
    set_all Name.nanosleep = refl
    set_all Name.socket = refl
    set_all Name.connect = refl
    set_all Name.accept = refl
    set_all Name.read = refl
    set_all Name.readv = refl
    set_all Name.recv = refl
    set_all Name.recvfrom = refl
    set_all Name.recvmsg = refl
    set_all Name.write = refl
    set_all Name.writev = refl
    set_all Name.send = refl
    set_all Name.sendto = refl
    set_all Name.sendmsg = refl
    set_all Name.close = refl
    set_all Name.fcntl = refl
    set_all Name.ioctl = refl
    set_all Name.getsockopt = refl
    set_all Name.setsockopt = refl
