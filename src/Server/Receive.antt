-- ===== src/Server/Receive.antt =====
-- The callback of a connection in src/main.cc, which the lambda in `test_accept` is: it reads until
-- `recv` has something to say.
use coroutinelib.Base.{
  ℕ, ℤ, ◌≡◌, ◌≢◌, refl, sym, ◌∙◌, Option, none, some, Bool, true, false, not, ◌||◌, List, [], ◌∷◌,
  ◌++◌, if◌then◌else◌, is_positive, is_negative, is_zero, All, ◌⊎◌, inl, inr, Bool-cases,
}
use coroutinelib.Server.{Action}

-- A return of `recv`: its value, and whether `errno` is EAGAIN.
pub record Recv : Type 0 where
  pub ret : ℤ
  pub is_again : Bool

-- The loop over the returns of `recv`: what it does before it breaks, `none` if it is still in the loop
-- after all of them.
unfoldable pub receive : (fd : ℕ) → List Recv → Option (List Action)
receive fd [] = none
receive fd (r ∷ rs) =
    let rest = receive fd rs in
    if is_positive r.ret
    then some (Action.send fd ∷ Action.close fd ∷ [])
    else if is_zero r.ret || not r.is_again
    then some (Action.close fd ∷ [])
    else rest

true≢false : true ≢ false
true≢false e = cc

-- `recv` has nothing yet: -1 with EAGAIN.
abbrev pub IsAgain : Recv → Type 0
IsAgain r = (is_negative r.ret ≡ true) × (r.is_again ≡ true)

no_answer : (i : ℤ) → is_negative i ≡ true → (is_positive i ≡ false) × (is_zero i ≡ false)
no_answer (ℤ.pos n) h = cc
no_answer (ℤ.negsuc k) h = (refl, refl)

again-skips : (fd : ℕ) (r : Recv) (rs : List Recv) → IsAgain r → receive fd (r ∷ rs) ≡ receive fd rs
unfolding receive
again-skips fd r rs h = rw ((no_answer r.ret h.0).0, (no_answer r.ret h.0).1, h.1) refl

-- `recv` says something else: data, the end of the stream, or another error.
abbrev pub IsAnswer : Recv → Type 0
IsAnswer r = (is_positive r.ret ≡ true) ⊎ ((is_zero r.ret || not r.is_again) ≡ true)

answer-ends :
    (fd : ℕ) (r : Recv) (rs : List Recv)
    → IsAnswer r
    → receive fd (r ∷ rs)
      ≡ some (
          if is_positive r.ret then Action.send fd ∷ Action.close fd ∷ [] else Action.close fd ∷ [])
unfolding receive
answer-ends fd r rs h = elim (Bool-cases (is_positive r.ret)) [
  | inl e ↦ rw e refl
  | inr e ↦ elim h [ inl e' ↦ absurd (true≢false (sym e' ∙ e)) | inr e' ↦ rw (e, e') refl ]
]

-- While `recv` gives EAGAIN the callback of a connection stays in its loop, which does not yield; the
-- first other return ends it: with data the response is sent and the connection is closed, at the end
-- of the stream or on an error the connection is closed, once in each case.
pub receive-answers :
    (fd : ℕ) (waits : List Recv) (r : Recv) (rest : List Recv)
    → All IsAgain waits
    → IsAnswer r
    → (receive fd waits ≡ none)
      × (receive fd (waits ++ r ∷ rest)
          ≡ some (
              if is_positive r.ret
              then Action.send fd ∷ Action.close fd ∷ []
              else Action.close fd ∷ []))
receive-answers fd [] r rest h answer = (none_yet, answer-ends fd r rest answer)
  where
    none_yet : receive fd [] ≡ none
    none_yet = unfold receive in refl
receive-answers fd (w ∷ waits) r rest h answer =
    let (waiting, ends) = receive-answers fd waits r rest h.1 answer in
    (again-skips fd w waits h.0 ∙ waiting, again-skips fd w (waits ++ r ∷ rest) h.0 ∙ ends)
