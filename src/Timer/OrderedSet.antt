-- ===== src/Timer/OrderedSet.antt =====
-- `std::set<std::shared_ptr<Timer>, Timer::Comparator>` of src/timer/timer.h as the sorted list of its
-- elements. The set takes two elements for one when neither is less than the other, and so keeps at
-- most one timer for each deadline.
pub mod Order
pub mod Members
use coroutinelib.Base.{
  ℕ, Option, none, some, Bool, true, false, not, List, [], ◌∷◌, ◌==◌, ◌||◌, if◌then◌else◌,
}

module _ (lt : ℕ → ℕ → Bool) where
  -- `insert(x)`: an element that is equivalent to one in the set is dropped.
  unfoldable pub insert : ℕ → List ℕ → List ℕ
  insert x [] = x ∷ []
  insert x (y ∷ ys) =
      let rest = insert x ys in if lt x y then x ∷ y ∷ ys else if lt y x then y ∷ rest else y ∷ ys

  -- `insert(x).first == begin()`, from the set before the call.
  unfoldable pub inserts_at_begin : ℕ → List ℕ → Bool
  inserts_at_begin x [] = true
  inserts_at_begin x (y ∷ ys) = not (lt y x)

  -- `find(x)`: the element that is equivalent to `x`, or `end()`.
  unfoldable pub find : ℕ → List ℕ → Option ℕ
  find x [] = none
  find x (y ∷ ys) = let rest = find x ys in if lt x y || lt y x then rest else some y

-- `erase(it)`, with the element at `it`.
unfoldable pub erase : ℕ → List ℕ → List ℕ
erase x [] = []
erase x (y ∷ ys) = let rest = erase x ys in if x == y then ys else y ∷ rest
