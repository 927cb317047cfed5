-- ===== src/Editing/InPlace.antt =====
-- Entries of a dump that are filtered or written in place.
use travel_llm_planner.Common.{
  ℕ, zero, suc, if◌then◌else◌, Bool, true, false, Option, none, some, List, [], ◌∷◌,
}

-- `filter`
unfoldable pub keep_if {ℓ} : {A : Type ℓ} → (A → Bool) → List A → List A
keep_if test [] = []
keep_if test (x ∷ xs) = if test x then x ∷ keep_if test xs else keep_if test xs

-- The entry at a position, changed in place; nothing is changed out of range.
unfoldable pub update_at {ℓ} : {A : Type ℓ} → ℕ → (A → A) → List A → List A
update_at i f [] = []
update_at zero f (x ∷ xs) = f x ∷ xs
update_at (suc i) f (x ∷ xs) = x ∷ update_at i f xs

abbrev pub given {ℓ} : {A : Type ℓ} → Option A → A → A
given none old = old
given (some new) old = new

abbrev pub cleared {ℓ} : {A : Type ℓ} → Bool → Option A → Option A
cleared true old = none
cleared false old = old
