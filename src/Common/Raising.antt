-- ===== src/Common/Raising.antt =====
-- Code that raises exceptions, as values.
use mathlib.Core.Path.{◌≡◌, refl, ap, subst}
use mathlib.Core.List.{List, [], ◌∷◌}
use mathlib.Core.Logic.{◌⊎◌, inl, inr}
use mathlib.Core.Bool.{Bool, true, false}

-- What a step comes to: an exception that leaves it, or its value.
pub data Raising (E V : Type 0) : Type 0 where
  raise : E → Raising E V
  ok : V → Raising E V

module _ {E V W : Type 0} where
  infixl 5 ◌>>=◌
  abbrev pub ◌>>=◌ : Raising E V → (V → Raising E W) → Raising E W
  raise error >>= continue = raise error
  ok value >>= continue = continue value

  -- Where a chain of steps comes to a value, so did its first step.
  pub >>=-eq-ok :
      (step : Raising E V) (continue : V → Raising E W) {last : W}
      → (step >>= continue) ≡ ok last
      → (value : V) × (step ≡ ok value) × (continue value ≡ ok last)
  >>=-eq-ok (raise error) continue chained = cc
  >>=-eq-ok (ok value) continue chained = (value, refl, chained)

-- `if not test: raise error`
abbrev pub ensure : {E : Type 0} → Bool → E → Raising E (Unit {0})
ensure true error = ok tt
ensure false error = raise error

pub ensure-ok :
    {E : Type 0} (b : Bool) (error : E) {u : Unit {0}} → ensure b error ≡ ok u → b ≡ true
ensure-ok true error h = refl
ensure-ok false error h = cc

pub Raising-cases :
    {E V : Type 0} (m : Raising E V)
    → ((error : E) × (m ≡ raise error)) ⊎ ((value : V) × (m ≡ ok value))
Raising-cases (raise error) = inl (error, refl)
Raising-cases (ok value) = inr (value, refl)

-- Equal results of one type have equal parts.
pub ok-eq : {E V W : Type 0} (f : V → W) {a b : V} → ◌≡◌ {A = Raising E V} (ok a) (ok b) → f a ≡ f b
ok-eq f {a} {b} e = let equal : a ≡ b = cc in ap f equal

-- A loop whose body may raise.
unfoldable pub for_each : {E S A : Type 0} → (S → A → Raising E S) → S → List A → Raising E S
for_each body st [] = ok st
for_each body st (x ∷ xs) = body st x >>= λ next. for_each body next xs

-- A loop keeps what its body keeps.
pub for_each-keeps :
    {E S A : Type 0} (P : S → Type 0) (body : S → A → Raising E S)
    → ((st : S) (x : A) (st' : S) → body st x ≡ ok st' → P st → P st')
    → (xs : List A) (st st' : S) → for_each body st xs ≡ ok st'
    → P st
    → P st'
unfolding for_each
for_each-keeps P body step [] st st' done p = let e : st ≡ st' = cc in subst P e p
for_each-keeps P body step (x ∷ xs) st st' done p =
    let (next, e, rest) = >>=-eq-ok (body st x) _ done in
    for_each-keeps P body step xs next st' rest (step st x next e p)
