-- ===== src/Accommodations/Anchors.antt =====
-- Which stays a day starts and ends in, and the days on which the lodging changes.
use travel_llm_planner.Common.{
  ℕ, zero, suc, ◌+◌, ◌≤◌, ◌<◌, ◌≡◌, ◌≢◌, ◌↔◌, refl, Bool, true, Option, some, none, List, [], ◌∷◌,
  inl, inr, All, get_elem?, Bool-cases, Option-cases, arith, sym, ap, ◌∙◌,
}
use native.Mathlib.Decide.{ℕ_discrete}
use travel_llm_planner.Accommodations.{
  AccommodationStay, find_stay, woke_up_in, sleeps_in, resolve_day, differ, is_transition_day,
}
use travel_llm_planner.Accommodations.Overlaps.{Apart, AllApart, Apart-symm}

All-at :
    (P : AccommodationStay → Type 0) (ss : List AccommodationStay) (i : ℕ) {s : AccommodationStay}
    → All P ss
    → get_elem? ss i ≡ some s
    → P s
All-at P [] i all e = cc
All-at P (t ∷ ts) zero {s} (p, all) e = let same : t ≡ s = cc in rw (sym same) p
All-at P (t ∷ ts) (suc i) (p, all) e = All-at P ts i all e

Apart-at :
    (ss : List AccommodationStay) (i j : ℕ) {s t : AccommodationStay}
    → AllApart ss
    → get_elem? ss i ≡ some s
    → get_elem? ss j ≡ some t
    → i ≢ j
    → Apart s t
Apart-at [] i j h ei ej ne = cc
Apart-at (u ∷ us) zero zero h ei ej ne = absurd (ne refl)
Apart-at (u ∷ us) zero (suc j) {s} {t} (far, h) ei ej ne =
    let same : u ≡ s = cc in rw (sym same) (All-at (Apart u) us j far ej)
Apart-at (u ∷ us) (suc i) zero {s} {t} (far, h) ei ej ne =
    let same : u ≡ t = cc in rw (sym same) (Apart-symm u s (All-at (Apart u) us i far ei))
Apart-at (u ∷ us) (suc i) (suc j) (far, h) ei ej ne = Apart-at us i j h ei ej (λ e. ne (ap suc e))

-- What the search finds stands at its position and passes the test.
abbrev FoundAt :
    (AccommodationStay → Bool) → List AccommodationStay → ℕ → ℕ × AccommodationStay → Type 0
FoundAt test ss k found =
    (m : ℕ) × (found.0 ≡ m + k) × (get_elem? ss m ≡ some found.1) × (test found.1 ≡ true)

find_stay-FoundAt :
    (test : AccommodationStay → Bool) (k : ℕ) (ss : List AccommodationStay)
    {found : ℕ × AccommodationStay}
    → find_stay test k ss ≡ some found
    → FoundAt test ss k found
unfolding find_stay
find_stay-FoundAt test k [] e = cc
find_stay-FoundAt test k (s ∷ ss) {found} e = elim (Bool-cases (test s)) [
  | inl passed ↦
      let first : some (k, s) ≡ some found = rw passed at e in
      let same : (k, s) ≡ found = cc in rw (sym same) (zero, omega arith, refl, passed)
  | inr failed ↦
      let rest : find_stay test (suc k) ss ≡ some found = rw failed at e in
      let (m, position, at, ok) = find_stay-FoundAt test (suc k) ss rest in
      (suc m, omega arith, at, ok)
]

find_stay-some :
    (test : AccommodationStay → Bool) (k i : ℕ) (ss : List AccommodationStay)
    {s : AccommodationStay}
    → get_elem? ss i ≡ some s
    → test s ≡ true
    → find_stay test k ss ≢ none
unfolding find_stay
find_stay-some test k i [] e passed none_found = cc
find_stay-some test k zero (t ∷ ts) {s} e passed none_found =
    let same : t ≡ s = cc in ground (arith, same, passed, none_found)
find_stay-some test k (suc i) (t ∷ ts) e passed none_found = elim (Bool-cases (test t)) [
  | inl hit ↦ ground (arith, hit, none_found)
  | inr failed ↦ find_stay-some test (suc k) i ts e passed (rw failed at none_found)
]

-- The stay at a position is the one found when every other stay fails the test.
find_stay_unique :
    (test : AccommodationStay → Bool) (ss : List AccommodationStay) (i : ℕ) {s : AccommodationStay}
    → get_elem? ss i ≡ some s
    → test s ≡ true
    → ((j : ℕ) (t : AccommodationStay) → get_elem? ss j ≡ some t → test t ≡ true → j ≡ i)
    → find_stay test 0 ss ≡ some (i, s)
find_stay_unique test ss i {s} at passed only = elim (Option-cases (find_stay test 0 ss)) [
  | inl missing ↦ absurd (find_stay-some test 0 i ss at passed missing)
  | inr ((j, t), e) ↦
      let (m, position, at_m, ok) = find_stay-FoundAt test 0 ss e in
      let same_place : m ≡ i = only m t at_m ok in
      let same_index : j ≡ i = omega arith in
      let same_stay : some t ≡ some s = sym at_m ∙ ap (get_elem? ss) same_place ∙ at in cc
]

-- Two stays, at the positions `i` and `j`, between which the lodging changes on the day.
abbrev pub Changeover : List AccommodationStay → ℕ → Type 0
Changeover stays day =
    (i : ℕ) × (j : ℕ) × (s : AccommodationStay) × (t : AccommodationStay) × (get_elem? stays i
      ≡ some s)
    × (get_elem? stays j ≡ some t)
    × (s.check_in_date < day)
    × (s.check_out_date ≡ day)
    × (t.check_in_date ≡ day)
    × (day < t.check_out_date)

woke_up_in_sound :
    (day : ℕ) (s : AccommodationStay)
    → woke_up_in day s ≡ true
    → (s.check_in_date < day) × (day ≤ s.check_out_date)
woke_up_in_sound day s h = ground (arith, h)

sleeps_in_sound :
    (day : ℕ) (s : AccommodationStay)
    → sleeps_in day s ≡ true
    → (s.check_in_date ≤ day) × (day < s.check_out_date)
sleeps_in_sound day s h = ground (arith, h)

differ-some :
    (a b : Option (ℕ × AccommodationStay))
    → differ a b ≡ true
    → (i : ℕ) × (s : AccommodationStay) × (j : ℕ) × (t : AccommodationStay) × (a ≡ some (i, s))
      × (b ≡ some (j, t))
      × (i ≢ j)
differ-some (some (i, s)) (some (j, t)) h = (i, s, j, t, refl, refl, λ e. ground (arith, e, h))
differ-some (some (i, s)) none h = cc
differ-some none b h = cc

module _ (stays : List AccommodationStay) (day : ℕ) (apart : AllApart stays) where
  woke_up_in_unique :
      (i j : ℕ) (s t : AccommodationStay)
      → get_elem? stays i ≡ some s
      → get_elem? stays j ≡ some t
      → woke_up_in day s ≡ true
      → woke_up_in day t ≡ true
      → j ≡ i
  woke_up_in_unique i j s t at_i at_j woke_s woke_t = elim (ℕ_discrete j i) [
    | yes same_place ↦ same_place
    | no other ↦
        let (s_in, s_out) = woke_up_in_sound day s woke_s in
        let (t_in, t_out) = woke_up_in_sound day t woke_t in
        elim (Apart-at stays j i apart at_j at_i other) [
          | inl h ↦ omega arith
          | inr h ↦ omega arith
        ]
  ]

  sleeps_in_unique :
      (i j : ℕ) (s t : AccommodationStay)
      → get_elem? stays i ≡ some s
      → get_elem? stays j ≡ some t
      → sleeps_in day s ≡ true
      → sleeps_in day t ≡ true
      → j ≡ i
  sleeps_in_unique i j s t at_i at_j sleeps_s sleeps_t = elim (ℕ_discrete j i) [
    | yes same_place ↦ same_place
    | no other ↦
        let (s_in, s_out) = sleeps_in_sound day s sleeps_s in
        let (t_in, t_out) = sleeps_in_sound day t sleeps_t in
        elim (Apart-at stays j i apart at_j at_i other) [
          | inl h ↦ omega arith
          | inr h ↦ omega arith
        ]
  ]

  transition-Changeover : is_transition_day (resolve_day stays day) ≡ true → Changeover stays day
  unfolding is_transition_day resolve_day
  transition-Changeover h =
      let (i, s, j, t, start, end, other) =
        differ-some (find_stay (woke_up_in day) 0 stays) (find_stay (sleeps_in day) 0 stays) h in
      let (m, m_i, at_m, woke) = find_stay-FoundAt (woke_up_in day) 0 stays start in
      let (n, n_j, at_n, sleeps) = find_stay-FoundAt (sleeps_in day) 0 stays end in
      let (s_in, s_out) = woke_up_in_sound day s woke in
      let (t_in, t_out) = sleeps_in_sound day t sleeps in
      let away = Apart-at stays m n apart at_m at_n (λ e. other (omega arith)) in
      elim away [
        | inl first ↦ (m, n, s, t, at_m, at_n, s_in, omega arith, omega arith, t_out)
        | inr later ↦ absurd (omega arith)
      ]

  Changeover-transition : Changeover stays day → is_transition_day (resolve_day stays day) ≡ true
  unfolding is_transition_day resolve_day
  Changeover-transition (i, j, s, t, at_i, at_j, s_in, s_out, t_in, t_out) =
      let woke : woke_up_in day s ≡ true = ground (arith, s_in, s_out) in
      let sleeps : sleeps_in day t ≡ true = ground (arith, t_in, t_out) in
      let start =
        find_stay_unique (woke_up_in day) stays i at_i woke
          (λ k u at_k woke_u. woke_up_in_unique i k s u at_i at_k woke woke_u) in
      let end =
        find_stay_unique (sleeps_in day) stays j at_j sleeps
          (λ k u at_k sleeps_u. sleeps_in_unique j k t u at_j at_k sleeps sleeps_u) in
      let other : i ≢ j = λ e.
        let same_stay : some s ≡ some t = sym at_i ∙ ap (get_elem? stays) e ∙ at_j in
        let same_one : s ≡ t = cc in
        let same_out : s.check_out_date ≡ t.check_out_date =
          ap (λ (u : AccommodationStay). u.check_out_date) same_one in
        omega arith in
      rw (start, end) (ground (arith, other))

  -- Where no two stays share a night, a day is a transition day exactly when it is the check-out day
  -- of a stay that began before it and the check-in day of another stay that lasts beyond it.
  pub is_transition_day_iff :
      (is_transition_day (resolve_day stays day) ≡ true) ↔ Changeover stays day
  is_transition_day_iff = (transition-Changeover, Changeover-transition)
