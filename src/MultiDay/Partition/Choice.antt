-- ===== src/MultiDay/Partition/Choice.antt =====
-- The candidates for a place, and the one with the most room.
use travel_llm_planner.Common.{
  if◌then◌else◌, ℕ, zero, suc, ◌+◌, ◌≤◌, ◌<◌, ◌≡◌, refl, ap, subst, sym, inl, inr, Bool, true,
  false, Option, none, some, List, [], ◌∷◌, ◌==◌, length, get_elem?, All, All-map, arith,
  Bool-cases, Option-cases,
}
use travel_llm_planner.Common.Raising.{ok, >>=-eq-ok}
use travel_llm_planner.Places.{PlaceDoc}
use travel_llm_planner.Planner.{is_among}
use travel_llm_planner.MultiDay.{TransitionDayContext}
use travel_llm_planner.MultiDay.Partition.{
  DayBuckets, Minutes, Candidate, exceeds, remaining_capacity, candidate, candidate_on, classify,
  admitted, best_of,
}

abbrev pub room : Candidate → Minutes
room c = remaining_capacity c.day c.side

abbrev pub AtMost : Minutes → Minutes → Type 0
AtMost a b = a.ceiling + b.used ≤ b.ceiling + a.used

module _ (P : Candidate → Type 0) where
  pub best_of-All : (c : Candidate) (cs : List Candidate) → P c → All P cs → P (best_of c cs)
  unfolding best_of
  best_of-All best [] p ps = p
  best_of-All best (c ∷ cs) p (q, ps) = elim (Bool-cases (exceeds (room c) (room best))) [
    | inl more ↦ rw (more, best_of) (best_of-All c cs q ps)
    | inr less ↦ rw (less, best_of) (best_of-All best cs p ps)
  ]

  kept-All :
      (b : Bool) (c : Candidate) (rest : List Candidate)
      → (b ≡ true → P c)
      → All P rest
      → All P (if b then c ∷ rest else rest)
  kept-All true c rest p ps = (p refl, ps)
  kept-All false c rest p ps = ps

pub admitted-All :
    (P : Candidate → Type 0) (cs : List Candidate)
    → All P cs
    → All (λ c. P c × (c.is_admissible ≡ true)) (admitted cs)
unfolding admitted
admitted-All P [] ps = tt
admitted-All P (c ∷ cs) (p, ps) =
    kept-All (λ c. P c × (c.is_admissible ≡ true)) c.is_admissible c (admitted cs)
      (λ fits. (p, fits)) (admitted-All P cs ps)

pub admitted-All_back :
    (P : Candidate → Type 0) (cs : List Candidate)
    → All P (admitted cs)
    → All (λ c. c.is_admissible ≡ true → P c) cs
unfolding admitted
admitted-All_back P [] ps = tt
admitted-All_back P (c ∷ cs) ps = back c.is_admissible refl ps (λ rest. admitted-All_back P cs rest)
  where
    back :
        (b : Bool)
        → c.is_admissible ≡ b
        → All P (if b then c ∷ admitted cs else admitted cs)
        → (All P (admitted cs) → All (λ c. c.is_admissible ≡ true → P c) cs)
        → All (λ c. c.is_admissible ≡ true → P c) (c ∷ cs)
    back true e (p, ps) go = ((λ fits. p), go ps)
    back false e ps go = ((λ fits. cc), go ps)

abbrev better : Candidate → Candidate → Candidate
better best c = if exceeds (room c) (room best) then c else best

better-AtMost :
    (best c : Candidate)
    → AtMost (room best) (room (better best c)) × AtMost (room c) (room (better best c))
better-AtMost best c = elim (Bool-cases (exceeds (room c) (room best))) [
  | inl more ↦ rw more (ground arith)
  | inr less ↦ rw less (ground arith)
]

-- No candidate has more room than the chosen one.
pub best_of-AtMost :
    (best : Candidate) (cs : List Candidate)
    → All (λ c. AtMost (room c) (room (best_of best cs))) (best ∷ cs)
unfolding best_of
best_of-AtMost best [] = (omega arith, tt)
best_of-AtMost best (c ∷ cs) =
    let (le, others) = best_of-AtMost (better best c) cs in
    let (old, new) = better-AtMost best c in (omega arith, (omega arith, others))

pub get_elem?-some :
    (xs : List DayBuckets) (i : ℕ) → i < length xs → (x : DayBuckets) × (get_elem? xs i ≡ some x)
get_elem?-some [] i lt = absurd (omega arith)
get_elem?-some (x ∷ xs) zero lt = (x, refl)
get_elem?-some (x ∷ xs) (suc i) lt = get_elem?-some xs i (omega arith)

pub is_false : (b : Bool) → (b ≡ true → ⊥) → b ≡ false
is_false true never = absurd (never refl)
is_false false never = refl

module _ (haversine_km : ℕ → ℕ → ℕ → ℕ → ℕ) (days : List DayBuckets) (doc : PlaceDoc) where
  -- The candidate is what `admissible` makes of one of these days.
  pub record IsFrom (is : List ℕ) (c : Candidate) : Type 0 where
    pub there : get_elem? days c.day_index ≡ some c.day
    pub made : c ≡ candidate haversine_km c.day_index c.day doc
    pub among : is_among c.day_index is ≡ true

  candidate_on_lem :
      (ctx : Option TransitionDayContext) (i : ℕ) (day : DayBuckets)
      → ((candidate_on haversine_km ctx i day doc).day_index ≡ i)
        × ((candidate_on haversine_km ctx i day doc).day ≡ day)
  unfolding candidate_on
  candidate_on_lem none i day = (refl, refl)
  candidate_on_lem (some ctx) i day = (refl, refl)

  candidate_lem :
      (i : ℕ) (day : DayBuckets)
      → ((candidate haversine_km i day doc).day_index ≡ i)
        × ((candidate haversine_km i day doc).day ≡ day)
  unfolding candidate
  candidate_lem i day = candidate_on_lem day.context i day

  candidate-IsFrom :
      (i : ℕ) (is : List ℕ) (day : DayBuckets)
      → get_elem? days i ≡ some day
      → IsFrom (i ∷ is) (candidate haversine_km i day doc)
  unfolding candidate is_among
  candidate-IsFrom i is day h =
      let (e, f) = candidate_lem i day in
      record { there = rw (e, f) h; made = rw (e, f) refl; among = rw e (ground arith) }

  IsFrom-cons : (i : ℕ) (is : List ℕ) (c : Candidate) → IsFrom is c → IsFrom (i ∷ is) c
  unfolding is_among
  IsFrom-cons i is c h = record { there = h.there; made = h.made; among = ground (arith, h.among) }

  -- `classified` holds the candidates of the days listed, in their order.
  pub classify-IsFrom :
      (is : List ℕ) (cs : List Candidate)
      → classify haversine_km days doc is ≡ ok cs
      → All (IsFrom is) cs
  unfolding classify
  classify-IsFrom [] cs h = let e : [] ≡ cs = cc in subst (All (IsFrom [])) e tt
  classify-IsFrom (i ∷ is) cs h = elim (Option-cases (get_elem? days i)) [
    | inl nothing ↦ cc (rw (nothing, classify) at h)
    | inr (day, found) ↦
        let (rest, e, h') =
          >>=-eq-ok (classify haversine_km days doc is) _ (rw (found, classify) at h) in
        let made : candidate haversine_km i day doc ∷ rest ≡ cs = cc in
        subst (All (IsFrom (i ∷ is))) made (
          candidate-IsFrom i is day found,
          All-map (IsFrom is) (IsFrom (i ∷ is)) (IsFrom-cons i is) rest (classify-IsFrom is rest e),
        )
  ]

  -- And of every day listed.
  pub classify_complete :
      (Q : Candidate → Type 0) (is : List ℕ) (cs : List Candidate)
      → classify haversine_km days doc is ≡ ok cs
      → All Q cs
      → (i : ℕ) (day : DayBuckets) → get_elem? days i ≡ some day
      → is_among i is ≡ true
      → Q (candidate haversine_km i day doc)
  unfolding classify is_among
  classify_complete Q [] cs h all i day there among = cc
  classify_complete Q (j ∷ is) cs h all i day there among = elim (Option-cases (get_elem? days j)) [
    | inl nothing ↦ cc (rw (nothing, classify) at h)
    | inr (day', found) ↦
        let (rest, e, h') =
          >>=-eq-ok (classify haversine_km days doc is) _ (rw (found, classify) at h) in
        let made : cs ≡ candidate haversine_km j day' doc ∷ rest = cc in
        let (q, qs) = subst (All Q) made all in
        elim (Bool-cases (i == j)) [
          | inl hit ↦
              let same : i ≡ j = ground arith in
              let there' : get_elem? days j ≡ some day =
                subst (λ k. get_elem? days k ≡ some day) same there in
              let same_day : day' ≡ day = cc in
              subst (λ k. Q (candidate haversine_km k day doc)) (sym same)
                (subst (λ d. Q (candidate haversine_km j d doc)) same_day q)
          | inr miss ↦ classify_complete Q is rest e qs i day there (ground arith)
        ]
  ]

  -- Days that are there never raise.
  pub classify_total :
      (is : List ℕ)
      → All (λ i. i < length days) is
      → (cs : List Candidate) × (classify haversine_km days doc is ≡ ok cs)
        × (length cs ≡ length is)
  unfolding classify
  classify_total [] all = ([], refl, refl)
  classify_total (i ∷ is) (lt, all) =
      let (rest, e, same) = classify_total is all in
      let (day, found) = get_elem?-some days i lt in
      (candidate haversine_km i day doc ∷ rest, rw (found, classify) (rw e refl), ap suc same)
