-- ===== src/Window/Earliest.antt =====
-- `earliest_start` finds the least start at which the visit fits into one segment.
use travel_llm_planner.Common.{
  ℕ, ◌+◌, ◌≤◌, ◌≡◌, none, some, ◌⊎◌, inl, inr, List, [], ◌∷◌, All, Bool-cases, Option-cases, arith,
  leb, max,
}
use travel_llm_planner.Window.{
  Segment, TimeWindow, segment_le, insert_segment, sort_segments, single, from_segments,
  earliest_in, earliest_start,
}
use travel_llm_planner.Window.Sorting.{IsOrdered, sort-IsOrdered}

-- A visit of `visit_s` seconds from `start` stays inside one of the segments.
abbrev pub Fits : List Segment → ℕ → ℕ → Type 0
Fits [] visit_s start = ⊥
Fits (seg ∷ rest) visit_s start =
    (seg.open_s ≤ start) × (start + visit_s ≤ seg.close_s) ⊎ Fits rest visit_s start

-- `s` is the least start from `arrival_s` on at which the visit fits.
pub record IsEarliest (ss : List Segment) (arrival_s visit_s s : ℕ) : Type 0 where
  pub waits : arrival_s ≤ s
  pub fits : Fits ss visit_s s
  pub least : (t : ℕ) → arrival_s ≤ t → Fits ss visit_s t → s ≤ t

Fits-open :
    (a : ℕ) (ss : List Segment) (v t : ℕ) → All (λ seg. a ≤ seg.open_s) ss → Fits ss v t → a ≤ t
Fits-open a [] v t all f = elim f [ ]
Fits-open a (seg ∷ rest) v t all (inl h) = omega arith
Fits-open a (seg ∷ rest) v t all (inr h) = Fits-open a rest v t all.1 h

-- The first segment that takes the visit gives the least start, since the segments are ordered.
earliest_in-least :
    (ss : List Segment) (a v s : ℕ)
    → IsOrdered ss
    → earliest_in ss a v ≡ some s
    → IsEarliest ss a v s
unfolding earliest_in
earliest_in-least [] a v s o h = cc
earliest_in-least (seg ∷ rest) a v s o h =
    elim (Bool-cases (leb (max a seg.open_s + v) seg.close_s)) [
      | inl fit ↦
          let e : max a seg.open_s ≡ s = ground arith in
          record {
            waits = omega arith;
            fits = inl (omega arith, ground arith);
            least = λ t after. elim [
              | inl here ↦ omega arith
              | inr there ↦ let later = Fits-open seg.open_s rest v t o.0 there in omega arith
            ];
          }
      | inr small ↦
          let ih = earliest_in-least rest a v s o.1 (ground arith) in
          record {
            waits = ih.waits;
            fits = inr ih.fits;
            least = λ t after. elim [
              | inl here ↦ absurd (ground arith)
              | inr there ↦ ih.least t after there
            ];
          }
    ]

-- Nothing is returned only when no start fits, whatever the order of the segments.
earliest_in-none :
    (ss : List Segment) (a v t : ℕ) → earliest_in ss a v ≡ none → a ≤ t → ¬ Fits ss v t
unfolding earliest_in
earliest_in-none [] a v t h after f = elim f [ ]
earliest_in-none (seg ∷ rest) a v t h after (inl here) = ground arith
earliest_in-none (seg ∷ rest) a v t h after (inr there) =
    earliest_in-none rest a v t (ground arith) after there

-- Sorting moves no segment in or out.
Fits-insert :
    (s : Segment) (ss : List Segment) (v t : ℕ) → Fits (s ∷ ss) v t → Fits (insert_segment s ss) v t
unfolding insert_segment
Fits-insert s [] v t f = f
Fits-insert s (u ∷ us) v t (inl here) =
    ground (arith, let ih : Fits (insert_segment s us) v t = Fits-insert s us v t (inl here) in ih)
Fits-insert s (u ∷ us) v t (inr (inl next)) = ground arith
Fits-insert s (u ∷ us) v t (inr (inr there)) =
    ground (arith, let ih : Fits (insert_segment s us) v t = Fits-insert s us v t (inr there) in ih)

insert-Fits :
    (s : Segment) (ss : List Segment) (v t : ℕ) → Fits (insert_segment s ss) v t → Fits (s ∷ ss) v t
unfolding insert_segment
insert-Fits s [] v t f = f
insert-Fits s (u ∷ us) v t f = elim (Bool-cases (segment_le s u)) [
  | inl first ↦ rw first at f
  | inr later ↦ go (insert-Fits s us v t) (rw later at f)
]
  where
    go :
        (Fits (insert_segment s us) v t → Fits (s ∷ us) v t)
        → (u.open_s ≤ t) × (t + v ≤ u.close_s) ⊎ Fits (insert_segment s us) v t
        → Fits (s ∷ u ∷ us) v t
    go ih (inl here) = inr (inl here)
    go ih (inr there) = elim (ih there) [ inl here ↦ inl here | inr after ↦ inr (inr after) ]

pub Fits-sort : (ss : List Segment) (v t : ℕ) → Fits ss v t → Fits (sort_segments ss) v t
unfolding sort_segments
Fits-sort [] v t f = f
Fits-sort (s ∷ ss) v t (inl here) = Fits-insert s _ v t (inl here)
Fits-sort (s ∷ ss) v t (inr there) = Fits-insert s _ v t (inr (Fits-sort ss v t there))

pub sort-Fits : (ss : List Segment) (v t : ℕ) → Fits (sort_segments ss) v t → Fits ss v t
unfolding sort_segments
sort-Fits [] v t f = f
sort-Fits (s ∷ ss) v t f = elim (insert-Fits s _ v t f) [
  | inl here ↦ inl here
  | inr there ↦ inr (sort-Fits ss v t there)
]

-- Both constructors order the segments.
abbrev pub IsOrderedWindow : TimeWindow → Type 0
IsOrderedWindow w = IsOrdered w.segments

pub from_segments-IsOrderedWindow : (ss : List Segment) → IsOrderedWindow (from_segments ss)
unfolding from_segments
from_segments-IsOrderedWindow ss = sort-IsOrdered ss

pub single-IsOrderedWindow : (o c : ℕ) → IsOrderedWindow (single o c)
unfolding single
single-IsOrderedWindow o c = (tt, tt)

-- On an ordered window `earliest_start` answers with the least start, and with nothing only when
-- no start fits.
pub earliest_start_cases :
    (w : TimeWindow) (a v : ℕ)
    → IsOrderedWindow w
    → ((s : ℕ) × (earliest_start w a v ≡ some s) × IsEarliest w.segments a v s)
      ⊎ (earliest_start w a v ≡ none) × ((t : ℕ) → a ≤ t → ¬ Fits w.segments v t)
unfolding earliest_start
earliest_start_cases w a v o = elim (Option-cases (earliest_in w.segments a v)) [
  | inl nothing ↦ inr (nothing, λ t. earliest_in-none w.segments a v t nothing)
  | inr (s, found) ↦ inl (s, found, earliest_in-least w.segments a v s o found)
]

-- For a window built from any list of segments, in any order and also when they overlap: either
-- `earliest_start` returns the least start from the arrival on at which the visit fits into one
-- of the given segments, or it returns nothing and the visit fits at no start from the arrival on.
pub earliest_start-from_segments :
    (ss : List Segment) (a v : ℕ)
    → ((s : ℕ) × (earliest_start (from_segments ss) a v ≡ some s) × IsEarliest ss a v s)
      ⊎ (earliest_start (from_segments ss) a v ≡ none) × ((t : ℕ) → a ≤ t → ¬ Fits ss v t)
unfolding from_segments
earliest_start-from_segments ss a v =
    elim (earliest_start_cases (from_segments ss) a v (from_segments-IsOrderedWindow ss)) [
      | inl (s, found, e) ↦ inl (
        s,
        found,
        record {
          waits = e.waits;
          fits = sort-Fits ss v s e.fits;
          least = λ t after f. e.least t after (Fits-sort ss v t f);
        },
      )
      | inr (nothing, never) ↦ inr (nothing, λ t after f. never t after (Fits-sort ss v t f))
    ]
