-- ===== src/Window/Sorting.antt =====
-- `sorted` puts the segments in order of opening and keeps each of them.
use mathlib.Core.List.Perm
use travel_llm_planner.Common.{ℕ, ◌≤◌, inl, inr, List, [], ◌∷◌, Perm, All, Bool-cases, arith}
use travel_llm_planner.Window.{Segment, segment_le, insert_segment, sort_segments}

-- Each segment opens no later than those behind it.
abbrev pub IsOrdered : List Segment → Type 0
IsOrdered [] = Unit {0}
IsOrdered (s ∷ ss) = All (λ t. s.open_s ≤ t.open_s) ss × IsOrdered ss

All-mono :
    (a b : ℕ) (ss : List Segment) → a ≤ b → All (λ t. b ≤ t.open_s) ss → All (λ t. a ≤ t.open_s) ss
All-mono a b [] h all = tt
All-mono a b (s ∷ ss) h all = (omega arith, All-mono a b ss h all.1)

insert-All :
    (a : ℕ) (s : Segment) (ss : List Segment)
    → a ≤ s.open_s
    → All (λ t. a ≤ t.open_s) ss
    → All (λ t. a ≤ t.open_s) (insert_segment s ss)
unfolding insert_segment
insert-All a s [] h all = (h, tt)
insert-All a s (t ∷ ts) h all = ground (arith, insert-All a s ts h all.1)

insert-IsOrdered :
    (s : Segment) (ss : List Segment) → IsOrdered ss → IsOrdered (insert_segment s ss)
unfolding insert_segment
insert-IsOrdered s [] o = (tt, tt)
insert-IsOrdered s (t ∷ ts) o = elim (Bool-cases (segment_le s t)) [
  | inl first ↦ rw first ((ground arith, All-mono s.open_s t.open_s ts (ground arith) o.0), o)
  | inr later ↦ rw later (insert-All t.open_s s ts (ground arith) o.0, insert-IsOrdered s ts o.1)
]

pub sort-IsOrdered : (ss : List Segment) → IsOrdered (sort_segments ss)
unfolding sort_segments
sort-IsOrdered [] = tt
sort-IsOrdered (s ∷ ss) = insert-IsOrdered s (sort_segments ss) (sort-IsOrdered ss)

insert-perm : (s : Segment) (ss : List Segment) → Perm (insert_segment s ss) (s ∷ ss)
unfolding insert_segment
insert-perm s [] = Perm.rfl
insert-perm s (t ∷ ts) = elim (Bool-cases (segment_le s t)) [
  | inl first ↦ rw first Perm.rfl
  | inr later ↦ rw later (Perm.trans (Perm.cons t (insert-perm s ts)) (Perm.swap s t ts))
]

pub sort-perm : (ss : List Segment) → Perm (sort_segments ss) ss
unfolding sort_segments
sort-perm [] = Perm.rfl
sort-perm (s ∷ ss) = Perm.trans (insert-perm s (sort_segments ss)) (Perm.cons s (sort-perm ss))
