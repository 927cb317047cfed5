-- ===== src/Hours/Segments.antt =====
-- The segments of `_parse_time_window`, against the bounds that the code computes.
use travel_llm_planner.Common.{
  ℕ, ◌+◌, ◌≤◌, ◌<◌, ◌≡◌, ◌↔◌, ◌⊎◌, inl, inr, max, ltb, leb, true, Option, none, some, List, [], ◌∷◌,
  Bool-cases, arith,
}
use travel_llm_planner.Window.{Segment, TimeWindow, single, from_segments}
use travel_llm_planner.Window.Earliest.{Fits, Fits-sort, sort-Fits}
use travel_llm_planner.Hours.{
  PeriodTime, Period, PlaceHours, time_s, hour_or, is_on, closes_s, close_bound, seg_close, on_day,
  day_segments, window_of, preferred_window, parse_time_window,
}

-- The end comes before the closing, where there is one.
abbrev pub ClosesAfter : PeriodTime → Option PeriodTime → ℕ → Type 0
ClosesAfter opening none end_s = Unit {0}
ClosesAfter opening (some closing) end_s = end_s ≤ closes_s opening closing

-- The visit lies after the opening of the period, and before its closing where it has one.
abbrev pub Inside : Period → ℕ → ℕ → Type 0
Inside p visit_s t = (time_s p.opening ≤ t) × ClosesAfter p.opening p.closing (t + visit_s)

-- The visit lies inside a period of the weekday.
abbrev pub InsideSome : ℕ → List Period → ℕ → ℕ → Type 0
InsideSome weekday [] visit_s t = ⊥
InsideSome weekday (p ∷ ps) visit_s t =
    ((is_on weekday p.opening.day ≡ true) × Inside p visit_s t) ⊎ InsideSome weekday ps visit_s t

-- Opening hours bind only on a known weekday, and only a place that has any.
abbrev pub Opens : Option ℕ → List Period → ℕ → ℕ → Type 0
Opens none periods visit_s t = Unit {0}
Opens (some weekday) [] visit_s t = Unit {0}
Opens (some weekday) (p ∷ ps) visit_s t = InsideSome weekday (p ∷ ps) visit_s t

-- The visit lies inside the preferred hours, or the day's where none are given, and inside the opening
-- hours.
abbrev pub Admits : PlaceHours → ℕ → ℕ → Option ℕ → ℕ → ℕ → Type 0
Admits doc day_start_s day_end_s weekday visit_s t =
    (hour_or doc.preferred_hour_from day_start_s ≤ t)
    × (t + visit_s ≤ hour_or doc.preferred_hour_to day_end_s)
    × Opens weekday doc.periods visit_s t

close_bound-ClosesAfter :
    (close_s : ℕ) (opening : PeriodTime) (closing : Option PeriodTime) (end_s : ℕ)
    → (end_s ≤ close_bound close_s opening closing)
      ↔ ((end_s ≤ close_s) × ClosesAfter opening closing end_s)
close_bound-ClosesAfter close_s opening none end_s = (λ h. (h, tt), λ h. h.0)
close_bound-ClosesAfter close_s opening (some closing) end_s =
    let bound = closes_s opening closing in (λ h. (omega arith, omega arith), λ h. omega arith)

module _ (open_s close_s visit_s t : ℕ) (visits : 0 < visit_s) where
  -- The visit lies inside the segment of the period.
  abbrev InSegment : Period → Type 0
  InSegment p = (max open_s (time_s p.opening) ≤ t) × (t + visit_s ≤ seg_close close_s p)

  -- A segment that is left out could hold no visit.
  first_segment :
      (p : Period) (ps : List Period)
      → Fits (day_segments open_s close_s (p ∷ ps)) visit_s t
        ↔ (InSegment p ⊎ Fits (day_segments open_s close_s ps) visit_s t)
  unfolding day_segments
  first_segment p ps =
      elim (Bool-cases (ltb (max open_s (time_s p.opening)) (seg_close close_s p))) [
        | inl holds ↦ rw holds (λ h. h, λ h. h)
        | inr empty ↦ rw empty (
          λ h. inr h,
          λ h. elim h [
            | inl inside ↦ absurd (ground (arith, empty, inside.0, inside.1, visits))
            | inr later ↦ later
          ],
        )
      ]

  segments-InsideSome :
      (weekday : ℕ) (ps : List Period)
      → Fits (day_segments open_s close_s (on_day weekday ps)) visit_s t
      → (open_s ≤ t) × (t + visit_s ≤ close_s) × InsideSome weekday ps visit_s t
  unfolding on_day
  segments-InsideSome weekday [] f =
      let nowhere : Fits [] visit_s t = unfold day_segments in f in elim nowhere [ ]
  segments-InsideSome weekday (p ∷ ps) f = elim (Bool-cases (is_on weekday p.opening.day)) [
    | inl today ↦
        let kept : Fits (day_segments open_s close_s (p ∷ on_day weekday ps)) visit_s t =
          rw (today, on_day) at f in
        elim ((first_segment p (on_day weekday ps)).0 kept) [
          | inl (starts, ends) ↦
              let (before, closes) =
                (close_bound-ClosesAfter close_s p.opening p.closing (t + visit_s)).0 ends in
              (omega arith, before, inl (today, (omega arith, closes)))
          | inr later ↦
              let (after, before, inside) = segments-InsideSome weekday ps later in
              (after, before, inr inside)
        ]
    | inr other ↦
        let (after, before, inside) = segments-InsideSome weekday ps (rw (other, on_day) at f) in
        (after, before, inr inside)
  ]

  InsideSome-segments :
      (weekday : ℕ) (ps : List Period)
      → open_s ≤ t
      → t + visit_s ≤ close_s
      → InsideSome weekday ps visit_s t
      → Fits (day_segments open_s close_s (on_day weekday ps)) visit_s t
  unfolding on_day
  InsideSome-segments weekday [] after before h = elim h [ ]
  InsideSome-segments weekday (p ∷ ps) after before (inl (today, (starts, closes))) =
      let ends =
        (close_bound-ClosesAfter close_s p.opening p.closing (t + visit_s)).1 (before, closes) in
      rw today ((first_segment p (on_day weekday ps)).1 (inl (omega arith, ends)))
  InsideSome-segments weekday (p ∷ ps) after before (inr later) =
      let rest = InsideSome-segments weekday ps after before later in
      elim (Bool-cases (is_on weekday p.opening.day)) [
        | inl today ↦ rw today ((first_segment p (on_day weekday ps)).1 (inr rest))
        | inr other ↦ rw other rest
      ]

-- The window holds exactly the visits that are allowed, or there is none and no visit is allowed.
abbrev pub Decides : Option TimeWindow → (ℕ → ℕ → Type 0) → Type 0
Decides none allowed = (visit_s t : ℕ) → 0 < visit_s → ¬ allowed visit_s t
Decides (some w) allowed =
    (visit_s t : ℕ) → 0 < visit_s → Fits w.segments visit_s t ↔ allowed visit_s t

preferred_window-Decides :
    (open_s close_s : ℕ)
    → Decides (preferred_window open_s close_s) (λ v t. (open_s ≤ t) × (t + v ≤ close_s) × Unit {0})
unfolding preferred_window single
preferred_window-Decides open_s close_s = elim (Bool-cases (leb close_s open_s)) [
  | inl empty ↦ rw empty (λ v t positive h. ground (arith, empty, positive, h.0, h.1))
  | inr some_time ↦ rw some_time (λ v t positive.
      (λ f. elim f [ inl h ↦ (h.0, h.1, tt) | inr h ↦ elim h [ ] ], λ h. inl (h.0, h.1)))
]

window_of-Decides :
    (ss : List Segment) (allowed : ℕ → ℕ → Type 0)
    → ((v t : ℕ) → 0 < v → Fits ss v t ↔ allowed v t)
    → Decides (window_of ss) allowed
unfolding window_of from_segments
window_of-Decides [] allowed exact = λ v t positive h. (exact v t positive).1 h
window_of-Decides (s ∷ ss) allowed exact = λ v t positive.
    let (there, back) = exact v t positive in
    (λ f. there (sort-Fits (s ∷ ss) v t f), λ h. Fits-sort (s ∷ ss) v t (back h))

-- By the periods that the document holds.
periods-Decides :
    (preferred_from preferred_to : Option ℕ) (periods : List Period) (day_start_s day_end_s : ℕ)
    (weekday : ℕ)
    → Decides
        (parse_time_window
          (record {
            preferred_hour_from = preferred_from;
            preferred_hour_to = preferred_to;
            periods = periods;
          })
          day_start_s
          day_end_s
          (some weekday))
        (λ v t.
          (hour_or preferred_from day_start_s ≤ t)
          × (t + v ≤ hour_or preferred_to day_end_s)
          × Opens (some weekday) periods v t)
unfolding parse_time_window
periods-Decides preferred_from preferred_to [] day_start_s day_end_s weekday =
    preferred_window-Decides (hour_or preferred_from day_start_s) (hour_or preferred_to day_end_s)
periods-Decides preferred_from preferred_to (p ∷ ps) day_start_s day_end_s weekday =
    let open_s = hour_or preferred_from day_start_s in
    let close_s = hour_or preferred_to day_end_s in
    window_of-Decides (day_segments open_s close_s (on_day weekday (p ∷ ps)))
      (λ v t. (open_s ≤ t) × (t + v ≤ close_s) × InsideSome weekday (p ∷ ps) v t)
      (λ v t positive. (
        segments-InsideSome open_s close_s v t positive weekday (p ∷ ps),
        λ h. InsideSome-segments open_s close_s v t positive weekday (p ∷ ps) h.0 h.1 h.2,
      ))

pub document-Decides :
    (doc : PlaceHours) (day_start_s day_end_s : ℕ) (weekday : Option ℕ)
    → Decides
        (parse_time_window doc day_start_s day_end_s weekday)
        (Admits doc day_start_s day_end_s weekday)
unfolding parse_time_window
document-Decides doc day_start_s day_end_s none =
    preferred_window-Decides (hour_or doc.preferred_hour_from day_start_s)
      (hour_or doc.preferred_hour_to day_end_s)
document-Decides doc day_start_s day_end_s (some weekday) =
    periods-Decides doc.preferred_hour_from doc.preferred_hour_to doc.periods day_start_s day_end_s
      weekday
