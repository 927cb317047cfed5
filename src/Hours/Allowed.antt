-- ===== src/Hours/Allowed.antt =====
-- The window of a place admits exactly the visits inside its preferred and its opening hours.
use travel_llm_planner.Common.{
  ℕ, ◌+◌, ◌*◌, ◌≤◌, ◌<◌, ◌≡◌, ◌≢◌, ◌↔◌, ◌⊎◌, inl, inr, refl, ap, Bool-cases, true, ◌==◌, Option,
  none, some, or_else, if◌then◌else◌, List, [], ◌∷◌, arith,
}
use travel_llm_planner.Window.{TimeWindow}
use travel_llm_planner.Window.Earliest.{Fits}
use travel_llm_planner.Hours.{
  PeriodTime, Period, PlaceHours, hour_or, is_on, is_past_midnight, time_s, parse_time_window,
}
use travel_llm_planner.Hours.Segments.{
  ClosesAfter, InsideSome, Opens, Admits, Decides, document-Decides,
}

-- The part of a time that a document may leave out; it then is 0.
abbrev pub Given : Option ℕ → ℕ → Type 0
Given none n = n ≡ 0
Given (some m) n = n ≡ m

-- The second of the day at which the clock shows the time.
abbrev pub IsAt : PeriodTime → ℕ → Type 0
IsAt time s = (h : ℕ) × (m : ℕ) × Given time.hour h × Given time.minute m × (s ≡ 60 * (60 * h + m))

-- The days of opening and closing. Only with both given, and different, is the closing past midnight:
-- the place then stays open until midnight.
abbrev pub EndsBy : Option ℕ → Option ℕ → PeriodTime → ℕ → Type 0
EndsBy (some open_day) (some close_day) closing end_s =
    (open_day ≢ close_day) × (end_s ≤ 86400)
    ⊎ (open_day ≡ close_day) × (s : ℕ) × IsAt closing s × (end_s ≤ s)
EndsBy (some open_day) none closing end_s = (s : ℕ) × IsAt closing s × (end_s ≤ s)
EndsBy none close_day closing end_s = (s : ℕ) × IsAt closing s × (end_s ≤ s)

-- A period without a closing does not close.
abbrev pub EndsInside : PeriodTime → Option PeriodTime → ℕ → Type 0
EndsInside opening none end_s = Unit {0}
EndsInside opening (some closing) end_s = EndsBy opening.day closing.day closing end_s

-- The period opens on the weekday, before the visit starts, and the visit ends in it.
abbrev pub IsOpen : ℕ → Period → ℕ → ℕ → Type 0
IsOpen weekday p visit_s t =
    (p.opening.day ≡ some weekday)
    × ((s : ℕ) × IsAt p.opening s × (s ≤ t))
    × EndsInside p.opening p.closing (t + visit_s)

abbrev pub IsOpenOnce : ℕ → List Period → ℕ → ℕ → Type 0
IsOpenOnce weekday [] visit_s t = ⊥
IsOpenOnce weekday (p ∷ ps) visit_s t = IsOpen weekday p visit_s t ⊎ IsOpenOnce weekday ps visit_s t

-- Opening hours bind only on a known weekday, and only a place that has any.
abbrev pub IsOpenFor : Option ℕ → List Period → ℕ → ℕ → Type 0
IsOpenFor none periods visit_s t = Unit {0}
IsOpenFor (some weekday) [] visit_s t = Unit {0}
IsOpenFor (some weekday) (p ∷ ps) visit_s t = IsOpenOnce weekday (p ∷ ps) visit_s t

-- Not before the preferred hour, or the start of the day where none is given; and not after.
abbrev pub From : Option ℕ → ℕ → ℕ → Type 0
From none day_start_s t = day_start_s ≤ t
From (some hour) day_start_s t = 60 * (60 * hour) ≤ t

abbrev pub Until : Option ℕ → ℕ → ℕ → Type 0
Until none day_end_s end_s = end_s ≤ day_end_s
Until (some hour) day_end_s end_s = end_s ≤ 60 * (60 * hour)

-- What the document allows.
abbrev pub Allows : PlaceHours → ℕ → ℕ → Option ℕ → ℕ → ℕ → Type 0
Allows doc day_start_s day_end_s weekday visit_s t =
    From doc.preferred_hour_from day_start_s t
    × Until doc.preferred_hour_to day_end_s (t + visit_s)
    × IsOpenFor weekday doc.periods visit_s t

time_s-IsAt : (time : PeriodTime) → IsAt time (time_s time)
time_s-IsAt time = go time.hour time.minute
  where
    go :
        (hour minute : Option ℕ)
        → (h : ℕ) × (m : ℕ) × Given hour h
          × Given minute m
          × (or_else hour 0 * 3600 + or_else minute 0 * 60 ≡ 60 * (60 * h + m))
    go none none = (0, 0, refl, refl, refl)
    go none (some m) = (0, m, refl, refl, omega arith)
    go (some h) none = (h, 0, refl, refl, omega arith)
    go (some h) (some m) = (h, m, refl, refl, omega arith)

-- The clock shows a time at one second only.
IsAt-time_s : (time : PeriodTime) (s : ℕ) → IsAt time s → s ≡ time_s time
IsAt-time_s time s (h, m, is_h, is_m, at) = go time.hour time.minute is_h is_m
  where
    go :
        (hour minute : Option ℕ)
        → Given hour h
        → Given minute m
        → s ≡ or_else hour 0 * 3600 + or_else minute 0 * 60
    go none none a b = omega arith
    go none (some n) a b = omega arith
    go (some n) none a b = omega arith
    go (some n) (some k) a b = omega arith

is_on_iff : (weekday : ℕ) (day : Option ℕ) → (is_on weekday day ≡ true) ↔ (day ≡ some weekday)
is_on_iff weekday none = (λ h. cc, λ h. cc)
is_on_iff weekday (some day) = (
  λ h. let e : day ≡ weekday = ground arith in ap some e,
  λ h. let e : day ≡ weekday = cc in ground arith,
)

before_iff : (time : PeriodTime) (t : ℕ) → (time_s time ≤ t) ↔ ((s : ℕ) × IsAt time s × (s ≤ t))
before_iff time t = (
  λ h. (time_s time, time_s-IsAt time, h),
  λ (s, at, h). let e = IsAt-time_s time s at in omega arith,
)

after_iff : (time : PeriodTime) (t : ℕ) → (t ≤ time_s time) ↔ ((s : ℕ) × IsAt time s × (t ≤ s))
after_iff time t = (
  λ h. (time_s time, time_s-IsAt time, h),
  λ (s, at, h). let e = IsAt-time_s time s at in omega arith,
)

ClosesAfter-EndsInside :
    (opening : PeriodTime) (closing : Option PeriodTime) (end_s : ℕ)
    → ClosesAfter opening closing end_s ↔ EndsInside opening closing end_s
ClosesAfter-EndsInside opening none end_s = (λ h. h, λ h. h)
ClosesAfter-EndsInside opening (some closing) end_s = go opening.day closing.day
  where
    at : (end_s ≤ time_s closing) ↔ ((s : ℕ) × IsAt closing s × (end_s ≤ s))
    at = after_iff closing end_s

    go :
        (open_day close_day : Option ℕ)
        → (end_s ≤ (if is_past_midnight open_day close_day then 24 * 3600 else time_s closing))
          ↔ EndsBy open_day close_day closing end_s
    go none close_day = at
    go (some open_day) none = at
    go (some open_day) (some close_day) = elim (Bool-cases (close_day == open_day)) [
      | inl equal ↦
          let e : open_day ≡ close_day = ground arith in
          rw equal (
            λ h. let (s, is_at, le) = at.0 h in inr (e, s, is_at, le),
            λ h. elim h [
              | inl left ↦ absurd (left.0 e)
              | inr (same_day, s, is_at, le) ↦ at.1 (s, is_at, le)
            ],
          )
      | inr different ↦
          let n : open_day ≢ close_day = ground arith in
          rw different
            (λ h. inl (n, h), λ h. elim h [ inl left ↦ left.1 | inr right ↦ absurd (n right.0) ])
    ]

InsideSome-IsOpenOnce :
    (weekday : ℕ) (ps : List Period) (visit_s t : ℕ)
    → InsideSome weekday ps visit_s t ↔ IsOpenOnce weekday ps visit_s t
InsideSome-IsOpenOnce weekday [] visit_s t = (λ h. h, λ h. h)
InsideSome-IsOpenOnce weekday (p ∷ ps) visit_s t =
    let on = is_on_iff weekday p.opening.day in
    let starts = before_iff p.opening t in
    let ends = ClosesAfter-EndsInside p.opening p.closing (t + visit_s) in
    let later = InsideSome-IsOpenOnce weekday ps visit_s t in
    (
      λ h. elim h [
        | inl (today, (before, closes)) ↦ inl (on.0 today, starts.0 before, ends.0 closes)
        | inr rest ↦ inr (later.0 rest)
      ],
      λ h. elim h [
        | inl (today, before, closes) ↦ inl (on.1 today, (starts.1 before, ends.1 closes))
        | inr rest ↦ inr (later.1 rest)
      ],
    )

Opens-IsOpenFor :
    (weekday : Option ℕ) (ps : List Period) (visit_s t : ℕ)
    → Opens weekday ps visit_s t ↔ IsOpenFor weekday ps visit_s t
Opens-IsOpenFor none ps visit_s t = (λ h. h, λ h. h)
Opens-IsOpenFor (some weekday) [] visit_s t = (λ h. h, λ h. h)
Opens-IsOpenFor (some weekday) (p ∷ ps) visit_s t = InsideSome-IsOpenOnce weekday (p ∷ ps) visit_s t

hour_or-From : (hour : Option ℕ) (bound t : ℕ) → (hour_or hour bound ≤ t) ↔ From hour bound t
hour_or-From none bound t = (λ h. h, λ h. h)
hour_or-From (some hour) bound t = (λ h. omega arith, λ h. omega arith)

hour_or-Until : (hour : Option ℕ) (bound t : ℕ) → (t ≤ hour_or hour bound) ↔ Until hour bound t
hour_or-Until none bound t = (λ h. h, λ h. h)
hour_or-Until (some hour) bound t = (λ h. omega arith, λ h. omega arith)

Admits-Allows :
    (doc : PlaceHours) (day_start_s day_end_s : ℕ) (weekday : Option ℕ) (visit_s t : ℕ)
    → Admits doc day_start_s day_end_s weekday visit_s t
      ↔ Allows doc day_start_s day_end_s weekday visit_s t
Admits-Allows doc day_start_s day_end_s weekday visit_s t =
    let from = hour_or-From doc.preferred_hour_from day_start_s t in
    let until = hour_or-Until doc.preferred_hour_to day_end_s (t + visit_s) in
    let opens = Opens-IsOpenFor weekday doc.periods visit_s t in
    (λ (a, b, c). (from.0 a, until.0 b, opens.0 c), λ (a, b, c). (from.1 a, until.1 b, opens.1 c))

-- The window holds the visit exactly where it is allowed; where there is none it is not allowed.
abbrev pub DecidesAt : Option TimeWindow → Type 0 → ℕ → ℕ → Type 0
DecidesAt none allowed visit_s t = ¬ allowed
DecidesAt (some w) allowed visit_s t = Fits w.segments visit_s t ↔ allowed

Decides-DecidesAt :
    (o : Option TimeWindow) (admitted : ℕ → ℕ → Type 0) (allowed : Type 0) (visit_s t : ℕ)
    → (admitted visit_s t ↔ allowed)
    → Decides o admitted
    → 0 < visit_s
    → DecidesAt o allowed visit_s t
Decides-DecidesAt none admitted allowed visit_s t same h positive =
    λ a. h visit_s t positive (same.1 a)
Decides-DecidesAt (some w) admitted allowed visit_s t same h positive =
    let (there, back) = h visit_s t positive in (λ f. same.0 (there f), λ a. back (same.1 a))

-- For every place document, day, weekday and visit of positive length: where `_parse_time_window` gives
-- a window, the visit fits into it from a start exactly when it starts at the preferred hour or later,
-- ends at the preferred hour or earlier (the day's bounds where none are given) and, on a known weekday
-- of a place with opening hours, lies inside one period that opens on that weekday, where a closing on
-- another day counts as midnight; where it gives none, the visit is allowed from no start.
pub parse_time_window-DecidesAt :
    (doc : PlaceHours) (day_start_s day_end_s : ℕ) (weekday : Option ℕ) (visit_s t : ℕ)
    → 0 < visit_s
    → DecidesAt
        (parse_time_window doc day_start_s day_end_s weekday)
        (Allows doc day_start_s day_end_s weekday visit_s t)
        visit_s
        t
parse_time_window-DecidesAt doc day_start_s day_end_s weekday visit_s t positive =
    Decides-DecidesAt (parse_time_window doc day_start_s day_end_s weekday)
      (Admits doc day_start_s day_end_s weekday)
      (Allows doc day_start_s day_end_s weekday visit_s t) visit_s t
      (Admits-Allows doc day_start_s day_end_s weekday visit_s t)
      (document-Decides doc day_start_s day_end_s weekday) positive
