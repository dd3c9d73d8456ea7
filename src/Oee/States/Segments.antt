-- ===== src/Oee/States/Segments.antt =====
-- `state_segments` of states.py against the level of Oee/States/Level.
use manufacturing_uns.Prelude.{
  [], ◌∷◌, none, some, String, true, refl, List, ℕ, Option, ◌≤◌, All, ◌≡◌, le→leb, if◌then◌else◌,
  ltb, leb, ◌&&◌, arith, ◌∙◌, Bool-cases, filter, inl, All-map, ◌++◌, inr, filter-All, last?,
}
use manufacturing_uns.Prelude.Sort.{sorted}
use text.Mathlib.TextEquality.{eq_iff}
use text.Mathlib.Text.{◌==◌ as str_eq}
use manufacturing_uns.Oee.Interval.{Interval}
use manufacturing_uns.Oee.Interval.Cover.{contains}
use manufacturing_uns.Oee.States.{
  StateSample, StateSegment, state_leb, points, end_of, close, segment_step, segments_from,
  state_segments, opening,
}
use manufacturing_uns.Oee.States.Level.{
  level, TimesFrom, level_before, points-level, sorted-TimesFrom, TimesFrom-le,
}

-- The state of the first segment that contains the instant.
unfoldable pub state_in : List StateSegment → ℕ → Option String
state_in [] t = none
state_in (s ∷ r) t = if contains s.interval t then some s.state else state_in r t

-- The level before the end of the window, and nothing after it.
level_until : ℕ → List StateSample → ℕ → Option String
unfolding level
level_until stop l t = if ltb t stop then level none l t else none

level-some :
    (d : String) (s : StateSample) (r : List StateSample) (t : ℕ)
    → s.at ≤ t
    → level (some d) (s ∷ r) t ≡ level none (s ∷ r) t
unfolding level
level-some d s r t h = rw (le→leb s.at t h)

level_until-cons :
    (stop : ℕ) (p : StateSample) (r : List StateSample) (t : ℕ)
    → TimesFrom p.at (p ∷ r)
    → All (λ s. s.at ≤ stop) r
    → level_until stop (p ∷ r) t
      ≡ (if leb p.at t && ltb t (end_of stop r) then some p.state else level_until stop r t)
unfolding level_until end_of
level_until-cons stop p [] t h b = ground arith
level_until-cons stop p (q ∷ r) t h b = ground (
  arith,
  level_before (some p.state) q.at (q ∷ r) t (omega arith, h.1.1),
  level_before none q.at (q ∷ r) t (omega arith, h.1.1),
  level-some p.state q r t,
)

state_in-append-one :
    (s : StateSegment) (l : List StateSegment) (t : ℕ)
    → state_in (s ∷ l) t
      ≡ (if leb s.interval.start t && ltb t s.interval.end then some s.state else state_in l t)
unfolding state_in contains
state_in-append-one s l t = refl

end_of-le :
    (stop m : ℕ) (p : StateSample) (r : List StateSample)
    → TimesFrom m (p ∷ r)
    → All (λ s. s.at ≤ stop) (p ∷ r)
    → p.at ≤ end_of stop r
unfolding end_of
end_of-le stop m p [] h b = b.0
end_of-le stop m p (q ∷ r) h b = h.1.0

-- With a last segment that ends where the points begin, the rest of the loop adds the level that
-- the points leave.
segments_some :
    (stop m : ℕ) (s : StateSegment) (l : List StateSample) (t : ℕ)
    → TimesFrom m l
    → All (λ x. x.at ≤ stop) l
    → s.interval.start ≤ s.interval.end
    → s.interval.end ≡ end_of stop l
    → state_in (segments_from stop (some s) l) t ≡ (
        if leb s.interval.start t && ltb t s.interval.end
        then some s.state
        else level_until stop l t)
unfolding segments_from
segments_some stop m s [] t h b n e = unfold close level_until state_in contains in ground arith
segments_some stop m s (p ∷ r) t h b n e =
    let c : level_until stop (p ∷ r) t
        ≡ (if leb p.at t && ltb t (end_of stop r) then some p.state else level_until stop r t) =
      level_until-cons stop p r t (omega arith, h.1) b.1 in
    let le : p.at ≤ end_of stop r = end_of-le stop m p r h b in
    let first : s.interval.end ≡ p.at = e ∙ (unfold end_of in refl) in
    elim (Bool-cases (leb (end_of stop r) p.at)) [
      | inl q ↦
          rw (q, segment_step)
            (ground (arith, c, segments_some stop p.at s r t h.1 b.1 n (ground arith)))
      | inr q ↦ elim (Bool-cases (str_eq s.state p.state)) [
        | inl same ↦
            rw (q, same, segment_step)
              (ground (
                arith,
                c,
                (eq_iff s.state p.state).0 same,
                segments_some stop p.at
                    (record {
                      state = p.state;
                      interval = record { start = s.interval.start; end = end_of stop r };
                    })
                    r t h.1 b.1 (omega arith) refl,
              ))
        | inr new ↦
            rw
              (
                q,
                new,
                segment_step,
                state_in-append-one s
                    (segments_from stop
                      (some (record {
                        state = p.state;
                        interval = record { start = p.at; end = end_of stop r };
                      }))
                      r)
                    t,
              )
              (ground (
                arith,
                c,
                segments_some stop p.at
                    (record {
                      state = p.state;
                      interval = record { start = p.at; end = end_of stop r };
                    })
                    r t h.1 b.1 (omega arith) refl,
              ))
      ]
    ]

segments_none :
    (stop m : ℕ) (l : List StateSample) (t : ℕ)
    → TimesFrom m l
    → All (λ x. x.at ≤ stop) l
    → state_in (segments_from stop none l) t ≡ level_until stop l t
unfolding segments_from
segments_none stop m [] t h b = unfold close level_until state_in level in ground arith
segments_none stop m (p ∷ r) t h b =
    let c : level_until stop (p ∷ r) t
        ≡ (if leb p.at t && ltb t (end_of stop r) then some p.state else level_until stop r t) =
      level_until-cons stop p r t (omega arith, h.1) b.1 in
    elim (Bool-cases (leb (end_of stop r) p.at)) [
      | inl q ↦ rw (q, segment_step) (ground (arith, c, segments_none stop p.at r t h.1 b.1))
      | inr q ↦
          rw (q, segment_step)
            (ground (
              arith,
              c,
              segments_some stop p.at
                  (record {
                    state = p.state;
                    interval = record { start = p.at; end = end_of stop r };
                  })
                  r t h.1 b.1 (ground arith) refl,
            ))
    ]

-- The points stand in order of time and lie in the window.
filter_window-TimesFrom :
    (window : Interval) (m : ℕ) (l : List StateSample)
    → TimesFrom m l
    → TimesFrom m (filter (λ s. ltb window.start s.at && ltb s.at window.end) l)
filter_window-TimesFrom window m [] h = tt
filter_window-TimesFrom window m (s ∷ r) h =
    elim (Bool-cases (ltb window.start s.at && ltb s.at window.end)) [
      | inl q ↦ rw q (h.0, filter_window-TimesFrom window s.at r h.1)
      | inr q ↦ rw q (
          TimesFrom-le s.at m (filter (λ s. ltb window.start s.at && ltb s.at window.end) r)
            (omega arith) (filter_window-TimesFrom window s.at r h.1))
    ]

filter_window-start :
    (window : Interval) (m : ℕ) (l : List StateSample)
    → TimesFrom m l
    → TimesFrom window.start (filter (λ s. ltb window.start s.at && ltb s.at window.end) l)
filter_window-start window m [] h = tt
filter_window-start window m (s ∷ r) h =
    elim (Bool-cases (ltb window.start s.at && ltb s.at window.end)) [
      | inl q ↦ rw q (ground arith, filter_window-TimesFrom window s.at r h.1)
      | inr q ↦ rw q (filter_window-start window s.at r h.1)
    ]

opening-TimesFrom :
    (start : ℕ) (last : Option StateSample) (l : List StateSample)
    → TimesFrom start l
    → TimesFrom start (opening start last ++ l)
unfolding opening
opening-TimesFrom start none l h = h
opening-TimesFrom start (some s) l h = (omega arith, h)

opening-All :
    (start stop : ℕ) (last : Option StateSample) (l : List StateSample)
    → start ≤ stop
    → All (λ s. s.at ≤ stop) l
    → All (λ s. s.at ≤ stop) (opening start last ++ l)
unfolding opening
opening-All start stop none l h k = k
opening-All start stop (some s) l h k = (h, k)

window-All :
    (window : Interval) (l : List StateSample)
    → All (λ s. s.at ≤ window.end) (filter (λ s. ltb window.start s.at && ltb s.at window.end) l)
window-All window l =
    All-map (λ s. (ltb window.start s.at && ltb s.at window.end) ≡ true) (λ s. s.at ≤ window.end) _
      (λ s h. ground arith) (filter-All (λ s. ltb window.start s.at && ltb s.at window.end) l)

points-TimesFrom :
    (window : Interval) (l : List StateSample)
    → TimesFrom 0 l
    → TimesFrom window.start (points l window)
unfolding points
points-TimesFrom window l h =
    opening-TimesFrom window.start (last? (filter (λ s. leb s.at window.start) l)) _
      (filter_window-start window 0 l h)

points-All :
    (window : Interval) (l : List StateSample)
    → window.start ≤ window.end
    → All (λ s. s.at ≤ window.end) (points l window)
unfolding points
points-All window l h =
    opening-All window.start window.end (last? (filter (λ s. leb s.at window.start) l)) _ h
      (window-All window l)

-- For a window that is not inverted and samples in any order and with repeated times: at each
-- instant of the window, the state of the segment that contains it is that of the last sample at or
-- before the instant, a sample from before the window included; where no sample is that early, and
-- at each instant outside the window, no segment contains the instant.
pub state_segments-level :
    (samples : List StateSample) (window : Interval) (t : ℕ)
    → window.start ≤ window.end
    → state_in (state_segments samples window) t
      ≡ (if contains window t then level none (sorted state_leb samples) t else none)
unfolding state_segments
state_segments-level samples window t h =
    let ordered = sorted state_leb samples in
    segments_none window.end window.start (points ordered window) t
      (points-TimesFrom window ordered (sorted-TimesFrom samples)) (points-All window ordered h)
    ∙ (unfold level_until contains in
        ground (
          arith,
          points-level window 0 ordered t (sorted-TimesFrom samples),
          level_before none window.start (points ordered window) t
              (points-TimesFrom window ordered (sorted-TimesFrom samples)),
        ))
