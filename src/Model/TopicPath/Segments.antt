-- ===== src/Model/TopicPath/Segments.antt =====
-- Segments and the topics that they make up.
use manufacturing_uns.Prelude.{
  [], ◌∷◌, List, ℕ, ◌≡◌, All, false, filter, All-map, refl, arith, not, ap, ◌∙◌,
}
use manufacturing_uns.Prelude.Result.{ok}
use manufacturing_uns.Prelude.Split.{join, split-join, NoSep}
use manufacturing_uns.Model.TopicPath.{
  validate_segment, join_segments, split_topic, holds, separator, no_text,
}

-- A name that `validate_segment` accepts.
abbrev pub IsSegment : List ℕ → Type 0
IsSegment name = validate_segment name ≡ ok name

segment-NoSep : (s : List ℕ) → holds separator s ≡ false → NoSep separator s
unfolding holds
segment-NoSep [] h = tt
segment-NoSep (c ∷ s) h = (ground arith, segment-NoSep s (ground arith))

segment_parts : (s : List ℕ) → IsSegment s → (no_text s ≡ false) × NoSep separator s
unfolding validate_segment
segment_parts s h = (ground arith, segment-NoSep s (ground arith))

none_dropped :
    (segments : List (List ℕ))
    → All IsSegment segments
    → filter (λ s. not (no_text s)) segments ≡ segments
none_dropped [] a = refl
none_dropped (s ∷ segments) a =
    rw (segment_parts s a.0).0 (ap (λ l. s ∷ l) (none_dropped segments a.1))

segments-NoSep :
    (segments : List (List ℕ)) → All IsSegment segments → All (NoSep separator) segments
segments-NoSep segments a =
    All-map IsSegment (NoSep separator) segments (λ s h. (segment_parts s h).1) a

no_text-join :
    (s : List ℕ) (segments : List (List ℕ))
    → no_text s ≡ false
    → no_text (join separator (s ∷ segments)) ≡ false
unfolding no_text join
no_text-join [] segments h = absurd (ground arith)
no_text-join (c ∷ s) segments h = refl

split_topic-join :
    (s : List ℕ) (segments : List (List ℕ))
    → All IsSegment (s ∷ segments)
    → split_topic (join separator (s ∷ segments)) ≡ s ∷ segments
unfolding split_topic
split_topic-join s segments a =
    let (full, own) = segment_parts s a.0 in
    rw (no_text-join s segments full)
      (split-join separator s segments own (segments-NoSep segments a.1))

-- Segments that `validate_segment` accepts are what `split_topic` finds in the topic that
-- `join_segments` makes of them.
pub split_topic-join_segments :
    (segments : List (List ℕ))
    → All IsSegment segments
    → split_topic (join_segments segments) ≡ segments
unfolding join_segments
split_topic-join_segments [] a = unfold split_topic in unfold no_text in refl
split_topic-join_segments (s ∷ segments) a =
    ap (λ l. split_topic (join separator l)) (none_dropped (s ∷ segments) a)
    ∙ split_topic-join s segments a
