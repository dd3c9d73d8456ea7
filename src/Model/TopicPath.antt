-- ===== src/Model/TopicPath.antt =====
-- Topic paths: 09_uns_model/src/uns_model/topic_path.py as a whole. A text is the list of its code
-- points, and the collection of asset paths a list read by membership.
pub mod Segments
pub mod Deepest
use manufacturing_uns.Prelude.{
  [], ◌∷◌, none, some, List, ℕ, Bool, if◌then◌else◌, filter, suc, length, Option, true, not, any,
  take, ltb, ◌==◌, drop, false, ◌-◌, zero,
}
use manufacturing_uns.Prelude.Result.{Result, ok, err}
use manufacturing_uns.Prelude.Split.{split, join}
use manufacturing_uns.Config.Topics.{text_eq}

pub record TopicMatch : Type 0 where
  pub asset_path : List ℕ
  pub metric_path : List ℕ

abbrev pub separator : ℕ
separator = b'/'

unfoldable pub no_text : List ℕ → Bool
no_text [] = true
no_text (c ∷ s) = false

unfoldable pub split_topic : List ℕ → List (List ℕ)
unfolding no_text split
split_topic topic = if no_text topic then [] else split separator topic

-- `join_segments(*segments)`.
unfoldable pub join_segments : List (List ℕ) → List ℕ
unfolding no_text join
join_segments segments = join separator (filter (λ s. not (no_text s)) segments)

pub data SegmentError : Type 0 where
  empty_segment : SegmentError
  holds_separator : SegmentError

unfoldable pub holds : ℕ → List ℕ → Bool
holds c s = any (λ d. d == c) s

unfoldable pub validate_segment : List ℕ → Result SegmentError (List ℕ)
unfolding no_text holds
validate_segment name =
    if no_text name
    then err empty_segment
    else if holds separator name
    then err holds_separator
    else ok name

-- The prefixes of at most `depth` segments, deepest first.
unfoldable pub paths_to : ℕ → List (List ℕ) → List (List ℕ)
unfolding join
paths_to zero segments = []
paths_to (suc depth) segments = join separator (take (suc depth) segments) ∷ paths_to depth segments

unfoldable pub ancestor_paths : List ℕ → List (List ℕ)
unfolding split_topic paths_to
ancestor_paths topic = let segments = split_topic topic in paths_to (length segments) segments

unfoldable pub parent_path : List ℕ → Option (List ℕ)
unfolding split_topic join
parent_path topic =
    let segments = split_topic topic in
    if ltb (length segments) 2
    then none
    else some (join separator (take (length segments - 1) segments))

-- `str.lstrip`.
unfoldable pub lstrip : ℕ → List ℕ → List ℕ
lstrip sep [] = []
lstrip sep (c ∷ s) = let stripped = lstrip sep s in if c == sep then stripped else c ∷ s

unfoldable pub is_known : List ℕ → List (List ℕ) → Bool
unfolding text_eq
is_known path asset_paths = any (text_eq path) asset_paths

-- The loop of `match_asset_path`.
unfoldable pub first_known : List ℕ → List (List ℕ) → List (List ℕ) → Option TopicMatch
unfolding is_known lstrip
first_known topic [] asset_paths = none
first_known topic (candidate ∷ rest) asset_paths =
    let later = first_known topic rest asset_paths in
    if is_known candidate asset_paths
    then some (record {
      asset_path = candidate;
      metric_path = lstrip separator (drop (length candidate) topic);
    })
    else later

unfoldable pub match_asset_path : List ℕ → List (List ℕ) → Option TopicMatch
unfolding ancestor_paths first_known
match_asset_path topic asset_paths = first_known topic (ancestor_paths topic) asset_paths

unfoldable pub metric_key : List ℕ → List ℕ → List ℕ
unfolding no_text join
metric_key metric_path metric_name =
    join separator (filter (λ s. not (no_text s)) (metric_path ∷ metric_name ∷ []))
