-- ===== src/Model/TopicPath/Deepest.antt =====
-- Which asset a topic is bound to.
use manufacturing_uns.Prelude.{
  [], ◌∷◌, some, inl, inr, List, ℕ, length, ◌≡◌, true, All, take, ◌≤◌, suc, arith, Bool-cases, zero,
  length-append, All-map, subst, Contains, refl,
}
use manufacturing_uns.Prelude.Split.{join, join_more}
use manufacturing_uns.Model.TopicPath.{
  TopicMatch, paths_to, ancestor_paths, first_known, match_asset_path, is_known, separator, suc,
  split_topic,
}

-- The asset path is one of the paths above the topic and known, and no known one of them is longer.
pub record IsDeepest (topic : List ℕ) (asset_paths : List (List ℕ)) (m : TopicMatch) : Type 0 where
  pub above : Contains (ancestor_paths topic) m.asset_path
  pub known : is_known m.asset_path asset_paths ≡ true
  pub deepest :
      All
        (λ path. is_known path asset_paths ≡ true → length path ≤ length m.asset_path)
        (ancestor_paths topic)

join_more-take :
    (depth : ℕ) (segments : List (List ℕ))
    → length (join_more separator (take depth segments))
      ≤ length (join_more separator (take (suc depth) segments))
unfolding join_more
join_more-take zero segments = omega arith
join_more-take (suc depth) [] = omega arith
join_more-take (suc depth) (s ∷ segments) = omega (
  arith,
  length-append s (join_more separator (take depth segments)),
  length-append s (join_more separator (take (suc depth) segments)),
  join_more-take depth segments,
)

join-take :
    (depth : ℕ) (segments : List (List ℕ))
    → length (join separator (take depth segments))
      ≤ length (join separator (take (suc depth) segments))
unfolding join
join-take zero segments = omega arith
join-take (suc depth) [] = omega arith
join-take (suc depth) (s ∷ segments) = omega (
  arith,
  length-append s (join_more separator (take depth segments)),
  length-append s (join_more separator (take (suc depth) segments)),
  join_more-take depth segments,
)

-- Every path is at most as long as the first.
paths_le :
    (depth bound : ℕ) (segments : List (List ℕ))
    → length (join separator (take depth segments)) ≤ bound
    → All (λ path. length path ≤ bound) (paths_to depth segments)
unfolding paths_to
paths_le zero bound segments h = tt
paths_le (suc depth) bound segments h =
    (h, paths_le depth bound segments (omega (arith, join-take depth segments)))

found :
    (depth : ℕ) (asset_paths segments : List (List ℕ))
    → All
        (λ other.
          is_known other asset_paths ≡ true
          → length other ≤ length (join separator (take (suc depth) segments)))
        (paths_to (suc depth) segments)
found depth asset_paths segments =
    let first = join separator (take (suc depth) segments) in
    All-map (λ other. length other ≤ length first)
      (λ other. is_known other asset_paths ≡ true → length other ≤ length first)
      (paths_to (suc depth) segments) (λ other h k. h)
      (paths_le (suc depth) (length first) segments (omega arith))

first-deepest :
    (depth : ℕ) (topic : List ℕ) (segments asset_paths : List (List ℕ)) (m : TopicMatch)
    → first_known topic (paths_to depth segments) asset_paths ≡ some m
    → Contains (paths_to depth segments) m.asset_path
      × (is_known m.asset_path asset_paths ≡ true)
      × All
          (λ path. is_known path asset_paths ≡ true → length path ≤ length m.asset_path)
          (paths_to depth segments)
unfolding first_known paths_to
first-deepest zero topic segments asset_paths m h = absurd (ground arith)
first-deepest (suc depth) topic segments asset_paths m h =
    elim (Bool-cases (is_known (join separator (take (suc depth) segments)) asset_paths)) [
      | inl q ↦
          let same : join separator (take (suc depth) segments) ≡ m.asset_path =
            ground (arith, q) in
          subst
            (λ path.
              Contains (paths_to (suc depth) segments) path
              × (is_known path asset_paths ≡ true)
              × All (λ other. is_known other asset_paths ≡ true → length other ≤ length path)
                  (paths_to (suc depth) segments))
            same (inl refl, q, found depth asset_paths segments)
      | inr q ↦
          let ih = first-deepest depth topic segments asset_paths m (ground (arith, q)) in
          (inr ih.0, ih.1, (λ k. absurd (ground (arith, q, k)), ih.2))
    ]

-- Where a topic is bound to an asset, the path of the asset is one of those above the topic and known,
-- and no known one of them is longer.
pub match_asset_path-IsDeepest :
    (topic : List ℕ) (asset_paths : List (List ℕ)) (m : TopicMatch)
    → match_asset_path topic asset_paths ≡ some m
    → IsDeepest topic asset_paths m
unfolding match_asset_path ancestor_paths
match_asset_path-IsDeepest topic asset_paths m h =
    let (above, known, deepest) =
      first-deepest (length (split_topic topic)) topic (split_topic topic) asset_paths m h in
    record { above = above; known = known; deepest = deepest }
