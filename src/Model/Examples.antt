-- ===== src/Model/Examples.antt =====
-- Tests and examples for the asset model.
use manufacturing_uns.Prelude.{[], ◌∷◌, some, List, ◌≡◌, ℕ, refl, true}
use manufacturing_uns.Prelude.Text.{codes}
use manufacturing_uns.Model.TopicPath.{
  TopicMatch, match_asset_path, validate_segment, split_topic, join_segments,
}
use manufacturing_uns.Model.TopicPath.Deepest.{IsDeepest, match_asset_path-IsDeepest}
use manufacturing_uns.Model.TopicPath.Segments.{split_topic-join_segments}
use manufacturing_uns.Model.Binder.{TopicBinder, new_binder, observe_finish, observe_start, is_in}
use manufacturing_uns.Model.Binder.Remembered.{
  Reach, start, next, starts, finishes, IsTidy, Reach-IsTidy,
}

abbrev assets : List (List ℕ)
assets = codes "Plant" ∷ codes "Plant/Line1" ∷ []

abbrev bound_to_line : TopicMatch
bound_to_line = record { asset_path = codes "Plant/Line1"; metric_path = codes "Speed/value" }

matched : match_asset_path (codes "Plant/Line1/Speed/value") assets ≡ some bound_to_line
unfolding match_asset_path
matched = refl

-- Whole segments only.
not_a_prefix :
    match_asset_path (codes "Plant/Line10") assets
    ≡ some (record { asset_path = codes "Plant"; metric_path = codes "Line10" })
unfolding match_asset_path
not_a_prefix = refl

-- An empty level below the asset is dropped.
empty_level :
    match_asset_path (codes "Plant//a") assets
    ≡ some (record { asset_path = codes "Plant"; metric_path = codes "a" })
unfolding match_asset_path
empty_level = refl

match_asset_path-IsDeepest_example :
    IsDeepest (codes "Plant/Line1/Speed/value") assets bound_to_line
match_asset_path-IsDeepest_example =
    match_asset_path-IsDeepest (codes "Plant/Line1/Speed/value") assets bound_to_line matched

split_topic-join_segments_example :
    split_topic (join_segments (codes "Plant" ∷ codes "Line1" ∷ []))
    ≡ codes "Plant" ∷ codes "Line1" ∷ []
unfolding validate_segment
split_topic-join_segments_example =
    split_topic-join_segments (codes "Plant" ∷ codes "Line1" ∷ []) (refl, (refl, tt))

abbrev binder : ℕ → List (List ℕ) → List (List ℕ) → TopicBinder
binder capacity bound in_flight = record {
  capacity = capacity;
  bound = bound;
  in_flight = in_flight;
}

made : new_binder 1 ≡ some (binder 1 [] [])
unfolding new_binder
made = refl

two_topics : Reach (binder 1 [] []) (
    observe_finish
      (observe_start (observe_start (binder 1 [] []) (codes "a")).0 (codes "b")).0
      (codes "b")
      true)
two_topics =
    next
      (next (next start (starts (binder 1 [] []) (codes "a")))
        (starts (observe_start (binder 1 [] []) (codes "a")).0 (codes "b")))
      (finishes (observe_start (observe_start (binder 1 [] []) (codes "a")).0 (codes "b")).0
        (codes "b") true flying)
  where
    flying :
        is_in
          (codes "b")
          (observe_start (observe_start (binder 1 [] []) (codes "a")).0 (codes "b")).0.in_flight
        ≡ true
    flying = unfold observe_start in refl

Reach-IsTidy_example : IsTidy (
    observe_finish
      (observe_start (observe_start (binder 1 [] []) (codes "a")).0 (codes "b")).0
      (codes "b")
      true)
Reach-IsTidy_example = Reach-IsTidy 1 made two_topics
