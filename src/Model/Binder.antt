-- ===== src/Model/Binder.antt =====
-- TopicBinder of 09_uns_model/src/uns_model/topic_binder.py. `_bound` is the list of its topics, the
-- oldest first. `observe` is two steps, before and after its call of `bind_topic`, between which other
-- calls may run; what that call ends with is the argument `succeeded`.
pub mod Remembered
use manufacturing_uns.Prelude.{
  [], ◌∷◌, none, some, ℕ, List, Option, if◌then◌else◌, Bool, filter, ◌++◌, ltb, any, not, length,
}
use manufacturing_uns.Config.Topics.{text_eq}

pub record TopicBinder : Type 0 where
  pub capacity : ℕ
  pub bound : List (List ℕ)
  pub in_flight : List (List ℕ)

-- What `observe` does at once: nothing more, wait for another call, or bind.
pub data Observed : Type 0 where
  seen : Observed
  waits : Observed
  binds : Observed

-- `__init__` past its ValueError on a capacity below 1.
unfoldable pub new_binder : ℕ → Option TopicBinder
new_binder capacity =
    if ltb capacity 1
    then none
    else some (record { capacity = capacity; bound = []; in_flight = [] })

unfoldable pub is_in : List ℕ → List (List ℕ) → Bool
unfolding text_eq
is_in topic topics = any (text_eq topic) topics

unfoldable pub without : List ℕ → List (List ℕ) → List (List ℕ)
unfolding text_eq
without topic topics = filter (λ t. not (text_eq topic t)) topics

unfoldable pub move_to_end : List ℕ → List (List ℕ) → List (List ℕ)
unfolding without
move_to_end topic topics = without topic topics ++ topic ∷ []

-- The loop of `_remember`.
unfoldable pub evict : ℕ → List (List ℕ) → List (List ℕ)
evict capacity [] = []
evict capacity (t ∷ topics) =
    let rest = evict capacity topics in
    if ltb capacity (length (t ∷ topics)) then rest else t ∷ topics

unfoldable pub remember : TopicBinder → List ℕ → TopicBinder
unfolding move_to_end evict
remember b topic = record b { bound = evict b.capacity (move_to_end topic b.bound) }

unfoldable pub observe_start : TopicBinder → List ℕ → TopicBinder × Observed
unfolding is_in move_to_end
observe_start b topic =
    if is_in topic b.bound
    then (record b { bound = move_to_end topic b.bound }, seen)
    else if is_in topic b.in_flight
    then (b, waits)
    else (record b { in_flight = topic ∷ b.in_flight }, binds)

unfoldable pub observe_finish : TopicBinder → List ℕ → Bool → TopicBinder
unfolding remember without
observe_finish b topic succeeded =
    let remembered = if succeeded then remember b topic else b in
    record remembered { in_flight = without topic b.in_flight }

unfoldable pub forget : TopicBinder → Option (List ℕ) → TopicBinder
unfolding without
forget b none = record b { bound = [] }
forget b (some topic) = record b { bound = without topic b.bound }
