-- ===== src/Config/Topics.antt =====
-- Which topics are history and of what kind: 00_uns_config/src/uns_config/uns_ingest.py. A text is the
-- list of its code points.
pub mod Kinds
use manufacturing_uns.Prelude.{
  [], ◌∷◌, List, ℕ, Bool, ◌≡◌, if◌then◌else◌, true, not, any, false, arith, ◌&&◌, ◌==◌, refl,
}
use manufacturing_uns.Prelude.Split.{starts_with, split}
use manufacturing_uns.Prelude.Text.{codes}

pub data EventKind : Type 0 where
  telemetry : EventKind
  sparkplug_raw : EventKind
  lifecycle : EventKind
  command : EventKind
  business_event : EventKind
  state_snapshot : EventKind

unfoldable pub text_eq : List ℕ → List ℕ → Bool
text_eq [] [] = true
text_eq [] (d ∷ t) = false
text_eq (c ∷ s) [] = false
text_eq (c ∷ s) (d ∷ t) = c == d && text_eq s t

pub text_eq→eq : (s t : List ℕ) → text_eq s t ≡ true → s ≡ t
unfolding text_eq
text_eq→eq [] [] h = refl
text_eq→eq [] (d ∷ t) h = ground arith
text_eq→eq (c ∷ s) [] h = ground arith
text_eq→eq (c ∷ s) (d ∷ t) h = ground (arith, text_eq→eq s t)

pub text_eq_refl : (s : List ℕ) → text_eq s s ≡ true
unfolding text_eq
text_eq_refl [] = refl
text_eq_refl (c ∷ s) = ground (arith, text_eq_refl s)

unfoldable pub is_empty : List ℕ → Bool
is_empty [] = true
is_empty (c ∷ s) = false

-- PLATFORM_OBSERVABILITY_PREFIX.
abbrev pub observability_prefix : List ℕ
observability_prefix = codes "uns/platform/"

unfoldable pub is_historic_event_topic : List ℕ → Bool
unfolding is_empty starts_with
is_historic_event_topic topic = not (is_empty topic) && not (starts_with topic observability_prefix)

abbrev pub sparkplug_prefix : List ℕ
sparkplug_prefix = codes "spBv1.0/"

abbrev pub sparkplug_state_prefix : List ℕ
sparkplug_state_prefix = codes "spBv1.0/STATE/"

abbrev pub lifecycle_types : List (List ℕ)
lifecycle_types =
    codes "NBIRTH" ∷ codes "DBIRTH" ∷ codes "NDEATH" ∷ codes "DDEATH" ∷ codes "STATE" ∷ []

abbrev pub command_types : List (List ℕ)
command_types = codes "NCMD" ∷ codes "DCMD" ∷ []

unfoldable pub kind_of_type : List ℕ → EventKind
unfolding text_eq
kind_of_type message_type =
    if any (text_eq message_type) command_types
    then command
    else if any (text_eq message_type) lifecycle_types
    then lifecycle
    else sparkplug_raw

-- `parts[2]`, where there are three parts.
unfoldable pub kind_of_parts : List (List ℕ) → EventKind
unfolding kind_of_type
kind_of_parts (root ∷ group ∷ message_type ∷ rest) = kind_of_type message_type
kind_of_parts parts = sparkplug_raw

unfoldable pub classify_event_kind : List ℕ → EventKind
unfolding starts_with split kind_of_parts
classify_event_kind topic =
    if not (starts_with topic sparkplug_prefix)
    then telemetry
    else if starts_with topic sparkplug_state_prefix
    then lifecycle
    else kind_of_parts (split b'/' topic)
