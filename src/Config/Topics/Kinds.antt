-- ===== src/Config/Topics/Kinds.antt =====
-- The kind of a Sparkplug topic by its parts.
use manufacturing_uns.Prelude.{[], ◌∷◌, List, ℕ, ◌++◌, All, ◌≡◌, arith, if◌then◌else◌, refl, true}
use manufacturing_uns.Prelude.Split.{join, join_more, starts_with, split-join, NoSep}
use manufacturing_uns.Prelude.Text.{codes}
use manufacturing_uns.Config.Topics.{
  classify_event_kind, kind_of_type, lifecycle, text_eq, sparkplug_prefix, sparkplug_state_prefix,
}

starts_part :
    (sep : ℕ) (part prefix rest : List ℕ)
    → NoSep sep part
    → NoSep sep prefix
    → starts_with (part ++ sep ∷ rest) (prefix ++ sep ∷ []) ≡ text_eq part prefix
unfolding starts_with text_eq
starts_part sep [] [] rest n m = ground arith
starts_part sep [] (p ∷ prefix) rest n m = ground arith
starts_part sep (c ∷ part) [] rest n m = ground arith
starts_part sep (c ∷ part) (p ∷ prefix) rest n m =
    ground (arith, starts_part sep part prefix rest n.1 m.1)

version : NoSep b'/' (codes "spBv1.0")
version = (refl, (refl, (refl, (refl, (refl, (refl, (refl, tt)))))))

state : NoSep b'/' (codes "STATE")
state = (refl, (refl, (refl, (refl, (refl, tt)))))

abbrev topic_of : List ℕ → List ℕ → List (List ℕ) → List ℕ
topic_of group message_type rest = join b'/' (codes "spBv1.0" ∷ group ∷ message_type ∷ rest)

sparkplug :
    (group message_type : List ℕ) (rest : List (List ℕ))
    → starts_with (topic_of group message_type rest) sparkplug_prefix ≡ true
unfolding starts_with join
sparkplug group message_type rest = refl

state_prefix :
    (group message_type : List ℕ) (rest : List (List ℕ))
    → NoSep b'/' group
    → starts_with (topic_of group message_type rest) sparkplug_state_prefix
      ≡ text_eq group (codes "STATE")
unfolding starts_with join
state_prefix group message_type rest n =
    starts_part b'/' group (codes "STATE") (message_type ++ join_more b'/' rest) n state

-- A topic `spBv1.0/<group>/<type>/...` whose parts hold no slash has the kind of its message type,
-- unless its group is STATE.
pub classify_event_kind-join :
    (group message_type : List ℕ) (rest : List (List ℕ))
    → NoSep b'/' group
    → NoSep b'/' message_type
    → All (NoSep b'/') rest
    → classify_event_kind (join b'/' (codes "spBv1.0" ∷ group ∷ message_type ∷ rest))
      ≡ (if text_eq group (codes "STATE") then lifecycle else kind_of_type message_type)
unfolding classify_event_kind
classify_event_kind-join group message_type rest n m a =
    let parts =
      split-join b'/' (codes "spBv1.0") (group ∷ message_type ∷ rest) version (n, (m, a)) in
    let stateful = state_prefix group message_type rest n in
    ground (arith, parts, stateful, sparkplug group message_type rest)
