-- ===== src/Model/Binder/Remembered.antt =====
-- What TopicBinder remembers under any interleaving of its calls.
use manufacturing_uns.Prelude.{
  [], ◌∷◌, none, some, inl, inr, List, length, ℕ, ◌≤◌, Bool, ◌≡◌, not, Bool-cases, arith, true,
  false, filter, ltb, Option, subst, length-append, length-filter, ◌++◌, refl, sym, any-append,
  if-elim,
}
use manufacturing_uns.Config.Topics.{text_eq, text_eq→eq, text_eq_refl}
use manufacturing_uns.Model.Binder.{
  TopicBinder, new_binder, is_in, move_to_end, evict, observe_start, without, observe_finish,
  remember, forget, Observed,
}

pub data Step : TopicBinder → TopicBinder → Type 0 where
  starts : (b : TopicBinder) (topic : List ℕ) → Step b (observe_start b topic).0
  finishes :
      (b : TopicBinder) (topic : List ℕ) (succeeded : Bool)
      → is_in topic b.in_flight ≡ true
      → Step b (observe_finish b topic succeeded)
  forgets : (b : TopicBinder) (topic : Option (List ℕ)) → Step b (forget b topic)

pub data Reach (b : TopicBinder) : TopicBinder → Type 0 where
  start : Reach b b
  next : {c d : TopicBinder} → Reach b c → Step c d → Reach b d

-- No topic stands twice.
abbrev pub Distinct : List (List ℕ) → Type 0
Distinct [] = Unit
Distinct (t ∷ topics) = (is_in t topics ≡ false) × Distinct topics

pub record IsTidy (b : TopicBinder) : Type 0 where
  pub within : length b.bound ≤ b.capacity
  pub once : Distinct b.bound
  pub one_call : Distinct b.in_flight

is_in-filter :
    (p : List ℕ → Bool) (t : List ℕ) (topics : List (List ℕ))
    → is_in t topics ≡ false
    → is_in t (filter p topics) ≡ false
unfolding is_in
is_in-filter p t [] h = refl
is_in-filter p t (x ∷ topics) h = ground (arith, is_in-filter p t topics)

Distinct-filter :
    (p : List ℕ → Bool) (topics : List (List ℕ)) → Distinct topics → Distinct (filter p topics)
Distinct-filter p [] d = tt
Distinct-filter p (t ∷ topics) d = elim (Bool-cases (p t)) [
  | inl q ↦ rw q (is_in-filter p t topics d.0, Distinct-filter p topics d.1)
  | inr q ↦ rw q (Distinct-filter p topics d.1)
]

is_in-without :
    (topic : List ℕ) (topics : List (List ℕ)) → is_in topic (without topic topics) ≡ false
unfolding is_in without
is_in-without topic [] = refl
is_in-without topic (x ∷ topics) = ground (arith, is_in-without topic topics)

text_eq_sym : (s t : List ℕ) → text_eq s t ≡ false → text_eq t s ≡ false
text_eq_sym s t h = elim (Bool-cases (text_eq t s)) [
  | inl q ↦
      absurd (
        ground (arith, subst (λ z. text_eq z t ≡ false) (sym (text_eq→eq t s q)) h, text_eq_refl t))
  | inr q ↦ q
]

Distinct-snoc :
    (topic : List ℕ) (topics : List (List ℕ))
    → is_in topic topics ≡ false
    → Distinct topics
    → Distinct (topics ++ topic ∷ [])
unfolding is_in
Distinct-snoc topic [] h d = (refl, tt)
Distinct-snoc topic (t ∷ topics) h d = (
  ground (arith, any-append (text_eq t) topics (topic ∷ []), text_eq_sym topic t),
  Distinct-snoc topic topics (ground arith) d.1,
)

move_to_end-Distinct :
    (topic : List ℕ) (topics : List (List ℕ))
    → Distinct topics
    → Distinct (move_to_end topic topics)
unfolding move_to_end without
move_to_end-Distinct topic topics d =
    Distinct-snoc topic (without topic topics) (is_in-without topic topics)
      (Distinct-filter (λ t. not (text_eq topic t)) topics d)

evict-Distinct :
    (capacity : ℕ) (topics : List (List ℕ)) → Distinct topics → Distinct (evict capacity topics)
unfolding evict
evict-Distinct capacity [] d = tt
evict-Distinct capacity (t ∷ topics) d = elim (Bool-cases (ltb capacity (length (t ∷ topics)))) [
  | inl q ↦ rw q (evict-Distinct capacity topics d.1)
  | inr q ↦ rw q d
]

length-evict : (capacity : ℕ) (topics : List (List ℕ)) → length (evict capacity topics) ≤ capacity
unfolding evict
length-evict capacity [] = omega arith
length-evict capacity (t ∷ topics) = ground (arith, length-evict capacity topics)

-- A topic that is there only changes its place.
length-move_to_end :
    (topic : List ℕ) (topics : List (List ℕ))
    → is_in topic topics ≡ true
    → length (move_to_end topic topics) ≤ length topics
unfolding is_in move_to_end without
length-move_to_end topic [] h = absurd (ground arith)
length-move_to_end topic (t ∷ topics) h = elim (Bool-cases (text_eq topic t)) [
  | inl q ↦ rw q (
      omega (
        arith,
        length-append (filter (λ s. not (text_eq topic s)) topics) (topic ∷ []),
        length-filter (λ s. not (text_eq topic s)) topics,
      ))
  | inr q ↦ rw q (omega (arith, length-move_to_end topic topics (ground (arith, q))))
]

Step-IsTidy : {b c : TopicBinder} → Step b c → IsTidy b → IsTidy c
unfolding observe_start observe_finish remember forget
Step-IsTidy (starts b topic) v =
    if-elim (λ (r : TopicBinder × Observed). IsTidy r.0) (is_in topic b.bound) _ _
      (λ q. record {
        within = omega (arith, v.within, length-move_to_end topic b.bound q);
        once = move_to_end-Distinct topic b.bound v.once;
        one_call = v.one_call;
      })
      (λ q.
        if-elim (λ (r : TopicBinder × Observed). IsTidy r.0) (is_in topic b.in_flight) _ _ (λ w. v)
          (λ w. record { within = v.within; once = v.once; one_call = (w, v.one_call) }))
Step-IsTidy (finishes b topic true h) v = record {
  within = length-evict b.capacity (move_to_end topic b.bound);
  once =
      evict-Distinct b.capacity (move_to_end topic b.bound)
        (move_to_end-Distinct topic b.bound v.once);
  one_call = Distinct-filter (λ t. not (text_eq topic t)) b.in_flight v.one_call;
}
Step-IsTidy (finishes b topic false h) v = record {
  within = v.within;
  once = v.once;
  one_call = Distinct-filter (λ t. not (text_eq topic t)) b.in_flight v.one_call;
}
Step-IsTidy (forgets b none) v = record { within = omega arith; once = tt; one_call = v.one_call }
Step-IsTidy (forgets b (some topic)) v = record {
  within = omega (arith, v.within, length-filter (λ t. not (text_eq topic t)) b.bound);
  once = Distinct-filter (λ t. not (text_eq topic t)) b.bound v.once;
  one_call = v.one_call;
}

steps-IsTidy : {b c : TopicBinder} → IsTidy b → Reach b c → IsTidy c
steps-IsTidy v start = v
steps-IsTidy v (next r s) = Step-IsTidy s (steps-IsTidy v r)

new_binder-IsTidy : (capacity : ℕ) (b : TopicBinder) → new_binder capacity ≡ some b → IsTidy b
unfolding new_binder
new_binder-IsTidy capacity b h = elim (Bool-cases (ltb capacity 1)) [
  | inl q ↦ absurd (ground (arith, q))
  | inr q ↦
      subst IsTidy {x = record { capacity = capacity; bound = []; in_flight = [] }}
        (ground (arith, q)) (record { within = omega arith; once = tt; one_call = tt })
]

-- However the observations of topics interleave and are forgotten, the topics that are remembered are
-- distinct and no more than the capacity, and no topic is being bound by two calls at once.
pub Reach-IsTidy :
    (capacity : ℕ) {b c : TopicBinder} → new_binder capacity ≡ some b → Reach b c → IsTidy c
Reach-IsTidy capacity {b} made r = steps-IsTidy (new_binder-IsTidy capacity b made) r
