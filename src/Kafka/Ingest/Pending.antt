-- ===== src/Kafka/Ingest/Pending.antt =====
-- The deliveries that are in flight: what IngestionOwner counts of them, under any sequence of calls.
use manufacturing_uns.Prelude.{
  ℕ, List, ◌≡◌, Bool, length, ◌==◌, ◌≤◌, none, some, arith, ◌+◌, [], ◌∷◌, inl, inr, Bool-cases, ap,
  refl, Option-cases,
}
use manufacturing_uns.Prelude.Dict.{get, put, erase}
use manufacturing_uns.Kafka.Ingest.{
  IngestionOwner, on_reconnect, PendingDelivery, begin_delivery, ReceiptToken, Target, Resolution,
  Publish, ingest_qos1, admit_qos1, ingest_qos0, envelope, complete_delivery, reject, unarchivable,
  queued, exclude, buffer_full, historic, new_owner, IngestionConfig, dlq,
}

-- One call. The uuid of a new delivery is none of those in flight.
pub data Step : IngestionOwner → IngestionOwner → Type 0 where
  reconnects : (o : IngestionOwner) → Step o (on_reconnect o)
  receives :
      {o o' : IngestionOwner} (token : ReceiptToken) (is_historic : Bool) (resolution : Resolution)
      (delivery_id : ℕ) (published : Publish)
      → get ◌==◌ delivery_id o.pending ≡ none
      → ingest_qos1 o token is_historic resolution delivery_id published ≡ some o'
      → Step o o'
  receives_qos0 :
      (o : IngestionOwner) (is_historic : Bool) (resolution : Resolution) (published : Publish)
      → Step o (ingest_qos0 o is_historic resolution published)
  completes :
      (o : IngestionOwner) (delivery_id : ℕ) (success : Bool)
      → Step o (complete_delivery o delivery_id success)

pub data Reach (o : IngestionOwner) : IngestionOwner → Type 0 where
  start : Reach o o
  next : {p q : IngestionOwner} → Reach o p → Step p q → Reach o q

abbrev pub sizes : List (ℕ × PendingDelivery) → ℕ
sizes [] = 0
sizes ((delivery_id, entry) ∷ rest) = entry.byte_size + sizes rest

-- The counters are those of the entries, and keep to the limits.
pub record IsBounded (o : IngestionOwner) : Type 0 where
  pub records : o.pending_records ≡ length o.pending
  pub bytes : o.pending_bytes ≡ sizes o.pending
  pub records_le : o.pending_records ≤ o.config.pending_record_limit
  pub bytes_le : o.pending_bytes ≤ o.config.pending_byte_limit

put_fresh :
    (k : ℕ) (v : PendingDelivery) (d : List (ℕ × PendingDelivery))
    → get ◌==◌ k d ≡ none
    → (length (put ◌==◌ k v d) ≡ length d + 1) × (sizes (put ◌==◌ k v d) ≡ sizes d + v.byte_size)
put_fresh k v [] h = (refl, omega arith)
put_fresh k v ((j, w) ∷ d) h = elim (Bool-cases (j == k)) [
  | inl q ↦ absurd (ground (arith, q))
  | inr q ↦ rw q (omega (arith, put_fresh k v d (ground (arith, q))))
]

erase-put :
    (k : ℕ) (v : PendingDelivery) (d : List (ℕ × PendingDelivery))
    → get ◌==◌ k d ≡ none
    → erase ◌==◌ k (put ◌==◌ k v d) ≡ d
erase-put k v [] h = ground arith
erase-put k v ((j, w) ∷ d) h = elim (Bool-cases (j == k)) [
  | inl q ↦ absurd (ground (arith, q))
  | inr q ↦ rw (q, q) (ap (λ r. (j, w) ∷ r) (erase-put k v d (ground (arith, q))))
]

erase_found :
    (k : ℕ) (v : PendingDelivery) (d : List (ℕ × PendingDelivery))
    → get ◌==◌ k d ≡ some v
    → (length d ≡ length (erase ◌==◌ k d) + 1) × (sizes d ≡ sizes (erase ◌==◌ k d) + v.byte_size)
erase_found k v [] h = absurd (ground arith)
erase_found k v ((j, w) ∷ d) h = elim (Bool-cases (j == k)) [
  | inl q ↦ rw q ground (arith, q)
  | inr q ↦ rw q (omega (arith, erase_found k v d (ground (arith, q))))
]

begin-IsBounded :
    (o : IngestionOwner) (token : ReceiptToken) (wire : List ℕ) (target : Target) (k : ℕ)
    (p : Publish)
    → get ◌==◌ k o.pending ≡ none
    → IsBounded o
    → IsBounded (begin_delivery o token wire target k p)
unfolding begin_delivery
begin-IsBounded o token wire target k queued f v = ground (
  arith,
  put_fresh k (record { token = token; byte_size = length wire; target = target }) o.pending f,
)
begin-IsBounded o token wire target k buffer_full f v = ground (
  arith,
  erase-put k (record { token = token; byte_size = length wire; target = target }) o.pending f,
)

admit-IsBounded :
    (o : IngestionOwner) (token : ReceiptToken) (r : Resolution) (k : ℕ) (p : Publish)
    → get ◌==◌ k o.pending ≡ none
    → IsBounded o
    → IsBounded (admit_qos1 o token r k p)
unfolding admit_qos1
admit-IsBounded o token (envelope wire) k p f v = begin-IsBounded o token wire historic k p f v
admit-IsBounded o token exclude k p f v = ground arith
admit-IsBounded o token (reject wire) k p f v = begin-IsBounded o token wire dlq k p f v
admit-IsBounded o token (unarchivable reason) k p f v = ground arith

receive-IsBounded :
    (o o' : IngestionOwner) (token : ReceiptToken) (h : Bool) (r : Resolution) (k : ℕ) (p : Publish)
    → get ◌==◌ k o.pending ≡ none
    → ingest_qos1 o token h r k p ≡ some o'
    → IsBounded o
    → IsBounded o'
unfolding ingest_qos1
receive-IsBounded o o' token h r k p f e v = ground (arith, admit-IsBounded o token r k p f v)

complete-IsBounded :
    (o : IngestionOwner) (k : ℕ) (success : Bool)
    → IsBounded o
    → IsBounded (complete_delivery o k success)
unfolding complete_delivery
complete-IsBounded o k success v = elim (Option-cases (get ◌==◌ k o.pending)) [
  | inl q ↦ ground arith
  | inr q ↦ let (entry, found) = q in ground (arith, erase_found k entry o.pending found)
]

Step-IsBounded : {o o' : IngestionOwner} → Step o o' → IsBounded o → IsBounded o'
unfolding on_reconnect ingest_qos0
Step-IsBounded (reconnects o) v = ground arith
Step-IsBounded (receives {o = o} {o' = o'} token h r k p f e) v =
    receive-IsBounded o o' token h r k p f e v
Step-IsBounded (receives_qos0 o h (envelope wire) p) v = ground arith
Step-IsBounded (receives_qos0 o h exclude p) v = ground arith
Step-IsBounded (receives_qos0 o h (reject wire) p) v = ground arith
Step-IsBounded (receives_qos0 o h (unarchivable reason) p) v = ground arith
Step-IsBounded (completes o k success) v = complete-IsBounded o k success v

steps-IsBounded : {o o' : IngestionOwner} → Reach o o' → IsBounded o → IsBounded o'
steps-IsBounded start v = v
steps-IsBounded (next r s) v = Step-IsBounded s (steps-IsBounded r v)

new_owner-IsBounded : (config : IngestionConfig) → IsBounded (new_owner config)
unfolding new_owner
new_owner-IsBounded config = record {
  records = refl;
  bytes = refl;
  records_le = omega arith;
  bytes_le = omega arith;
}

-- Whatever is received, confirmed, refused or reconnected, in whatever order, the counters of pending
-- records and bytes are those of the entries in flight and keep to the configured limits.
pub Reach-IsBounded :
    (config : IngestionConfig) {o : IngestionOwner} → Reach (new_owner config) o → IsBounded o
Reach-IsBounded config r = steps-IsBounded r (new_owner-IsBounded config)
