-- ===== src/Kafka/Ingest/Acks.antt =====
-- Which acknowledgments IngestionOwner sends.
use manufacturing_uns.Prelude.{
  [], ◌∷◌, List, ◌≡◌, Bool, ℕ, ◌⊎◌, false, subst, ◌≢◌, arith, ◌==◌, sym, inl, some, none, inr, true,
  refl,
}
use manufacturing_uns.Kafka.Ingest.{
  IngestionOwner, IngestionConfig, ReceiptToken, ingest_qos1, ingest_qos0, complete_delivery,
  on_reconnect, new_owner, Resolution, Publish, get, PendingDelivery, exclude, envelope, reject,
  unarchivable,
}

-- The calls, with the receipts that may be acknowledged by then: those whose delivery was reported a
-- success while they were in flight, and those of messages whose route is not archived.
pub data Run (config : IngestionConfig) : IngestionOwner → List ReceiptToken → Type 0 where
  starts : Run config (new_owner config) []
  reconnects :
      {o : IngestionOwner} {s : List ReceiptToken} → Run config o s → Run config (on_reconnect o) s
  receives :
      {o o' : IngestionOwner} {s : List ReceiptToken} (token : ReceiptToken) (is_historic : Bool)
      (resolution : Resolution) (delivery_id : ℕ) (published : Publish)
      → Run config o s
      → resolution ≢ exclude
      → ingest_qos1 o token is_historic resolution delivery_id published ≡ some o'
      → Run config o' s
  excludes :
      {o o' : IngestionOwner} {s : List ReceiptToken} (token : ReceiptToken) (is_historic : Bool)
      (delivery_id : ℕ) (published : Publish)
      → Run config o s
      → ingest_qos1 o token is_historic exclude delivery_id published ≡ some o'
      → Run config o' (token ∷ s)
  receives_qos0 :
      {o : IngestionOwner} {s : List ReceiptToken} (is_historic : Bool) (resolution : Resolution)
      (published : Publish)
      → Run config o s
      → Run config (ingest_qos0 o is_historic resolution published) s
  fails :
      {o : IngestionOwner} {s : List ReceiptToken} (delivery_id : ℕ)
      → Run config o s
      → Run config (complete_delivery o delivery_id false) s
  -- A report for a delivery that is not in flight allows nothing.
  reports :
      {o : IngestionOwner} {s : List ReceiptToken} (delivery_id : ℕ)
      → Run config o s
      → get ◌==◌ delivery_id o.pending ≡ none
      → Run config (complete_delivery o delivery_id true) s
  confirms :
      {o : IngestionOwner} {s : List ReceiptToken} (delivery_id : ℕ) (entry : PendingDelivery)
      → Run config o s
      → get ◌==◌ delivery_id o.pending ≡ some entry
      → Run config (complete_delivery o delivery_id true) (entry.token ∷ s)

abbrev pub Contains : List ReceiptToken → ReceiptToken → Type 0
Contains [] token = ⊥
Contains (t ∷ rest) token = (t ≡ token) ⊎ Contains rest token

-- A call leaves the acknowledgments, or adds one receipt of the current connection.
receive-acks :
    (o o' : IngestionOwner) (token : ReceiptToken) (h : Bool) (r : Resolution) (k : ℕ) (p : Publish)
    → r ≢ exclude
    → ingest_qos1 o token h r k p ≡ some o'
    → o'.acks ≡ o.acks
unfolding ingest_qos1
receive-acks o o' token h (envelope wire) k p n e = ground arith
receive-acks o o' token h exclude k p n e = absurd (n refl)
receive-acks o o' token h (reject wire) k p n e = ground arith
receive-acks o o' token h (unarchivable reason) k p n e = ground arith

exclude-acks :
    (o o' : IngestionOwner) (token : ReceiptToken) (h : Bool) (k : ℕ) (p : Publish)
    → ingest_qos1 o token h exclude k p ≡ some o'
    → (o'.acks ≡ o.acks) ⊎ (o'.acks ≡ token ∷ o.acks)
unfolding ingest_qos1
exclude-acks o o' token h k p e = ground arith

qos0-acks :
    (o : IngestionOwner) (h : Bool) (r : Resolution) (p : Publish)
    → (ingest_qos0 o h r p).acks ≡ o.acks
unfolding ingest_qos0
qos0-acks o h r p = ground arith

fail-acks : (o : IngestionOwner) (k : ℕ) → (complete_delivery o k false).acks ≡ o.acks
unfolding complete_delivery
fail-acks o k = ground arith

report-acks :
    (o : IngestionOwner) (k : ℕ)
    → get ◌==◌ k o.pending ≡ none
    → (complete_delivery o k true).acks ≡ o.acks
unfolding complete_delivery
report-acks o k h = ground arith

confirm-acks :
    (o : IngestionOwner) (k : ℕ) (entry : PendingDelivery)
    → get ◌==◌ k o.pending ≡ some entry
    → ((complete_delivery o k true).acks ≡ o.acks)
      ⊎ ((complete_delivery o k true).acks ≡ entry.token ∷ o.acks)
unfolding complete_delivery
confirm-acks o k entry h = ground arith

keeps :
    (s : List ReceiptToken) {a a' : List ReceiptToken}
    → a' ≡ a
    → ((t : ReceiptToken) → Contains a t → Contains s t)
    → (t : ReceiptToken) → Contains a' t
    → Contains s t
keeps s e f t = subst (λ l. Contains l t → Contains s t) (sym e) (f t)

grows :
    (s : List ReceiptToken) {a a' : List ReceiptToken} (token : ReceiptToken)
    → (a' ≡ a) ⊎ (a' ≡ token ∷ a)
    → ((t : ReceiptToken) → Contains a t → Contains s t)
    → (t : ReceiptToken) → Contains a' t
    → Contains (token ∷ s) t
grows s token (inl e) f t c = inr (keeps s e f t c)
grows s {a} token (inr e) f t c = extend (subst (λ l. Contains l t) e c)
  where
    extend : Contains (token ∷ a) t → Contains (token ∷ s) t
    extend (inl p) = inl p
    extend (inr c) = inr (f t c)

-- A receipt is acknowledged to the MQTT broker only after Kafka reported the delivery of its message
-- a success, or because its route is not archived. A message that was refused, failed or is still in
-- flight is never acknowledged, whatever is called in whatever order.
pub Run_acks :
    (config : IngestionConfig) {o : IngestionOwner} {settled : List ReceiptToken}
    → Run config o settled
    → (token : ReceiptToken) → Contains o.acks token
    → Contains settled token
unfolding on_reconnect new_owner
Run_acks config starts = λ t c. c
Run_acks config (reconnects r) = Run_acks config r
Run_acks config (receives {o = o} {o' = o'} token h res k p r n e) =
    keeps _ (receive-acks o o' token h res k p n e) (Run_acks config r)
Run_acks config (excludes {o = o} {o' = o'} token h k p r e) =
    grows _ token (exclude-acks o o' token h k p e) (Run_acks config r)
Run_acks config (receives_qos0 {o = o} h res p r) =
    keeps _ (qos0-acks o h res p) (Run_acks config r)
Run_acks config (fails {o = o} k r) = keeps _ (fail-acks o k) (Run_acks config r)
Run_acks config (reports {o = o} k r n) = keeps _ (report-acks o k n) (Run_acks config r)
Run_acks config (confirms {o = o} k entry r f) =
    grows _ entry.token (confirm-acks o k entry f) (Run_acks config r)
