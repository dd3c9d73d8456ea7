-- ===== src/Kafka/Ingest/Stuck.antt =====
-- What IngestionOwner does once it is not ready.
use manufacturing_uns.Kafka.Ingest.{
  ingest_qos1, on_reconnect, IngestionOwner, Outgoing, ingest_qos0, ReceiptToken, complete_delivery,
  Resolution, Publish,
}
use manufacturing_uns.Prelude.{List, ◌≡◌, false, Bool, refl, arith, ℕ, some}
use manufacturing_uns.Kafka.Ingest.Pending.{
  Step, Reach, next, reconnects, start, receives, receives_qos0, completes,
}

-- Not ready, with these messages published.
record IsStuck (sent : List Outgoing) (o : IngestionOwner) : Type 0 where
  pub not_ready : o.ready ≡ false
  pub same : o.outbox ≡ sent

receive-IsStuck :
    (sent : List Outgoing) (o o' : IngestionOwner) (token : ReceiptToken) (h : Bool)
    (r : Resolution) (k : ℕ) (p : Publish)
    → ingest_qos1 o token h r k p ≡ some o'
    → IsStuck sent o
    → IsStuck sent o'
unfolding ingest_qos1
receive-IsStuck sent o o' token h r k p e v = ground arith

Step-IsStuck :
    (sent : List Outgoing) {o o' : IngestionOwner} → Step o o' → IsStuck sent o → IsStuck sent o'
unfolding on_reconnect ingest_qos0 complete_delivery
Step-IsStuck sent (reconnects o) v = ground arith
Step-IsStuck sent (receives {o = o} {o' = o'} token h r k p f e) v =
    receive-IsStuck sent o o' token h r k p e v
Step-IsStuck sent (receives_qos0 o h r p) v = ground arith
Step-IsStuck sent (completes o k success) v = ground arith

steps-IsStuck :
    (sent : List Outgoing) {o o' : IngestionOwner} → Reach o o' → IsStuck sent o → IsStuck sent o'
steps-IsStuck sent start v = v
steps-IsStuck sent (next r s) v = Step-IsStuck sent s (steps-IsStuck sent r v)

-- An owner that is not ready, as one refused publication or one failed delivery leaves it, never
-- publishes again: whatever is called from then on, a reconnection included, it stays not ready and
-- what it has published stays the same.
pub Reach-stuck :
    {o o' : IngestionOwner}
    → Reach o o'
    → o.ready ≡ false
    → (o'.ready ≡ false) × (o'.outbox ≡ o.outbox)
Reach-stuck {o} r h =
    let v = steps-IsStuck o.outbox r (record { not_ready = h; same = refl }) in
    (v.not_ready, v.same)
