-- ===== src/Kafka/Examples.antt =====
-- Tests and examples for the Kafka bridge.
use manufacturing_uns.Prelude.{[], ◌∷◌, some, inl, ℕ, false, String, ◌≡◌, true, refl}
use manufacturing_uns.Prelude.Text.{codes}
use manufacturing_uns.Kafka.Ingest.{
  IngestionOwner, envelope, queued, IngestionConfig, new_owner, ingest_qos1, complete_delivery,
  ReceiptToken, historic, on_reconnect,
}
use manufacturing_uns.Kafka.Ingest.Pending.{
  Reach, start, next, receives, completes, reconnects, IsBounded, Reach-IsBounded,
}
use manufacturing_uns.Kafka.Ingest.Stuck.{Reach-stuck}
use manufacturing_uns.Kafka.Ingest.Acks.{Run, Contains, Run_acks, starts, confirms}
use manufacturing_uns.Kafka.Ownership.{
  OwnershipMapping, Owns, resolve_ownership, resolve_ownership-Owns,
}

abbrev config : IngestionConfig
config = record { pending_record_limit = 2; pending_byte_limit = 8 }

abbrev token : ℕ → ReceiptToken
token packet_id = record { connection_generation = 1; packet_id = packet_id; qos = 1 }

abbrev sent : IngestionOwner
sent = record (new_owner config) {
  pending_records = 1;
  pending_bytes = 3;
  pending = (7, record { token = token 5; byte_size = 3; target = historic }) ∷ [];
  outbox = record { wire = 1 ∷ 2 ∷ 3 ∷ []; target = historic } ∷ [];
}

sending :
    ingest_qos1 (new_owner config) (token 5) true (envelope (1 ∷ 2 ∷ 3 ∷ [])) 7 queued ≡ some sent
unfolding ingest_qos1 new_owner
sending = refl

confirmed : (complete_delivery sent 7 true).acks ≡ token 5 ∷ []
unfolding complete_delivery new_owner
confirmed = refl

-- A message beyond the limit of bytes is not published.
too_many_bytes :
    ingest_qos1 sent (token 6) true (envelope (1 ∷ 2 ∷ 3 ∷ 4 ∷ 5 ∷ 6 ∷ [])) 8 queued
    ≡ some (record sent { ready = false; disconnect_requested = true })
unfolding ingest_qos1 new_owner
too_many_bytes = refl

steps : Reach (new_owner config) sent
unfolding new_owner
steps = next start (receives (token 5) true (envelope (1 ∷ 2 ∷ 3 ∷ [])) 7 queued refl sending)

Reach-IsBounded_example : IsBounded sent
Reach-IsBounded_example = Reach-IsBounded config steps

abbrev refused : IngestionOwner
refused = record sent { ready = false; disconnect_requested = true }

Reach-stuck_example :
    ((complete_delivery (on_reconnect refused) 7 true).ready ≡ false)
    × ((complete_delivery (on_reconnect refused) 7 true).outbox ≡ refused.outbox)
Reach-stuck_example =
    Reach-stuck {o = refused}
      (next (next start (reconnects refused)) (completes (on_reconnect refused) 7 true)) refl

run : Run config (complete_delivery sent 7 true) (token 5 ∷ [])
unfolding new_owner
run =
    confirms 7 (record { token = token 5; byte_size = 3; target = historic })
      (Run.receives (token 5) true (envelope (1 ∷ 2 ∷ 3 ∷ [])) 7 queued starts (λ e. cc) sending)
      refl

Run_acks_example : Contains (token 5 ∷ []) (token 5)
unfolding complete_delivery new_owner
Run_acks_example = Run_acks config run (token 5) (inl refl)

abbrev mapping : String → OwnershipMapping
mapping topic_prefix = record {
  topic_prefix = codes topic_prefix;
  site_id = codes "site_a";
  source_id = codes topic_prefix;
}

deeper_owns :
    resolve_ownership (codes "acme/line1/x") (mapping "acme/" ∷ mapping "acme/line1/" ∷ [])
    ≡ some (mapping "acme/line1/")
unfolding resolve_ownership
deeper_owns = refl

resolve_ownership-Owns_example :
    Owns
      (codes "acme/line1/x")
      (mapping "acme/" ∷ mapping "acme/line1/" ∷ [])
      (mapping "acme/line1/")
resolve_ownership-Owns_example =
    resolve_ownership-Owns (codes "acme/line1/x") (mapping "acme/" ∷ mapping "acme/line1/" ∷ [])
      (mapping "acme/line1/") deeper_owns
