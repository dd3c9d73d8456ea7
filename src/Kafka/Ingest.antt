-- ===== src/Kafka/Ingest.antt =====
-- IngestionOwner of 06_uns_kafka/src/uns_kafka/ingest.py. What `_resolve_ingress` and the encoding make
-- of a message is the argument of type Resolution, what the publisher does with it is Publish, and the
-- uuid of a delivery is its number. `acks` is what the calls of `mqtt.ack` have sent, `outbox` what the
-- calls of `publish_event` were given.
pub mod Pending
pub mod Acks
pub mod Stuck
use manufacturing_uns.Prelude.{
  [], ◌∷◌, none, some, true, false, String, ℕ, Bool, List, Option, ltb, ◌==◌, ◌+◌, ◌-◌, ◌++◌, not,
  ◌||◌, if◌then◌else◌, length,
}
use manufacturing_uns.Prelude.Dict.{get, put, erase}

pub record ReceiptToken : Type 0 where
  pub connection_generation : ℕ
  pub packet_id : ℕ
  pub qos : ℕ

pub data Target : Type 0 where
  historic : Target
  dlq : Target

pub record PendingDelivery : Type 0 where
  pub token : ReceiptToken
  pub byte_size : ℕ
  pub target : Target

pub record IngestionConfig : Type 0 where
  pub pending_record_limit : ℕ
  pub pending_byte_limit : ℕ

-- The message as it is published: its bytes on the wire and where it goes.
pub record Outgoing : Type 0 where
  pub wire : List ℕ
  pub target : Target

-- What `_resolve_ingress` ends with: an envelope, `_ExcludeWithoutPublish`, `_RejectAsDlq` with its
-- encoded record, or `_RejectUnarchivable`.
pub data Resolution : Type 0 where
  envelope : List ℕ → Resolution
  exclude : Resolution
  reject : List ℕ → Resolution
  unarchivable : String → Resolution

-- What `publish_event` does: it takes the message, or raises BufferError.
pub data Publish : Type 0 where
  queued : Publish
  buffer_full : Publish

pub record IngestionOwner : Type 0 where
  pub config : IngestionConfig
  pub connection_generation : ℕ
  pub ready : Bool
  pub disconnect_requested : Bool
  pub qos0_delivered : ℕ
  pub pending_records : ℕ
  pub pending_bytes : ℕ
  pub halted : Bool
  pub halt_reason : Option String
  pub pending : List (ℕ × PendingDelivery)
  pub acks : List ReceiptToken
  pub outbox : List Outgoing

-- The defaults of the dataclass.
unfoldable pub new_owner : IngestionConfig → IngestionOwner
new_owner config = record {
  config = config;
  connection_generation = 1;
  ready = true;
  disconnect_requested = false;
  qos0_delivered = 0;
  pending_records = 0;
  pending_bytes = 0;
  halted = false;
  halt_reason = none;
  pending = [];
  acks = [];
  outbox = [];
}

-- The backoff, a random number of seconds that decides nothing here, is left out.
unfoldable pub on_reconnect : IngestionOwner → IngestionOwner
on_reconnect o = record o { connection_generation = o.connection_generation + 1 }

unfoldable pub mark_backpressure : IngestionOwner → IngestionOwner
mark_backpressure o = record o { ready = false; disconnect_requested = true }

-- `_reserve_pending`: none where it returns False.
unfoldable pub reserve_pending : IngestionOwner → ℕ → Option IngestionOwner
reserve_pending o byte_size =
    if ltb o.config.pending_record_limit (o.pending_records + 1)
      || ltb o.config.pending_byte_limit (o.pending_bytes + byte_size)
    then none
    else some (record o {
      pending_records = o.pending_records + 1;
      pending_bytes = o.pending_bytes + byte_size;
    })

unfoldable pub ack : IngestionOwner → ReceiptToken → IngestionOwner
ack o token = record o { acks = token ∷ o.acks }

-- The entry of `_pending` and the message.
unfoldable pub submit : IngestionOwner → ReceiptToken → List ℕ → Target → ℕ → IngestionOwner
submit o token wire target delivery_id = record o {
  pending =
      put ◌==◌ delivery_id (record { token = token; byte_size = length wire; target = target })
        o.pending;
  outbox = record { wire = wire; target = target } ∷ o.outbox;
}

-- The handler of BufferError takes the reservation back.
unfoldable pub begin_delivery :
    IngestionOwner → ReceiptToken → List ℕ → Target → ℕ → Publish → IngestionOwner
unfolding reserve_pending submit mark_backpressure
begin_delivery o token wire target delivery_id published = elim (reserve_pending o (length wire)) [
  | none ↦ mark_backpressure o
  | some reserved ↦ elim published [
    | queued ↦ submit reserved token wire target delivery_id
    | buffer_full ↦ mark_backpressure (record reserved {
      pending = erase ◌==◌ delivery_id (submit reserved token wire target delivery_id).pending;
      pending_records = reserved.pending_records - 1;
      pending_bytes = reserved.pending_bytes - length wire;
    })
  ]
]

unfoldable pub release_without_publish : IngestionOwner → ReceiptToken → IngestionOwner
unfolding ack
release_without_publish o token =
    if not (token.connection_generation == o.connection_generation) then o else ack o token

unfoldable pub halt : IngestionOwner → String → IngestionOwner
halt o reason = record o {
  halted = true;
  halt_reason = some reason;
  ready = false;
  disconnect_requested = true;
}

-- `ingest_qos1` past its guards.
unfoldable pub admit_qos1 :
    IngestionOwner → ReceiptToken → Resolution → ℕ → Publish → IngestionOwner
unfolding begin_delivery release_without_publish halt
admit_qos1 o token (envelope wire) delivery_id published =
    begin_delivery o token wire historic delivery_id published
admit_qos1 o token exclude delivery_id published = release_without_publish o token
admit_qos1 o token (reject wire) delivery_id published =
    begin_delivery o token wire dlq delivery_id published
admit_qos1 o token (unarchivable reason) delivery_id published = halt o reason

-- Its ValueError on another quality of service is none.
unfoldable pub ingest_qos1 :
    IngestionOwner → ReceiptToken → Bool → Resolution → ℕ → Publish → Option IngestionOwner
unfolding admit_qos1 mark_backpressure
ingest_qos1 o token is_historic resolution delivery_id published =
    if not (token.qos == 1)
    then none
    else some (
        if not (token.connection_generation == o.connection_generation)
          || not is_historic
          || o.halted
        then o
        else if not o.ready
        then mark_backpressure o
        else admit_qos1 o token resolution delivery_id published)

-- What `publish_event` took, for a message without an entry; its BufferError goes on to the caller.
unfoldable pub publish_unconfirmed : IngestionOwner → Outgoing → ℕ → Publish → IngestionOwner
publish_unconfirmed o outgoing delivered queued = record o {
  outbox = outgoing ∷ o.outbox;
  qos0_delivered = o.qos0_delivered + delivered;
}
publish_unconfirmed o outgoing delivered buffer_full = o

-- A message of quality 0 has no entry and no acknowledgment. A rejection that cannot be encoded is
-- left out like one that is not archivable.
unfoldable pub ingest_qos0 : IngestionOwner → Bool → Resolution → Publish → IngestionOwner
unfolding publish_unconfirmed
ingest_qos0 o is_historic resolution published =
    if not is_historic || not o.ready || o.halted then o else elim resolution [
      | envelope wire ↦
          publish_unconfirmed o (record { wire = wire; target = historic }) 1 published
      | exclude ↦ o
      | reject wire ↦ publish_unconfirmed o (record { wire = wire; target = dlq }) 0 published
      | unarchivable reason ↦ o
    ]

-- `complete_delivery` once its entry is taken.
unfoldable pub settle : IngestionOwner → PendingDelivery → Bool → IngestionOwner
unfolding ack
settle o entry success =
    if not success
    then record o { ready = false; disconnect_requested = true }
    else if not (entry.token.connection_generation == o.connection_generation)
    then o
    else ack o entry.token

unfoldable pub complete_delivery : IngestionOwner → ℕ → Bool → IngestionOwner
unfolding settle
complete_delivery o delivery_id success = elim (get ◌==◌ delivery_id o.pending) [
  | none ↦ o
  | some entry ↦
      settle
        (record o {
          pending = erase ◌==◌ delivery_id o.pending;
          pending_records = o.pending_records - 1;
          pending_bytes = o.pending_bytes - entry.byte_size;
        })
        entry success
]
