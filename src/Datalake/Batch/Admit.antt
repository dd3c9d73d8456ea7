-- ===== src/Datalake/Batch/Admit.antt =====
-- Admission to a batch: try_add and pop_partition of 14_uns_datalake/src/uns_datalake/batch.py.
use manufacturing_uns.Prelude.{
  [], ◌∷◌, none, some, true, false, refl, inl, inr, List, ℕ, Option, Bool, ◌≢◌, ◌≡◌, arith, subst,
  ◌+◌, length-append, All-append, All-map, sym, ◌≤◌, ltb,
}
use manufacturing_uns.Prelude.Result.{ok, Result-cases}
use manufacturing_uns.Prelude.Dict.{get, put}
use manufacturing_uns.Datalake.Batch.{
  PartitionKey, LakeRoute, LakeRecord, FlushLimits, PartitionBuffer, BatchManager, limits_valid,
  key_eq, empty_buffer, add_route, buffer_of, appended, admitted, admission_would_exceed_limits,
  projected_route_groups, try_add, pop_partition, total_buffered_bytes, sum_bytes,
}
use manufacturing_uns.Datalake.Batch.Valid.{
  IsValid, BufferOk, Belongs, HasRoom, HasRoom-of_admission, record_bytes, buffer_of-BufferOk,
  has_route-add, bytes_of-append, put-AllBuffers, erase-AllBuffers, has_route-add_self,
}

Belongs-grow :
    (l : FlushLimits) (key : PartitionKey) (routes : List LakeRoute) (r : LakeRoute)
    (x : LakeRecord)
    → Belongs l key routes x
    → Belongs l key (add_route r routes) x
Belongs-grow l key routes r x h = record {
  own_key = h.own_key;
  small = h.small;
  counted = has_route-add r x.route routes h.counted;
}

appended-BufferOk :
    (m : BatchManager) (r : LakeRecord) (now : ℕ)
    → IsValid m
    → HasRoom m r
    → BufferOk m.limits r.partition_key (appended (buffer_of m r.partition_key) r now)
unfolding appended
appended-BufferOk m r now v room =
    let b = buffer_of m r.partition_key in
    let old = buffer_of-BufferOk m r.partition_key v in
    record {
      same_key = old.same_key;
      bytes = omega (arith, old.bytes, bytes_of-append b.records r);
      few = omega (arith, room.records, length-append b.records (r ∷ []));
      fits = omega (arith, room.bytes);
      few_routes = room.routes;
      belong =
          All-append (Belongs m.limits r.partition_key (add_route r.route b.route_groups)) b.records
            (r ∷ [])
            (All-map _ _ b.records
              (λ x. Belongs-grow m.limits r.partition_key b.route_groups r.route x) old.belong)
            (
              record {
                own_key = refl;
                small = room.small;
                counted = has_route-add_self r.route b.route_groups;
              },
              tt,
            );
      timed = λ h. absurd (never b.started_at h);
    }
  where
    never : (o : Option ℕ) → elim o [ none ↦ some now | some start ↦ some start ] ≢ none
    never none h = cc
    never (some start) h = cc

admitted-IsValid :
    (m : BatchManager) (r : LakeRecord) (now : ℕ)
    → IsValid m
    → HasRoom m r
    → IsValid (admitted m r now)
unfolding admitted
admitted-IsValid m r now v room = record {
  buffers =
      put-AllBuffers m.limits r.partition_key (appended (buffer_of m r.partition_key) r now)
        m.buffers (appended-BufferOk m r now v room) v.buffers;
}

-- What a call of `try_add` that does not raise did.
pub data Outcome (m : BatchManager) (r : LakeRecord) (now : ℕ) : BatchManager × Bool → Type 0 where
  accepted : HasRoom m r → Outcome m r now (admitted m r now, true)
  refused : Outcome m r now (m, false)

Outcome-of :
    (m : BatchManager) (r : LakeRecord) (now : ℕ) (out : BatchManager × Bool)
    → try_add m r now ≡ ok out
    → Outcome m r now out
unfolding try_add
Outcome-of m r now out h = elim (Result-cases (admission_would_exceed_limits m r)) [
  | inr (e, p) ↦ absurd (ground arith)
  | inl (true, p) ↦
      let same : (m, false) ≡ out = ground arith in subst (Outcome m r now) same refused
  | inl (false, p) ↦
      let same : (admitted m r now, true) ≡ out = ground arith in
      subst (Outcome m r now) same (accepted (HasRoom-of_admission m r p))
]

Outcome-IsValid :
    (m : BatchManager) (r : LakeRecord) (now : ℕ) (out : BatchManager × Bool)
    → Outcome m r now out
    → IsValid m
    → IsValid out.0
Outcome-IsValid m r now _ (accepted room) v = admitted-IsValid m r now v room
Outcome-IsValid m r now _ refused v = v

-- `try_add` keeps the invariant: every buffer stands under the key of its records, its byte total is
-- the sum of theirs, neither it nor the number of records or of routes passes its limit, no record is
-- larger than allowed, every record's route is counted, and a buffer without a start is empty.
pub try_add-IsValid :
    (m m' : BatchManager) (r : LakeRecord) (now : ℕ) (added : Bool)
    → IsValid m
    → try_add m r now ≡ ok (m', added)
    → IsValid m'
try_add-IsValid m m' r now added v h =
    Outcome-IsValid m r now (m', added) (Outcome-of m r now (m', added) h) v

pub pop_partition-IsValid :
    (m : BatchManager) (key : PartitionKey) → IsValid m → IsValid (pop_partition m key).0
unfolding pop_partition
pop_partition-IsValid m key v = record {
  buffers = erase-AllBuffers m.limits key m.buffers v.buffers;
}

sum_bytes-put :
    (key : PartitionKey) (b : PartitionBuffer) (buffers : List (PartitionKey × PartitionBuffer))
    → sum_bytes (put key_eq key b buffers)
        + (elim (get key_eq key buffers) [ none ↦ 0 | some old ↦ old.byte_total ])
      ≡ sum_bytes buffers + b.byte_total
unfolding sum_bytes
sum_bytes-put key b [] = omega arith
sum_bytes-put key b ((j, x) ∷ rest) = ground (arith, sum_bytes-put key b rest)

buffer_of-bytes :
    (m : BatchManager) (key : PartitionKey)
    → (elim (get key_eq key m.buffers) [ none ↦ 0 | some old ↦ old.byte_total ])
      ≡ (buffer_of m key).byte_total
unfolding buffer_of empty_buffer
buffer_of-bytes m key = ground arith

admitted-total :
    (m : BatchManager) (r : LakeRecord) (now : ℕ)
    → total_buffered_bytes (admitted m r now) + m.pending_record_bytes
      ≡ total_buffered_bytes m + record_bytes r
unfolding total_buffered_bytes admitted appended
admitted-total m r now = omega (
  arith,
  sum_bytes-put r.partition_key (appended (buffer_of m r.partition_key) r now) m.buffers,
  buffer_of-bytes m r.partition_key,
)

admitted_of :
    (m m' : BatchManager) (r : LakeRecord) (now : ℕ)
    → try_add m r now ≡ ok (m', true)
    → m' ≡ admitted m r now
unfolding try_add
admitted_of m m' r now h = elim (Result-cases (admission_would_exceed_limits m r)) [
  | inr (e, p) ↦ absurd (ground arith)
  | inl (true, p) ↦ absurd (ground arith)
  | inl (false, p) ↦ ground arith
]

admitted-pending :
    (m : BatchManager) (r : LakeRecord) (now : ℕ) → (admitted m r now).pending_record_bytes ≡ 0
unfolding admitted
admitted-pending m r now = refl

-- A record that `try_add` lets in adds its own bytes to the total in place of the reservation.
pub try_add-total :
    (m m' : BatchManager) (r : LakeRecord) (now : ℕ)
    → try_add m r now ≡ ok (m', true)
    → (total_buffered_bytes m' + m.pending_record_bytes ≡ total_buffered_bytes m + record_bytes r)
      × (m'.pending_record_bytes ≡ 0)
try_add-total m m' r now h =
    subst
      (λ z.
        (total_buffered_bytes z + m.pending_record_bytes ≡ total_buffered_bytes m + record_bytes r)
        × (z.pending_record_bytes ≡ 0))
      (sym (admitted_of m m' r now h)) (admitted-total m r now, admitted-pending m r now)

fresh-admission :
    (m : BatchManager) (r : LakeRecord)
    → limits_valid m.limits ≡ true
    → m.pending_record_bytes ≡ 0
    → get key_eq r.partition_key m.buffers ≡ none
    → record_bytes r ≤ m.limits.max_record_bytes
    → admission_would_exceed_limits m r ≡ ok false
unfolding admission_would_exceed_limits limits_valid buffer_of projected_route_groups empty_buffer
fresh-admission m r v p g s = ground (arith, g, lt_not m.limits.max_record_bytes (record_bytes r) s)
  where
    lt_not : (a b : ℕ) → b ≤ a → ltb a b ≡ false
    lt_not a b h = ground arith

-- With limits that pass their validation, no reservation, and no buffer for the partition, as after
-- `pop_partition`: a record that is not larger than allowed is let in, so a flush always makes room.
pub try_add_fresh :
    (m : BatchManager) (r : LakeRecord) (now : ℕ)
    → limits_valid m.limits ≡ true
    → m.pending_record_bytes ≡ 0
    → get key_eq r.partition_key m.buffers ≡ none
    → record_bytes r ≤ m.limits.max_record_bytes
    → try_add m r now ≡ ok (admitted m r now, true)
unfolding try_add
try_add_fresh m r now v p g s = rw (fresh-admission m r v p g s, try_add)
