-- ===== src/Datalake/Batch/Valid.antt =====
-- The invariant of the batch manager of 14_uns_datalake/src/uns_datalake/batch.py.
use manufacturing_uns.Prelude.{
  [], ◌∷◌, none, some, true, false, refl, inl, inr, ℕ, List, ◌≡◌, arith, Option-cases, ◌≤◌, length,
  Bool-cases, ◌+◌, ◌++◌, All, subst, sym,
}
use manufacturing_uns.Prelude.Result.{ok}
use manufacturing_uns.Prelude.Dict.{get, put, erase}
use text.Mathlib.TextEquality.{eq_iff}
use text.Mathlib.TextPositions.{eq_refl}
use manufacturing_uns.Datalake.Batch.{
  PartitionKey, LakeRoute, LakeRecord, FlushLimits, PartitionBuffer, BatchManager, key_eq, route_eq,
  empty_buffer, has_route, add_route, buffer_of, admission_would_exceed_limits,
  projected_route_groups,
}

abbrev pub record_bytes : LakeRecord → ℕ
record_bytes r = length r.envelope_bytes

abbrev pub bytes_of : List LakeRecord → ℕ
bytes_of [] = 0
bytes_of (r ∷ rest) = record_bytes r + bytes_of rest

-- A record that this buffer may hold.
pub record Belongs (l : FlushLimits) (key : PartitionKey) (routes : List LakeRoute) (r : LakeRecord)
    : Type 0 where
  pub own_key : r.partition_key ≡ key
  pub small : record_bytes r ≤ l.max_record_bytes
  pub counted : has_route r.route routes ≡ true

pub record BufferOk (l : FlushLimits) (key : PartitionKey) (b : PartitionBuffer) : Type 0 where
  pub same_key : b.partition_key ≡ key
  pub bytes : b.byte_total ≡ bytes_of b.records
  pub few : length b.records ≤ l.max_records
  pub fits : b.byte_total ≤ l.max_bytes
  pub few_routes : length b.route_groups ≤ l.max_active_route_groups
  pub belong : All (Belongs l key b.route_groups) b.records
  pub timed : b.started_at ≡ none → b.records ≡ []

abbrev pub AllBuffers : FlushLimits → List (PartitionKey × PartitionBuffer) → Type 0
AllBuffers l [] = Unit
AllBuffers l ((key, b) ∷ rest) = BufferOk l key b × AllBuffers l rest

pub record IsValid (m : BatchManager) : Type 0 where
  pub buffers : AllBuffers m.limits m.buffers

key_ext : (a b : PartitionKey) → a.topic ≡ b.topic → a.partition ≡ b.partition → a ≡ b
key_ext a b p q = λ i. record { topic = p i; partition = q i }

pub key_eq_refl : (a : PartitionKey) → key_eq a a ≡ true
unfolding key_eq
key_eq_refl a = let same = (eq_iff a.topic a.topic).1 refl in ground (arith, same)

pub key_eq→≡ : (a b : PartitionKey) → key_eq a b ≡ true → a ≡ b
unfolding key_eq
key_eq→≡ a b h = key_ext a b ((eq_iff a.topic b.topic).0 (ground arith)) (ground arith)

pub empty_buffer-BufferOk :
    (l : FlushLimits) (key : PartitionKey) → BufferOk l key (empty_buffer key)
unfolding empty_buffer
empty_buffer-BufferOk l key = record {
  same_key = refl;
  bytes = refl;
  few = omega arith;
  fits = omega arith;
  few_routes = omega arith;
  belong = tt;
  timed = λ h. refl;
}

pub get-BufferOk :
    (l : FlushLimits) (key : PartitionKey) (buffers : List (PartitionKey × PartitionBuffer))
    (b : PartitionBuffer)
    → AllBuffers l buffers
    → get key_eq key buffers ≡ some b
    → BufferOk l key b
get-BufferOk l key [] b h e = absurd (ground arith)
get-BufferOk l key ((j, x) ∷ rest) b h e = elim (Bool-cases (key_eq j key)) [
  | inl q ↦
      let same : x ≡ b = ground arith in
      subst (BufferOk l key) same (subst (λ k. BufferOk l k x) (key_eq→≡ j key q) h.0)
  | inr q ↦ get-BufferOk l key rest b h.1 (ground arith)
]

pub put-AllBuffers :
    (l : FlushLimits) (key : PartitionKey) (b : PartitionBuffer)
    (buffers : List (PartitionKey × PartitionBuffer))
    → BufferOk l key b
    → AllBuffers l buffers
    → AllBuffers l (put key_eq key b buffers)
put-AllBuffers l key b [] h k = (h, tt)
put-AllBuffers l key b ((j, x) ∷ rest) h k = elim (Bool-cases (key_eq j key)) [
  | inl q ↦ rw q (subst (λ z. BufferOk l z b) (sym (key_eq→≡ j key q)) h, k.1)
  | inr q ↦ rw q (k.0, put-AllBuffers l key b rest h k.1)
]

pub erase-AllBuffers :
    (l : FlushLimits) (key : PartitionKey) (buffers : List (PartitionKey × PartitionBuffer))
    → AllBuffers l buffers
    → AllBuffers l (erase key_eq key buffers)
erase-AllBuffers l key [] k = tt
erase-AllBuffers l key ((j, x) ∷ rest) k = elim (Bool-cases (key_eq j key)) [
  | inl q ↦ rw q k.1
  | inr q ↦ rw q (k.0, erase-AllBuffers l key rest k.1)
]

pub buffer_of-BufferOk :
    (m : BatchManager) (key : PartitionKey) → IsValid m → BufferOk m.limits key (buffer_of m key)
unfolding buffer_of
buffer_of-BufferOk m key h = elim (Option-cases (get key_eq key m.buffers)) [
  | inl e ↦ rw (e, buffer_of) (empty_buffer-BufferOk m.limits key)
  | inr (b, e) ↦ rw (e, buffer_of) (get-BufferOk m.limits key m.buffers b h.buffers e)
]

pub route_eq_refl : (r : LakeRoute) → route_eq r r ≡ true
unfolding route_eq
route_eq_refl r =
    ground (arith, eq_refl r.application, eq_refl r.site, eq_refl r.schema, eq_refl r.version)

pub has_route-add_self :
    (r : LakeRoute) (routes : List LakeRoute) → has_route r (add_route r routes) ≡ true
unfolding add_route has_route
has_route-add_self r routes = ground (arith, route_eq_refl r)

pub has_route-add :
    (r x : LakeRoute) (routes : List LakeRoute)
    → has_route x routes ≡ true
    → has_route x (add_route r routes) ≡ true
unfolding add_route has_route
has_route-add r x routes h = ground arith

pub bytes_of-append :
    (l : List LakeRecord) (r : LakeRecord) → bytes_of (l ++ r ∷ []) ≡ bytes_of l + record_bytes r
bytes_of-append [] r = omega arith
bytes_of-append (x ∷ l) r = omega (arith, bytes_of-append l r)

-- What the admission test has found when it lets a record in.
pub record HasRoom (m : BatchManager) (r : LakeRecord) : Type 0 where
  pub small : record_bytes r ≤ m.limits.max_record_bytes
  pub routes :
      length (add_route r.route (buffer_of m r.partition_key).route_groups)
      ≤ m.limits.max_active_route_groups
  pub records : length (buffer_of m r.partition_key).records + 1 ≤ m.limits.max_records
  pub bytes :
      (buffer_of m r.partition_key).byte_total + record_bytes r + m.pending_record_bytes
      ≤ m.limits.max_bytes

pub projected-add_route :
    (m : BatchManager) (r : LakeRecord)
    → projected_route_groups m r
      ≡ length (add_route r.route (buffer_of m r.partition_key).route_groups)
unfolding projected_route_groups add_route buffer_of has_route
projected-add_route m r = elim (Option-cases (get key_eq r.partition_key m.buffers)) [
  | inl e ↦ ground arith
  | inr (b, e) ↦ ground arith
]

pub HasRoom-of_admission :
    (m : BatchManager) (r : LakeRecord) → admission_would_exceed_limits m r ≡ ok false → HasRoom m r
unfolding admission_would_exceed_limits
HasRoom-of_admission m r h = record {
  small = ground arith;
  routes = ground (arith, projected-add_route m r);
  records = ground arith;
  bytes = ground arith;
}
