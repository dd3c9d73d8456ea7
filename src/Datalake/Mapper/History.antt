-- ===== src/Datalake/Mapper/History.antt =====
-- Every run of DatalakeMapper, mapper.py: polls, assignments and revocations in any order.
use manufacturing_uns.Datalake.Mapper.Commits.{
  unfrozen-IsSound, Keeps, resolve_offset-Keeps, KeepsFirst, try_advance-Keeps, try_commit-Keeps,
}
use manufacturing_uns.Datalake.Mapper.Sound.{
  Sound, rebatched, advance_frozen-Sound, flush_ready-IsSound,
}
use manufacturing_uns.Datalake.Mapper.Safe.{set_prefix-PrefixOk, key_eq_refl}
use manufacturing_uns.Datalake.Mapper.Run.{
  observe_offset, reject, after_buffering, buffer_again, buffer_record, exclude_offset,
  handle_message, take_poll, is_frozen, run_once, record_of,
}
use manufacturing_uns.Datalake.Mapper.Ledger.{
  is_excluded, was_handled, was_received, IsSound, PrefixOk,
}
use manufacturing_uns.Prelude.{
  [], ◌∷◌, none, some, inl, inr, ℕ, ◌≡◌, List, ◌==◌, ◌||◌, arith, false, any-append, subst, true,
  Bool, not, sym, refl,
}
use manufacturing_uns.Prelude.Result.{Result, ok, Result-cases}
use manufacturing_uns.Prelude.Holds.{
  Holds, Holds-intro, Holds-if, Holds-bind, Holds-except, Holds-mono,
}
use manufacturing_uns.Datalake.Batch.{PartitionKey, LakeRecord, try_add, key_eq, LakeRoute}
use manufacturing_uns.Datalake.Prefix.{observe, member}
use manufacturing_uns.Datalake.Prefix.Valid.{observe-IsValid}
use manufacturing_uns.Datalake.Mapper.{
  DatalakeMapper, received, ConsumedPrefix, Event, World, MapperError, try_advance_rejections,
  Content, undecodable, unroutable, ineligible, eligible, set_prefix, try_commit_ready_prefix,
}
use manufacturing_uns.Datalake.Mapper.Loop.{
  nothing, partition_eof, out_of_range, consumer_error, message, Message, Poll,
  flush_ready_partitions,
}

observe_shape :
    (p q : ConsumedPrefix) (offset : ℕ)
    → observe p offset ≡ ok q
    → ((o : ℕ) → member o q.observed ≡ (offset == o || member o p.observed))
      × (q.resolved ≡ p.resolved)
unfolding observe member
observe_shape p q offset h =
    (λ o. ground (arith, any-append (λ x. x == o) p.observed (offset ∷ [])), ground arith)

received-PrefixOk :
    (key : PartitionKey) (offset : ℕ) (content : Content) (log : List Event) (k : PartitionKey)
    (p : ConsumedPrefix)
    → key_eq key k ≡ false
    → PrefixOk log k p
    → PrefixOk (received key offset content ∷ log) k p
unfolding was_handled was_received
received-PrefixOk key offset content log k p q v = record {
  valid = v.valid;
  handled = λ o r. ground (arith, v.handled o r);
  kept = λ o r. ground (arith, q, r, v.kept o);
}

observed-PrefixOk :
    (key : PartitionKey) (offset : ℕ) (content : Content) (log : List Event) (p q : ConsumedPrefix)
    → observe p offset ≡ ok q
    → PrefixOk log key p
    → PrefixOk (received key offset content ∷ log) key q
unfolding was_handled was_received
observed-PrefixOk key offset content log p q e v =
    let (seen, same) = observe_shape p q offset e in
    record {
      valid = observe-IsValid p q offset v.valid e;
      handled = λ o r. ground (arith, v.handled o (subst (λ l. member o l ≡ true) same r));
      kept = λ o r. ground (arith, seen o, v.kept o);
    }

-- Sound, and handled where the message is not archived.
record Observed (key : PartitionKey) (offset : ℕ) (content : Content) (m : DatalakeMapper)
    : Type 0 where
  sound : IsSound m
  excluded : content ≡ ineligible → was_handled key offset m.log ≡ true

-- Nothing is frozen while a message is taken.
observe_offset-Observed :
    (m : DatalakeMapper) (key : PartitionKey) (offset : ℕ) (content : Content)
    → m.frozen_flush ≡ none
    → IsSound m
    → Holds (Observed key offset content) (observe_offset m key offset content)
unfolding observe_offset was_received was_handled
observe_offset-Observed m key offset content n v =
    Holds-intro (Observed key offset content) (observe_offset m key offset content) λ m' e.
      elim (Result-cases (observe (m.consumed_prefixes key) offset)) [
        | inl (p, found) ↦
            let seen : DatalakeMapper = record m {
              consumed_prefixes = set_prefix m.consumed_prefixes key p;
              log = received key offset content ∷ m.log;
            } in
            subst (Observed key offset content) {x = seen} (ground (arith, found)) (record {
              sound =
                  unfrozen-IsSound seen n
                    (set_prefix-PrefixOk (received key offset content ∷ m.log) m.consumed_prefixes
                      key p
                      (λ k q.
                        received-PrefixOk key offset content m.log k (m.consumed_prefixes k) q
                          (v.prefixes k))
                      (observed-PrefixOk key offset content m.log (m.consumed_prefixes key) p found
                        (v.prefixes key)))
                    v.safe;
              excluded = λ c.
                  ground (arith, key_eq_refl key, subst (λ x. is_excluded x ≡ true) (sym c) refl);
            })
        | inr (x, failed) ↦ absurd (ground (arith, failed))
      ]

advanced-Sound :
    (w : World) (m : DatalakeMapper) → IsSound m → Holds Sound (try_advance_rejections w m)
advanced-Sound w m v =
    Holds-mono (KeepsFirst m) Sound (try_advance_rejections w m) (λ r k. k.sound)
      (try_advance-Keeps w m v)

reject-Sound :
    (w : World) (m : DatalakeMapper) (msg : Message) → IsSound m → Holds Sound (reject w m msg)
unfolding reject
reject-Sound w m msg v =
    advanced-Sound w _
      (record { prefixes = v.prefixes; safe = v.safe; pending = v.pending; object = v.object })

after_buffering-Sound :
    (w : World) (m : DatalakeMapper) (now : ℕ) → IsSound m → Holds Sound (after_buffering w m now)
unfolding after_buffering
after_buffering-Sound w m now v =
    advanced-Sound w (flush_ready_partitions m none now) (flush_ready-IsSound m none now v)

buffer_again-Sound :
    (w : World) (m : DatalakeMapper) (r : LakeRecord) (now : ℕ)
    → IsSound m
    → Holds Sound (buffer_again w m r now)
unfolding buffer_again
buffer_again-Sound w m r now v =
    let flushed : DatalakeMapper = flush_ready_partitions m (some r.partition_key) now in
    let s = flush_ready-IsSound m (some r.partition_key) now v in
    Holds-except Sound (try_add flushed.batch r now) _ _ (λ e. tt)
      λ b.
        Holds-if Sound b.1 _ _
          (λ q. after_buffering-Sound w (record flushed { batch = b.0 }) now (rebatched b.0 s))
          (λ q. rebatched b.0 s)

buffer_record-Sound :
    (w : World) (m : DatalakeMapper) (msg : Message) (r : LakeRecord) (now : ℕ)
    → IsSound m
    → Holds Sound (buffer_record w m msg r now)
unfolding buffer_record
buffer_record-Sound w m msg r now v =
    Holds-except Sound (try_add m.batch r now) _ _ (λ e. reject-Sound w m msg v)
      λ b.
        Holds-if Sound b.1 _ _
          (λ q. after_buffering-Sound w (record m { batch = b.0 }) now (rebatched b.0 v))
          (λ q. buffer_again-Sound w (record m { batch = b.0 }) r now (rebatched b.0 v))

exclude_offset-Sound :
    (w : World) (m : DatalakeMapper) (msg : Message)
    → was_handled msg.partition_key msg.offset m.log ≡ true
    → IsSound m
    → Holds Sound (exclude_offset w m msg)
unfolding exclude_offset
exclude_offset-Sound w m msg h v =
    Holds-bind (Keeps m) Sound _ _ (resolve_offset-Keeps m msg.partition_key msg.offset h v) λ m' k.
      Holds-mono (KeepsFirst m') Sound (try_commit_ready_prefix w m' msg.partition_key)
        (λ r k'. k'.sound) (try_commit-Keeps w m' msg.partition_key k.sound)

Holds-content :
    (c : Content) (x y z : Result MapperError (DatalakeMapper × Bool))
    (f : LakeRoute → Result MapperError (DatalakeMapper × Bool))
    → Holds Sound x
    → Holds Sound y
    → (c ≡ ineligible → Holds Sound z)
    → ((route : LakeRoute) → Holds Sound (f route))
    → Holds Sound
        (elim c [ undecodable ↦ x | unroutable ↦ y | ineligible ↦ z | eligible route ↦ f route ])
Holds-content undecodable x y z f h k l g = h
Holds-content unroutable x y z f h k l g = k
Holds-content ineligible x y z f h k l g = l refl
Holds-content (eligible route) x y z f h k l g = g route

handle_message-Sound :
    (w : World) (m : DatalakeMapper) (msg : Message) (now : ℕ)
    → m.frozen_flush ≡ none
    → IsSound m
    → Holds Sound (handle_message w m msg now)
unfolding handle_message
handle_message-Sound w m msg now n v =
    Holds-bind (Observed msg.partition_key msg.offset msg.content) Sound _ _
      (observe_offset-Observed m msg.partition_key msg.offset msg.content n v)
      λ m' s.
        Holds-content msg.content _ _ _ _ (reject-Sound w m' msg s.sound)
          (reject-Sound w m' msg s.sound)
          (λ c. exclude_offset-Sound w m' msg (s.excluded c) s.sound)
          (λ route. buffer_record-Sound w m' msg (record_of msg route) now s.sound)

take_poll-Sound :
    (w : World) (m : DatalakeMapper) (poll : Poll) (now : ℕ)
    → m.frozen_flush ≡ none
    → IsSound m
    → Holds Sound (take_poll w m poll now)
unfolding take_poll
take_poll-Sound w m nothing now n v = v
take_poll-Sound w m partition_eof now n v = v
take_poll-Sound w m out_of_range now n v = v
take_poll-Sound w m consumer_error now n v = v
take_poll-Sound w m (message msg) now n v = handle_message-Sound w m msg now n v

unfrozen : (m : DatalakeMapper) → is_frozen m ≡ false → m.frozen_flush ≡ none
unfolding is_frozen
unfrozen m h = ground arith

pub run_once-Sound :
    (w : World) (m : DatalakeMapper) (poll : Poll) (now : ℕ)
    → IsSound m
    → Holds Sound (run_once w m poll now)
unfolding run_once
run_once-Sound w m poll now v =
    Holds-if Sound (is_frozen m) _ _ (λ q. advance_frozen-Sound w m v)
      λ q. Holds-bind Sound Sound _ _ (after_buffering-Sound w m now v) λ r s.
        Holds-if Sound (not r.1) _ _ (λ d. s)
          λ d.
            Holds-if Sound (is_frozen r.0) _ _ (λ f. s)
              λ f. take_poll-Sound w r.0 poll now (unfrozen r.0 f) s
