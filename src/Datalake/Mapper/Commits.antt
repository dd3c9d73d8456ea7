-- ===== src/Datalake/Mapper/Commits.antt =====
-- The rejections and commits of DatalakeMapper, mapper.py, keep its ledger sound.
use manufacturing_uns.Datalake.Mapper.Safe.{
  SameFrozen, discard_offset-Discarded, resolve_offset-Resolved, ask_commit-IsSound, logged-IsSound,
  dead_lettered-IsCall, key_eq_refl,
}
use manufacturing_uns.Datalake.Mapper.Ledger.{was_handled, IsSound, PrefixOk, Covered, Safe}
use manufacturing_uns.Prelude.{[], ◌∷◌, none, some, ◌∙◌, ℕ, ◌≡◌, List, not, refl, arith, true}
use manufacturing_uns.Prelude.Holds.{Holds, Holds-intro, Holds-if, Holds-option, Holds-bind}
use manufacturing_uns.Datalake.Batch.{PartitionKey}
use manufacturing_uns.Datalake.Prefix.{next_offset}
use manufacturing_uns.Datalake.Prefix.Commit.{next_offset-safe}
use manufacturing_uns.Datalake.Mapper.{
  DatalakeMapper, commit_partition, try_commit_ready_prefix, advance_rejection, advance_all,
  try_advance_rejections, Event, World, discard_offset, ConsumedPrefix, PendingRejection,
  resolve_offset, may_commit, rejection_blocked, dead_lettered, ask_dead_letter, ask_commit,
}

-- Sound, with the frozen work of `m`.
pub record Keeps (m m' : DatalakeMapper) : Type 0 where
  pub sound : IsSound m'
  pub same : SameFrozen m m'

abbrev pub KeepsFirst {ℓ} : {A : Type ℓ} → DatalakeMapper → DatalakeMapper × A → Type 0
KeepsFirst m r = Keeps m r.0

pub Keeps-self : {m : DatalakeMapper} → IsSound m → Keeps m m
Keeps-self v = record { sound = v; same = record { flush = refl; offset = refl } }

pub Keeps-trans : {a b c : DatalakeMapper} → Keeps a b → Keeps b c → Keeps a c
Keeps-trans h k = record {
  sound = k.sound;
  same = record { flush = k.same.flush ∙ h.same.flush; offset = k.same.offset ∙ h.same.offset };
}

pub resolve_offset-Keeps :
    (m : DatalakeMapper) (key : PartitionKey) (offset : ℕ)
    → was_handled key offset m.log ≡ true
    → IsSound m
    → Holds (Keeps m) (resolve_offset m key offset)
resolve_offset-Keeps m key offset h v = Holds-intro (Keeps m) (resolve_offset m key offset) λ m' e.
    let r = resolve_offset-Resolved m m' key offset h e v in
    record { sound = r.sound; same = r.same }

-- With nothing frozen, a ledger and a log that are sound are all there is to show.
pub unfrozen-IsSound :
    (m : DatalakeMapper)
    → m.frozen_flush ≡ none
    → ((k : PartitionKey) → PrefixOk m.log k (m.consumed_prefixes k))
    → Safe m.log
    → IsSound m
unfrozen-IsSound m n p s = record {
  prefixes = p;
  safe = s;
  pending = λ flush next e o. absurd (ground arith);
  object = λ flush object' group e o g. absurd (ground arith);
}

discard_offset-Keeps :
    (m : DatalakeMapper) (key : PartitionKey) (next : ℕ)
    → m.frozen_flush ≡ none
    → Covered (m.consumed_prefixes key) next
    → IsSound m
    → Holds (Keeps m) (discard_offset m key next)
discard_offset-Keeps m key next n c v = Holds-intro (Keeps m) (discard_offset m key next) λ m' e.
    let d = discard_offset-Discarded m m' key next c e v in
    record { sound = unfrozen-IsSound m' (d.same.flush ∙ n) d.prefixes d.safe; same = d.same }

commit_partition-Keeps :
    (w : World) (m : DatalakeMapper) (key : PartitionKey) (next : ℕ)
    → m.frozen_flush ≡ none
    → Covered (m.consumed_prefixes key) next
    → IsSound m
    → Holds (KeepsFirst m) (commit_partition w m key next)
unfolding commit_partition ask_commit
commit_partition-Keeps w m key next n c v =
    let called : Keeps m (ask_commit w m key next) = record {
      sound = ask_commit-IsSound w m key next c v;
      same = record { flush = refl; offset = refl };
    } in
    Holds-if (KeepsFirst m) (not (may_commit m)) _ _ (λ q. Keeps-self v)
      λ q.
        Holds-if (KeepsFirst m) (not (w.commit_ok m.calls)) _ _ (λ f. called)
          λ f.
            Holds-bind (Keeps (ask_commit w m key next)) (KeepsFirst m)
              (discard_offset (ask_commit w m key next) key next) _
              (discard_offset-Keeps (ask_commit w m key next) key next n c called.sound)
              (λ m' k. Keeps-trans called k)

pub next_offset-Covered :
    (log : List Event) (key : PartitionKey) (p : ConsumedPrefix) (next : ℕ)
    → PrefixOk log key p
    → next_offset p ≡ some next
    → Covered p next
next_offset-Covered log key p next v e o = next_offset-safe p next o v.valid e

pub try_commit-Keeps :
    (w : World) (m : DatalakeMapper) (key : PartitionKey)
    → IsSound m
    → Holds (KeepsFirst m) (try_commit_ready_prefix w m key)
unfolding try_commit_ready_prefix
try_commit-Keeps w m key v =
    Holds-option (KeepsFirst m) m.frozen_flush _ _
      (λ n.
        Holds-option (KeepsFirst m) (next_offset (m.consumed_prefixes key)) _ _ (λ q. Keeps-self v)
          λ next e.
            Holds-if (KeepsFirst m) (not (may_commit m)) _ _ (λ q. Keeps-self v)
              λ q.
                commit_partition-Keeps w m key next n
                  (next_offset-Covered m.log key (m.consumed_prefixes key) next (v.prefixes key) e)
                  v)
      (λ flush q. Keeps-self v)

advance_rejection-Keeps :
    (w : World) (m : DatalakeMapper) (r : PendingRejection)
    → IsSound m
    → Holds (KeepsFirst m) (advance_rejection w m r)
unfolding advance_rejection ask_dead_letter was_handled
advance_rejection-Keeps w m r v =
    let key = r.partition_key in
    let called : Keeps m (ask_dead_letter w m key r.offset) = record {
      sound =
          logged-IsSound m (dead_lettered key r.offset (w.dlq_ok m.calls))
            (dead_lettered-IsCall key r.offset (w.dlq_ok m.calls)) v.safe v;
      same = record { flush = refl; offset = refl };
    } in
    Holds-if (KeepsFirst m) (rejection_blocked m r) _ _ (λ q. Keeps-self v)
      λ q.
        Holds-if (KeepsFirst m) (not (w.dlq_ok m.calls)) _ _ (λ f. called)
          λ f.
            let settled : was_handled key r.offset (ask_dead_letter w m key r.offset).log ≡ true =
              ground (arith, f, key_eq_refl key) in
            Holds-bind (Keeps (ask_dead_letter w m key r.offset)) (KeepsFirst m) _ _
              (resolve_offset-Keeps (ask_dead_letter w m key r.offset) key r.offset settled
                called.sound)
              λ m' k.
                Holds-bind (KeepsFirst m') (KeepsFirst m) _ _ (try_commit-Keeps w m' key k.sound)
                  λ m'' k'. Keeps-trans called (Keeps-trans k k')

advance_all-Keeps :
    (w : World) (m : DatalakeMapper) (rest : List PendingRejection)
    → IsSound m
    → Holds (KeepsFirst m) (advance_all w m rest)
unfolding advance_all
advance_all-Keeps w m [] v = Keeps-self v
advance_all-Keeps w m (r ∷ rest) v =
    Holds-bind (KeepsFirst m) (KeepsFirst m) (advance_rejection w m r) _
      (advance_rejection-Keeps w m r v)
      λ step k.
        Holds-bind (KeepsFirst step.0) (KeepsFirst m) (advance_all w step.0 rest) _
          (advance_all-Keeps w step.0 rest k.sound) λ more k'. Keeps-trans k k'

pub try_advance-Keeps :
    (w : World) (m : DatalakeMapper) → IsSound m → Holds (KeepsFirst m) (try_advance_rejections w m)
unfolding try_advance_rejections
try_advance-Keeps w m v =
    Holds-bind (KeepsFirst m) (KeepsFirst m) (advance_all w m m.pending_rejections) _
      (advance_all-Keeps w m m.pending_rejections v)
      λ step k. record {
        sound = record {
          prefixes = k.sound.prefixes;
          safe = k.sound.safe;
          pending = k.sound.pending;
          object = k.sound.object;
        };
        same = record { flush = k.same.flush; offset = k.same.offset };
      }
