-- ===== src/Dump/Records.antt =====
-- What `__add_record` does to the traces: a map from the identity of a probe to what is known of it.
use pkt_sender.Prelude.{
  ◌<◌, ◌^◌, ℕ, ◌-◌, ◌≡◌, ◌≢◌, refl, sym, ap, subst, ◌∙◌, Bool, true, false, ◌&&◌, List, Option,
  none, some, arith, if◌then◌else◌,
}
use pkt_sender.Tracer.Defs.{RecordFmt, RecordTs, cycles}
use pkt_sender.Cuckoo.Defs.{same_key, update}
use pkt_sender.Cuckoo.Moves.{update_self, update-ne}
use pkt_sender.Cuckoo.Valid.{IsValid, mem, AreDistinct, same_key-equal, same_key_refl}
use pkt_sender.Cuckoo.Holds.{lookup}
use pkt_sender.Dump.Defs.{TraceData, Traces, store_at, write_data}

-- What is known of a probe, by location.
pub record Trace : Type 0 where
  pub times : ℕ → RecordTs
  pub threads : ℕ → ℕ

-- A record is added to what is known.
abbrev pub recorded : RecordFmt → Option Trace → Trace
recorded r none = record {
  times = update (λ i. cycles 0) r.location r.timestamp;
  threads = update (λ i. 0) r.location r.tid;
}
recorded r (some t) = record {
  times = update t.times r.location r.timestamp;
  threads = update t.threads r.location r.tid;
}

abbrev pub trace_at : Traces → Option ℕ → Option Trace
trace_at s none = none
trace_at s (some d) =
    some
      (record { times = (s.trace_data (d - 1)).timestamp; threads = (s.trace_data (d - 1)).tids })

-- The map.
abbrev pub view : Traces → List ℕ → Option Trace
view s k = trace_at s (lookup s.trace_tbl k)

-- Each key of the table has an element of its own, which is not free.
pub record IsConsistent (s : Traces) : Type 0 where
  pub table : IsValid s.trace_tbl
  pub pointed :
      (k : List ℕ) (d : ℕ)
      → lookup s.trace_tbl k ≡ some d
      → (d ≢ 0) × (mem (d - 1) s.trace_data_ring.slots ≡ false)
  pub own :
      (k l : List ℕ) (d : ℕ) → lookup s.trace_tbl k ≡ some d → lookup s.trace_tbl l ≡ some d → k ≡ l
  pub distinct : AreDistinct s.trace_data_ring.slots
  -- The number of entries is a word.
  pub few_buckets : s.trace_tbl.num_buckets < 2 ^ 30

-- The traces after a record for `key`, which is kept or refused.
pub record Steps (s : Traces) (key : List ℕ) (r : RecordFmt) (ok : Bool) (s' : Traces)
    : Type 0 where
  pub consistent : IsConsistent s'
  pub viewed :
      (k : List ℕ)
      → view s' k ≡ (if ok && same_key key k then some (recorded r (view s key)) else view s k)

-- An element other than the one that is written is as it was.
pub trace_at-other :
    (s : Traces) (i : ℕ) (t : TraceData) (o : Option ℕ)
    → ((d : ℕ) → o ≡ some d → d - 1 ≢ i)
    → trace_at (write_data s i t) o ≡ trace_at s o
unfolding write_data
trace_at-other s i t none ne = refl
trace_at-other s i t (some d) ne = rw (update-ne s.trace_data i (d - 1) t (ne d refl)) refl

module _ (s : Traces) (v : IsConsistent s) (key : List ℕ) (r : RecordFmt) where
  -- The key is in the table already.
  module _ (d : ℕ) (found : lookup s.trace_tbl key ≡ some d) where
    abbrev pub updated : Traces
    updated = write_data s (d - 1) (store_at (s.trace_data (d - 1)) r)

    same_table : (k : List ℕ) → lookup updated.trace_tbl k ≡ lookup s.trace_tbl k
    unfolding write_data
    same_table k = refl

    at_d : trace_at updated (some d) ≡ some (recorded r (trace_at s (some d)))
    unfolding write_data store_at
    at_d = rw (update_self s.trace_data (d - 1) (store_at (s.trace_data (d - 1)) r)) refl

    viewed_updated :
        (k : List ℕ) (b : Bool)
        → same_key key k ≡ b
        → view updated k ≡ (if b then some (recorded r (view s key)) else view s k)
    viewed_updated k true e =
        ap (trace_at updated)
          (same_table k ∙ ap (lookup s.trace_tbl) (sym (same_key-equal key k e)) ∙ found)
        ∙ at_d
        ∙ ap (λ (o : Option ℕ). some (recorded r (trace_at s o))) (sym found)
    viewed_updated k false e =
        ap (trace_at updated) (same_table k)
        ∙ trace_at-other s (d - 1) _ (lookup s.trace_tbl k) (λ c at same.
          differs c at (omega (arith, same, (v.pointed k c at).0, (v.pointed key d found).0)))
      where
        differs : (c : ℕ) → lookup s.trace_tbl k ≡ some c → c ≡ d → ⊥
        differs c at same = cc (
          subst (λ (x : List ℕ). same_key key x ≡ true) (v.own key k d found (at ∙ ap some same))
              (same_key_refl key),
          e,
        )

    pub updated-Steps : Steps s key r true updated
    unfolding write_data
    updated-Steps = record {
      consistent = record {
        table = v.table;
        pointed = v.pointed;
        own = v.own;
        distinct = v.distinct;
        few_buckets = v.few_buckets;
      };
      viewed = λ k. viewed_updated k (same_key key k) refl;
    }
