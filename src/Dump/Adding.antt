-- ===== src/Dump/Adding.antt =====
-- `__add_record` of tools/cmd_dump.c on a probe that is new, and on any.
use pkt_sender.Prelude.{
  ◌<◌, ◌^◌, ℕ, suc, ◌-◌, ◌≡◌, ◌≢◌, refl, sym, ap, subst, ◌∙◌, inl, inr, Bool, true, false, ◌&&◌,
  List, [], ◌∷◌, Option, none, some, arith, if◌then◌else◌, ◌==◌, ltb, Bool-cases,
}
use mathlib.Core.Option.{some-injective}
use pkt_sender.Ring.Slots.{SlotRing, get_slot, take_slot}
use pkt_sender.Tracer.Defs.{RecordFmt}
use pkt_sender.Cuckoo.Defs.{Table, same_key}
use pkt_sender.Cuckoo.Moves.{update_self}
use pkt_sender.Cuckoo.Table.{Answer, index, enoent, enospc}
use pkt_sender.Cuckoo.Valid.{IsValid, mem, AreDistinct, same_key-equal}
use pkt_sender.Cuckoo.Holds.{lookup}
use pkt_sender.Cuckoo.Add.{succeeded, add_key_data_lem}
use pkt_sender.Cuckoo.Sized.{add_key_data-num_buckets}
use pkt_sender.Dump.Defs.{
  TraceData, Traces, zeros, trace_id, store_at, write_data, end_new, add_new_trace, add_looked_up,
  add_record, if_inside,
}
use pkt_sender.Dump.Records.{
  recorded, trace_at, view, IsConsistent, Steps, trace_at-other, updated, updated-Steps,
}

-- A free index is not that of a key, nor are those that are left.
module _ (s : Traces) (v : IsConsistent s) (i : ℕ) (ring : SlotRing)
    (taken : s.trace_data_ring.slots ≡ i ∷ ring.slots) where
  rest_distinct : (mem i ring.slots ≡ false) × AreDistinct ring.slots
  rest_distinct = subst AreDistinct taken v.distinct

  apart :
      (k : List ℕ) (d : ℕ)
      → lookup s.trace_tbl k ≡ some d
      → (d - 1 ≢ i) × (mem (d - 1) ring.slots ≡ false)
  apart k d e = elim (Bool-cases (d - 1 == i)) [
    | inl same ↦ cc (rw (taken, same) at (v.pointed k d e).1)
    | inr other ↦ (ground arith, rw (taken, other) at (v.pointed k d e).1)
  ]

  -- The element is written, and the table may have taken the key.
  module _ (key : List ℕ) (r : RecordFmt) (new : lookup s.trace_tbl key ≡ none) (tbl : Table)
      (ok : Bool) (valid : IsValid tbl) (few : tbl.num_buckets < 2 ^ 30)
      (law : (k : List ℕ)
        → lookup tbl k
          ≡ (if ok && same_key key k then some (suc i) else lookup s.trace_tbl k)) where
    abbrev item : TraceData
    item = store_at (record zeros { idx = i }) r

    abbrev written : Traces
    written = write_data (record s { trace_data_ring = ring }) i item

    abbrev s' : Traces
    s' = record written { trace_tbl = tbl }

    data NewOrOld (k : List ℕ) : Type 0 where
      it : ok && same_key key k ≡ true → key ≡ k → lookup tbl k ≡ some (suc i) → NewOrOld k
      old : ok && same_key key k ≡ false → lookup tbl k ≡ lookup s.trace_tbl k → NewOrOld k

    is_key : (b : Bool) (k : List ℕ) → b && same_key key k ≡ true → key ≡ k
    is_key true k e = same_key-equal key k e
    is_key false k e = cc

    entry_of : (k : List ℕ) → NewOrOld k
    entry_of k = elim (Bool-cases (ok && same_key key k)) [
      | inl e ↦
          it e (is_key ok k e)
            (law k ∙ ap (λ (b : Bool). if b then some (suc i) else lookup s.trace_tbl k) e)
      | inr e ↦
          old e (law k ∙ ap (λ (b : Bool). if b then some (suc i) else lookup s.trace_tbl k) e)
    ]

    one_less : suc i - 1 ≡ i
    one_less = omega arith

    -- An old pointer is not the new one.
    not_it : (k : List ℕ) (d : ℕ) → lookup s.trace_tbl k ≡ some d → d ≢ suc i
    not_it k d e same = (apart k d e).0 (omega (arith, same))

    pointed' :
        (k : List ℕ) (d : ℕ)
        → lookup tbl k ≡ some d
        → NewOrOld k
        → (d ≢ 0) × (mem (d - 1) ring.slots ≡ false)
    pointed' k d e (it _ _ at) =
        let same : suc i ≡ d = some-injective _ _ (sym at ∙ e) in
        (
          omega (arith, same),
          subst (λ (x : ℕ). mem x ring.slots ≡ false) {x = i} {y = d - 1} (omega (arith, same))
              rest_distinct.0,
        )
    pointed' k d e (old _ at) = ((v.pointed k d (sym at ∙ e)).0, (apart k d (sym at ∙ e)).1)

    own' :
        (k l : List ℕ) (d : ℕ)
        → lookup tbl k ≡ some d
        → lookup tbl l ≡ some d
        → NewOrOld k
        → NewOrOld l
        → k ≡ l
    own' k l d ek el (it _ a _) (it _ b _) = sym a ∙ b
    own' k l d ek el (it _ _ at) (old _ bt) =
        absurd (not_it l d (sym bt ∙ el) (some-injective _ _ (sym ek ∙ at)))
    own' k l d ek el (old _ at) (it _ _ bt) =
        absurd (not_it k d (sym at ∙ ek) (some-injective _ _ (sym el ∙ bt)))
    own' k l d ek el (old _ at) (old _ bt) = v.own k l d (sym at ∙ ek) (sym bt ∙ el)

    same_item : trace_at s' (some (suc i)) ≡ some (recorded r none)
    unfolding write_data store_at
    same_item = rw (one_less, update_self s.trace_data i item) refl

    unchanged : (o : Option ℕ) → trace_at s' o ≡ trace_at (write_data s i item) o
    unfolding write_data
    unchanged none = refl
    unchanged (some d) = refl

    viewed' :
        (k : List ℕ)
        → NewOrOld k
        → view s' k ≡ (if ok && same_key key k then some (recorded r (view s key)) else view s k)
    viewed' k (it e _ at) = ap (trace_at s') at ∙ same_item ∙ sym (rw (e, new) refl)
    viewed' k (old e at) =
        ap (trace_at s') at
        ∙ unchanged (lookup s.trace_tbl k)
        ∙ trace_at-other s i item (lookup s.trace_tbl k) (λ d f. (apart k d f).0)
        ∙ sym (rw e refl)

    written-Steps : Steps s key r ok s'
    unfolding write_data
    written-Steps = record {
      consistent = record {
        table = valid;
        pointed = λ k d e. pointed' k d e (entry_of k);
        own = λ k l d e f. own' k l d e f (entry_of k) (entry_of l);
        distinct = rest_distinct.1;
        few_buckets = few;
      };
      viewed = λ k. viewed' k (entry_of k);
    }

-- A record that is refused because no index is free.
refused-Steps : (s : Traces) (key : List ℕ) (r : RecordFmt) → IsConsistent s → Steps s key r false s
refused-Steps s key r v = record { consistent = v; viewed = λ k. refl }

-- What a call leaves.
abbrev pub Recorded : Traces → List ℕ → RecordFmt → Option (Traces × Bool) → Type 0
Recorded s key r result =
    (s' : Traces) × (ok : Bool) × (result ≡ some (s', ok)) × Steps s key r ok s'

end_new-answer :
    (s : Traces) (tbl : Table) (a : Answer)
    → end_new s (some (tbl, a)) ≡ some (record s { trace_tbl = tbl }, succeeded a)
unfolding end_new
end_new-answer s tbl (index i) = refl
end_new-answer s tbl enoent = refl
end_new-answer s tbl enospc = refl

module _ (s : Traces) (v : IsConsistent s) (key : List ℕ) (r : RecordFmt)
    (inside : r.location < 16) where
  in_bounds : ltb r.location 16 ≡ true
  in_bounds = ground arith

  new-Recorded :
      (slots : List ℕ)
      → s.trace_data_ring.slots ≡ slots
      → lookup s.trace_tbl key ≡ none
      → Recorded s key r (add_new_trace s key r (take_slot s.trace_data_ring.data_size slots))
  unfolding add_new_trace take_slot if_inside
  new-Recorded [] e new = (s, false, refl, refused-Steps s key r v)
  new-Recorded (i ∷ slots) e new =
      let ring : SlotRing = record { data_size = s.trace_data_ring.data_size; slots = slots } in
      let (tbl, a, added, (valid, law)) = add_key_data_lem s.trace_tbl key (suc i) v.table in
      let few : tbl.num_buckets < 2 ^ 30 =
        subst (λ (x : ℕ). x < 2 ^ 30)
          (sym (add_key_data-num_buckets s.trace_tbl tbl key (suc i) a added)) v.few_buckets in
      (
        record (written s v i ring e key r new tbl (succeeded a) valid few law) { trace_tbl = tbl },
        succeeded a,
        rw in_bounds refl
            ∙ ap (end_new (written s v i ring e key r new tbl (succeeded a) valid few law)) added
            ∙ end_new-answer _ tbl a,
        written-Steps s v i ring e key r new tbl (succeeded a) valid few law,
      )

  looked_up-Recorded :
      (o : Option ℕ) → lookup s.trace_tbl key ≡ o → Recorded s key r (add_looked_up s key r o)
  unfolding add_looked_up get_slot if_inside
  looked_up-Recorded none e = new-Recorded s.trace_data_ring.slots refl e
  looked_up-Recorded (some d) e =
      (updated s v key r d e, true, rw in_bounds refl, updated-Steps s v key r d e)

pub add_record-Recorded :
    (pad : List ℕ) (s : Traces) (r : RecordFmt)
    → IsConsistent s
    → r.location < 16
    → Recorded s (trace_id pad r) r (add_record pad s r)
unfolding add_record
add_record-Recorded pad s r v inside =
    looked_up-Recorded s v (trace_id pad r) r inside (lookup s.trace_tbl (trace_id pad r)) refl
