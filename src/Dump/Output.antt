-- ===== src/Dump/Output.antt =====
-- A file of records is read, and the traces are printed.
use pkt_sender.Prelude.{
  ℕ, ◌<◌, ◌≡◌, ◌≢◌, refl, sym, ap, subst, ◌∙◌, inl, inr, ◌⊎◌, Bool, false, ◌&&◌, List, [], ◌∷◌,
  Option, none, some, arith, if◌then◌else◌, ◌==◌, ltb, map, Bool-cases,
}
use mathlib.Core.Path.{fun_ext}
use mathlib.Core.Option.{some-injective}
use pkt_sender.Tracer.Defs.{RecordFmt}
use pkt_sender.Cuckoo.Defs.{Key, same_key}
use pkt_sender.Cuckoo.Valid.{same_key_refl}
use pkt_sender.Cuckoo.Holds.{lookup}
use pkt_sender.Cuckoo.Iterate.{total_entries, for_key, bound, walk-lookup, walk_lem, in_use}
use pkt_sender.Dump.Defs.{
  Traces, Line, trace_id, Read, next_record, read_record, line_of, lines, print_walk,
  dump_all_traces,
}
use pkt_sender.Dump.Records.{Trace, recorded, view, IsConsistent}
use pkt_sender.Dump.Adding.{Recorded, add_record-Recorded}

-- The map after the records, of which some are kept.
abbrev pub view_after : (List ℕ → Option Trace) → List Read → List Bool → List ℕ → Option Trace
view_after f ((pad, r) ∷ records) (ok ∷ oks) =
    view_after
      (λ k.
        if ok && same_key (trace_id pad r) k then some (recorded r (f (trace_id pad r))) else f k)
      records oks
view_after f [] oks = f
view_after f (r ∷ records) [] = f

-- What a file leaves.
abbrev pub ReadsAll : Traces → List Read → Option (Traces × List Bool) → Type 0
ReadsAll s records result =
    (s' : Traces) × (oks : List Bool) × (result ≡ some (s', oks))
    × IsConsistent s'
    × ((k : List ℕ) → view s' k ≡ view_after (view s) records oks k)

abbrev pub AreInside : List Read → Type 0
AreInside [] = Unit
AreInside ((pad, r) ∷ records) = (r.location < 16) × AreInside records

set_mac_loc : Traces → RecordFmt → Traces
set_mac_loc s r = record s { mac_loc = if ltb s.mac_loc r.location then r.location else s.mac_loc }

set_mac_loc-IsConsistent :
    (s : Traces) (r : RecordFmt) → IsConsistent s → IsConsistent (set_mac_loc s r)
unfolding set_mac_loc
set_mac_loc-IsConsistent s r v = record {
  table = v.table;
  pointed = v.pointed;
  own = v.own;
  distinct = v.distinct;
  few_buckets = v.few_buckets;
}

next_record-ReadsAll :
    (pad : List ℕ) (s : Traces) (r : RecordFmt) (records : List Read)
    (first : Option (Traces × Bool)) (rec : Traces → Option (Traces × List Bool))
    → Recorded (set_mac_loc s r) (trace_id pad r) r first
    → ((s' : Traces) → IsConsistent s' → ReadsAll s' records (rec s'))
    → ReadsAll s ((pad, r) ∷ records) (next_record first rec)
unfolding set_mac_loc next_record
next_record-ReadsAll pad s r records first rec (s', ok, e, step) rest =
    let (s2, oks, done, v, law) = rest s' step.consistent in
    (
      s2,
      ok ∷ oks,
      rw (e, next_record, done) refl,
      v,
      λ k.
          law k
          ∙ ap (λ (f : List ℕ → Option Trace). view_after f records oks k)
              (fun_ext (λ (l : List ℕ). step.viewed l)),
    )

pub read_record-ReadsAll :
    (s : Traces) (records : List Read)
    → IsConsistent s
    → AreInside records
    → ReadsAll s records (read_record s records)
unfolding read_record set_mac_loc
read_record-ReadsAll s [] v h = (s, [], refl, v, λ k. refl)
read_record-ReadsAll s ((pad, r) ∷ records) v h =
    next_record-ReadsAll pad s r records _ (λ s'. read_record s' records)
      (add_record-Recorded pad (set_mac_loc s r) r (set_mac_loc-IsConsistent s r v) h.0)
      (λ s' v'. read_record-ReadsAll s' records v' h.1)

-- A key is among those of a walk.
abbrev IsIn : Key → List Key → Type 0
IsIn y [] = ⊥
IsIn y (x ∷ xs) = (y ≡ x) ⊎ IsIn y xs

in_bound : (k : List ℕ) (y : Key) (o : Option ℕ) → IsIn y (bound k o) → o ≡ some y.pdata
in_bound k y none m = elim m [ ]
in_bound k y (some x) (inl e) = ap (λ (z : Key). some z.pdata) (sym e)
in_bound k y (some x) (inr m) = elim m [ ]

IsIn-for_key-cons :
    (k : List ℕ) (x y : Key) (xs : List Key) → IsIn y (for_key k xs) → IsIn y (for_key k (x ∷ xs))
IsIn-for_key-cons k x y xs m = elim (Bool-cases (same_key x.key k)) [
  | inl e ↦ rw e (inr m)
  | inr e ↦ rw e m
]

lines-map :
    (s : Traces) (xs : List Key)
    → ((k : List ℕ) (y : Key) → IsIn y (for_key k xs) → y.pdata ≢ 0)
    → lines s xs ≡ map (line_of s) xs
unfolding lines
lines-map s [] h = refl
lines-map s (x ∷ xs) h =
    let first : IsIn x (for_key x.key (x ∷ xs)) = rw (same_key_refl x.key) (inl refl) in
    let used : (x.pdata == 0) ≡ false = not_zero x.pdata (h x.key x first) in
    rw used (
      ap (λ (t : List Line). line_of s x ∷ t)
        (lines-map s xs (λ k y m. h k y (IsIn-for_key-cons k x y xs m))))
  where
    not_zero : (d : ℕ) → d ≢ 0 → (d == 0) ≡ false
    not_zero d ne = ground arith

-- In a consistent state, `__dump_all_traces` ends and prints one line for each key that it is
-- given; it is given each key that a lookup finds once, with the element that the lookup answers,
-- and no other.
pub dump_all_traces_lem :
    (s : Traces)
    → IsConsistent s
    → (ks : List Key) × (dump_all_traces s ≡ some (map (line_of s) ks))
      × ((k : List ℕ) → for_key k ks ≡ bound k (lookup s.trace_tbl k))
unfolding dump_all_traces print_walk
dump_all_traces_lem s v = (
  in_use s.trace_tbl (total_entries s.trace_tbl) 0,
  rw (walk_lem s.trace_tbl) (
      ap some (
        lines-map s _
          (λ k y m. (v.pointed k y.pdata (in_bound k y _ (subst (IsIn y) (given k) m))).0))),
  given,
)
  where
    given :
        (k : List ℕ)
        → for_key k (in_use s.trace_tbl (total_entries s.trace_tbl) 0)
          ≡ bound k (lookup s.trace_tbl k)
    given k =
        let (ks, e, law) = walk-lookup s.trace_tbl k v.table v.few_buckets in
        ap (for_key k) (some-injective _ _ (sym (walk_lem s.trace_tbl) ∙ e)) ∙ law
