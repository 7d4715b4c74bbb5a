-- ===== src/Dump/Start.antt =====
-- The start of tools/cmd_dump.c: `__init_trace_tbl`.
use pkt_sender.Prelude.{
  ℕ, zero, suc, ◌+◌, ◌-◌, ◌*◌, ◌%◌, ◌^◌, ◌≤◌, ◌≡◌, refl, sym, ap, subst, ◌∙◌, inl, inr, false, List,
  [], Option, none, some, arith, ltb, length, Bool-cases,
}
use native.Mathlib.Nat.{pow-le-pow_right}
use native.Mathlib.Numerals.{towards_suc}
use mathlib.Core.Option.{some-injective}
use pkt_sender.Ring.Defs.{Ring}
use pkt_sender.Ring.Create.{System, create as create_ring, create-IsValid}
use pkt_sender.Ring.Slots.{SlotRing, put_slot}
use pkt_sender.Cuckoo.Defs.{Table}
use pkt_sender.Cuckoo.Valid.{AreDistinct}
use pkt_sender.Cuckoo.Create.{CreateResult, einval, enomem, created, cuckoohash_create, populate}
use pkt_sender.Cuckoo.New.{
  IsNew, numbers, numbers-AreDistinct, populate_lem, at_least_min, cuckoohash_create-IsNew,
}
use pkt_sender.Dump.Defs.{Traces, zeros}
use pkt_sender.Dump.Records.{view, IsConsistent}

-- `CMD_DUMP_TRACE_MAX`, and `sizeof(struct trace_id)`
abbrev pub cmd_dump_trace_max : ℕ
cmd_dump_trace_max = 16384

abbrev pub trace_id_size : ℕ
trace_id_size = 16

-- The free indexes are 0 to `max` - 1, as far as the ring takes them.
unfoldable pub with_data_ring : ℕ → Table → Option Ring → Option Traces
with_data_ring max tbl none = none
with_data_ring max tbl (some r) = some (record {
  trace_tbl = tbl;
  trace_data_ring = populate max 0 (record { data_size = r.data_size; slots = [] });
  trace_data = λ i. zeros;
  mac_loc = 0;
})

unfoldable pub with_table : System → ℕ → CreateResult → Option Traces
with_table sys max einval = none
with_table sys max enomem = none
with_table sys max (created tbl) =
    with_data_ring max tbl (create_ring sys false (4 * max % 2 ^ 32)).0

-- `__init_trace_tbl` for `max` traces, of which the code has `cmd_dump_trace_max`.
unfoldable pub init_trace_tbl : System → ℕ → Option Traces
init_trace_tbl sys max = with_table sys max (cuckoohash_create sys trace_id_size max).0

populate_step : (n i : ℕ) (q : SlotRing) → populate (suc n) i q ≡ put_slot (populate n i q) (i + n)
unfolding populate
populate_step zero i q = let e : i + 0 ≡ i = omega arith in rw e refl
populate_step (suc n) i q =
    let e : suc i + n ≡ i + suc n = omega arith in
    populate_step n (suc i) (put_slot q i) ∙ ap (put_slot (populate (suc n) i q)) e

put_slot-no_room :
    (q : SlotRing) (x : ℕ) → ltb (4 * length q.slots + 4) q.data_size ≡ false → put_slot q x ≡ q
unfolding put_slot
put_slot-no_room q x e = rw e refl

length-numbers : (n i : ℕ) → length (numbers n i) ≡ n
length-numbers zero i = refl
length-numbers (suc n) i = ap suc (length-numbers n (suc i))

put_slot-size : (q : SlotRing) (x : ℕ) → (put_slot q x).data_size ≡ q.data_size
unfolding put_slot
put_slot-size q x = elim (Bool-cases (ltb (4 * length q.slots + 4) q.data_size)) [
  | inl e ↦ rw e refl
  | inr e ↦ rw e refl
]

populate-size : (n i : ℕ) (q : SlotRing) → (populate n i q).data_size ≡ q.data_size
unfolding populate
populate-size zero i q = refl
populate-size (suc n) i q = populate-size n (suc i) (put_slot q i) ∙ put_slot-size q i

-- A ring of four bytes for each number has no room for the last.
populate-full :
    (n size : ℕ)
    → size ≡ 4 * suc n
    → (populate (suc n) 0 (record { data_size = size; slots = [] })).slots ≡ numbers n 0
populate-full n size e =
    ap (λ (q : SlotRing). q.slots)
      (populate_step n 0 start
        ∙ put_slot-no_room (populate n 0 start) (0 + n) (
            full (populate n 0 start).slots (populate n 0 start).data_size filled
              (populate-size n 0 start)))
    ∙ filled
  where
    start : SlotRing
    start = record { data_size = size; slots = [] }

    filled : (populate n 0 start).slots ≡ numbers n 0
    filled = populate_lem n 0 start (omega (arith, e))

    full :
        (slots : List ℕ) (d : ℕ)
        → slots ≡ numbers n 0
        → d ≡ size
        → ltb (4 * length slots + 4) d ≡ false
    full slots d a b = rw (a, b, length-numbers n 0) (ground (arith, e))

-- A state with no trace, and all free indexes but the last.
pub record IsStart (max : ℕ) (s : Traces) : Type 0 where
  pub consistent : IsConsistent s
  pub nothing : (k : List ℕ) → view s k ≡ none
  pub free : s.trace_data_ring.slots ≡ numbers (max - 1) 0

module _ (sys : System) (j : ℕ) (ge : 1 ≤ j) (small : j ≤ 25) where
  abbrev max : ℕ
  max = 4 * 2 ^ j

  bounds : (8 ≤ max) × (max ≤ 4 * 2 ^ 25)
  bounds = (
    omega (arith, pow-le-pow_right {n = 2} (omega arith) ge),
    omega (arith, pow-le-pow_right {n = 2} (omega arith) small),
  )

  max_kept : at_least_min max ≡ max
  max_kept = let e : ltb max 8 ≡ false = ground (arith, bounds.0) in rw e refl

  made_table :
      (tbl : Table)
      → (cuckoohash_create sys trace_id_size max).0 ≡ created tbl
      → IsNew trace_id_size max j tbl
  made_table tbl e =
      subst (λ (n : ℕ). IsNew trace_id_size n j tbl) max_kept
        (cuckoohash_create-IsNew sys trace_id_size max j tbl small (omega (arith, max_kept))
          (omega (arith, max_kept, bounds.0)) e)

  made_ring :
      (r : Ring) → (create_ring sys false (4 * max % 2 ^ 32)).0 ≡ some r → r.data_size ≡ 4 * max
  made_ring r e =
      let size : 4 * max % 2 ^ 32 ≡ 4 * max = omega (arith, bounds.1) in
      let made : (create_ring sys false (4 * max)).0 ≡ some r = rw size at e in
      let (valid, _, _, _) =
        create-IsValid sys false (j + 4) (4 * max) (omega arith) (omega (arith, power))
          (omega (arith, power, bounds.0)) made in
      valid.is_power ∙ omega (arith, power)
    where
      power : 2 ^ (j + 4) ≡ 16 * 2 ^ j
      power = simp towards_suc (omega arith)

  with_data_ring-IsStart :
      (tbl : Table) (o : Option Ring) (s : Traces)
      → IsNew trace_id_size max j tbl
      → ((r : Ring) → o ≡ some r → r.data_size ≡ 4 * max)
      → with_data_ring max tbl o ≡ some s
      → IsStart max s
  unfolding with_data_ring
  with_data_ring-IsStart tbl none s new sized e = cc
  with_data_ring-IsStart tbl (some r) s new sized e =
      subst (IsStart max) (some-injective _ _ e) record {
        consistent = record {
          table = new.valid;
          pointed = λ k d f. cc (new.empty k, f);
          own = λ k l d f g. cc (new.empty k, f);
          distinct = subst AreDistinct (sym filled) (numbers-AreDistinct (max - 1) 0);
          few_buckets = omega (arith, new.sized.2, bounds.1);
        };
        nothing = λ k. rw (new.empty k) refl;
        free = filled;
      }
    where
      filled :
          (populate max 0 (record { data_size = r.data_size; slots = [] })).slots
          ≡ numbers (max - 1) 0
      filled =
          subst
            (λ (n : ℕ).
              (populate n 0 (record { data_size = r.data_size; slots = [] })).slots
              ≡ numbers (max - 1) 0)
            {x = suc (max - 1)} {y = max} (omega (arith, bounds.0))
            (populate-full (max - 1) r.data_size (sized r refl ∙ omega (arith, bounds.0)))

  with_table-IsStart :
      (c : CreateResult) (s : Traces)
      → ((tbl : Table) → c ≡ created tbl → IsNew trace_id_size max j tbl)
      → with_table sys max c ≡ some s
      → IsStart max s
  unfolding with_table
  with_table-IsStart einval s made e = cc
  with_table-IsStart enomem s made e = cc
  with_table-IsStart (created tbl) s made e =
      with_data_ring-IsStart tbl _ s (made tbl refl) made_ring e

-- For a number of traces 4 * 2 ^ j, with j from 1 to 25, a state that `__init_trace_tbl` gives is
-- consistent, knows of no probe, and has the free indexes 0 to two below that number: the ring of
-- free indexes has no room for the last.
pub init_trace_tbl-IsStart :
    (sys : System) (j : ℕ) (s : Traces)
    → 1 ≤ j
    → j ≤ 25
    → init_trace_tbl sys (4 * 2 ^ j) ≡ some s
    → IsStart (4 * 2 ^ j) s
unfolding init_trace_tbl
init_trace_tbl-IsStart sys j s ge small e =
    with_table-IsStart sys j ge small (cuckoohash_create sys trace_id_size (4 * 2 ^ j)).0 s
      (made_table sys j ge small) e
