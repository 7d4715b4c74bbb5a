-- ===== src/Cuckoo/Written.antt =====
-- A new entry of a table of tools/cuckoohash.c is written at a free place.
use pkt_sender.Prelude.{
  ℕ, ◌/◌, ◌≡◌, ◌≢◌, refl, sym, ap, subst, ◌∙◌, inl, false, List, none, some, ℕ_discrete, bit_and,
}
use pkt_sender.Cuckoo.Defs.{Entry, Buckets, Table, is_null, hash, hash_secondary}
use pkt_sender.Cuckoo.Table.{write_entry, primary_bucket}
use pkt_sender.Cuckoo.Moves.{Live, Placed, Keeps, update_self, update-ne}
use pkt_sender.Cuckoo.Valid.{IsValid, IsFor, KeyPair, KeySame, mem, pair_in_use}
use pkt_sender.Cuckoo.Holds.{Holds, Carries}

-- A slot that is taken for a key: it is not free, and no entry has it.
pub record IsFresh (h : Table) (slot : ℕ) : Type 0 where
  pub not_free : mem slot h.free_slots.slots ≡ false
  pub unused : (p : ℕ) → is_null (h.buckets.entry p) ≡ false → (h.buckets.entry p).key_idx ≢ slot
  pub nonzero : slot ≢ 0

-- `h` is valid and has no entry for the key, which is in `slot` already; `s` is its buckets with the
-- place `p` free, in the key's primary bucket.
module _ (h : Table) (v : IsValid h) (key : List ℕ) (slot : ℕ) (fresh : IsFresh h slot)
    (stored : (h.key_store slot).key ≡ key) (new : Holds h key none) (s : Buckets) (p : ℕ)
    (placed : Placed h.bucket_bitmask (KeyPair h) (KeySame h) s p) (keeps : Keeps h.buckets s p)
    (flags : (x : ℕ) → s.flag x ≡ 0) (at : p / 4 ≡ primary_bucket h (hash h key)) where
  abbrev h' : Table
  h' = write_entry (record h { buckets = s }) p (hash h key) slot

  at_p :
      h'.buckets.entry p
      ≡ record { current = hash h key; alt = hash_secondary (hash h key); key_idx = slot }
  unfolding write_entry
  at_p = update_self s.entry p _

  p_idx : (h'.buckets.entry p).key_idx ≡ slot
  p_idx = ap (λ (e : Entry). e.key_idx) at_p

  other : (x : ℕ) → x ≢ p → h'.buckets.entry x ≡ s.entry x
  unfolding write_entry
  other x ne = update-ne s.entry p x _ ne

  stays : (x : ℕ) → x ≢ p → is_null (h'.buckets.entry x) ≡ false → Live s p x
  stays x ne n = (subst (λ (e : Entry). is_null e ≡ false) (other x ne) n, ne)

  -- An entry other than the new one has a key of the table before.
  origin :
      (x : ℕ)
      → x ≢ p
      → is_null (h'.buckets.entry x) ≡ false
      → (y : ℕ) × (is_null (h.buckets.entry y) ≡ false)
        × ((h'.buckets.entry x).key_idx ≡ (h.buckets.entry y).key_idx)
  origin x ne n =
      let (y, m, e) = keeps.back x (stays x ne n) in
      (y, m, ap (λ (a : Entry). a.key_idx) (other x ne) ∙ e)

  p-in_use : is_null (h'.buckets.entry p) ≡ false
  p-in_use =
      pair_in_use _ (hash h key)
        (inl (ap (λ (e : Entry). e.current) at_p, ap (λ (e : Entry). e.alt) at_p))

  -- No other entry is for its key.
  clash :
      (x : ℕ)
      → x ≢ p
      → is_null (h'.buckets.entry x) ≡ false
      → (h.key_store (h'.buckets.entry x).key_idx).key ≢ key
  clash x ne n same =
      let (y, m, e) = origin x ne n in
      new y (record { in_use = m; its_key = sym (ap (λ (i : ℕ). (h.key_store i).key) e) ∙ same })

  write-Placed : (hole : ℕ) → Placed h.bucket_bitmask (KeyPair h) (KeySame h) h'.buckets hole
  write-Placed hole = record {
    located = λ x l. elim (ℕ_discrete x p) [
      | yes e ↦
          subst (λ (y : ℕ). y / 4 ≡ bit_and (h'.buckets.entry y).current h.bucket_bitmask) (sym e)
            (rw at_p at)
      | no ne ↦ rw (other x ne) (placed.located x (stays x ne l.0))
    ];
    paired = λ x l. elim (ℕ_discrete x p) [
      | yes e ↦
          subst
            (λ (y : ℕ).
              KeyPair h (h'.buckets.entry y).key_idx (h'.buckets.entry y).current
                (h'.buckets.entry y).alt)
            (sym e) (rw (at_p, stored) (inl (refl, refl)))
      | no ne ↦ rw (other x ne) (placed.paired x (stays x ne l.0))
    ];
    apart = λ x y lx ly same. elim (ℕ_discrete x p) [
      | yes ex ↦ elim (ℕ_discrete y p) [
        | yes ey ↦ ex ∙ sym ey
        | no ney ↦ absurd (
            clash y ney ly.0 (
              sym same
              ∙ ap (λ (z : ℕ). (h.key_store (h'.buckets.entry z).key_idx).key) ex
              ∙ ap (λ (i : ℕ). (h.key_store i).key) p_idx
              ∙ stored))
      ]
      | no nex ↦ elim (ℕ_discrete y p) [
        | yes ey ↦ absurd (
            clash x nex lx.0 (
              same
              ∙ ap (λ (z : ℕ). (h.key_store (h'.buckets.entry z).key_idx).key) ey
              ∙ ap (λ (i : ℕ). (h.key_store i).key) p_idx
              ∙ stored))
        | no ney ↦ placed.apart x y (stays x nex lx.0) (stays y ney ly.0) (
            subst
              (λ (e : Entry). (h.key_store e.key_idx).key ≡ (h.key_store (s.entry y).key_idx).key)
              (other x nex)
              (subst
                (λ (e : Entry).
                  (h.key_store (h'.buckets.entry x).key_idx).key ≡ (h.key_store e.key_idx).key)
                (other y ney) same))
      ]
    ];
  }

  pub write_entry-IsValid : IsValid h'
  unfolding write_entry hash
  write_entry-IsValid = record {
    bits = v.bits;
    size = v.size;
    mask = v.mask;
    placed = write-Placed;
    no_flags = flags;
    not_free = λ x n. elim (ℕ_discrete x p) [
      | yes e ↦
          subst (λ (i : ℕ). mem i h.free_slots.slots ≡ false)
            (sym p_idx ∙ ap (λ (y : ℕ). (h'.buckets.entry y).key_idx) (sym e)) fresh.not_free
      | no ne ↦
          let (y, m, e) = origin x ne n in
          subst (λ (i : ℕ). mem i h.free_slots.slots ≡ false) (sym e) (v.not_free y m)
    ];
    distinct = v.distinct;
    nonzero = λ x n z. elim (ℕ_discrete x p) [
      | yes e ↦ fresh.nonzero (sym p_idx ∙ ap (λ (y : ℕ). (h'.buckets.entry y).key_idx) (sym e) ∙ z)
      | no ne ↦ let (y, m, e) = origin x ne n in v.nonzero y m (sym e ∙ z)
    ];
    nonzero_free = v.nonzero_free;
  }

  -- The new entry.
  pub write_entry-IsFor : IsFor h' key p
  unfolding write_entry
  write_entry-IsFor = record {
    in_use = p-in_use;
    its_key = ap (λ (i : ℕ). (h.key_store i).key) p_idx ∙ stored;
  }

  pub write_entry-Holds : Holds h' key (some (h.key_store slot).pdata)
  unfolding write_entry
  write_entry-Holds = (p, write_entry-IsFor, ap (λ (i : ℕ). (h.key_store i).pdata) p_idx)

  -- The entries for other keys.
  pub write_entry-Carries : (k : List ℕ) → k ≢ key → Carries h h' k
  unfolding write_entry
  write_entry-Carries k ne = record {
    forth = λ x f.
        let (y, l, e) = keeps.there x f.in_use in
        let idx : (h'.buckets.entry y).key_idx ≡ (h.buckets.entry x).key_idx =
          ap (λ (a : Entry). a.key_idx) (other y l.1) ∙ e in
        (
          y,
          record {
            in_use = subst (λ (a : Entry). is_null a ≡ false) (sym (other y l.1)) l.0;
            its_key = ap (λ (i : ℕ). (h.key_store i).key) idx ∙ f.its_key;
          },
          ap (λ (i : ℕ). (h.key_store i).pdata) idx,
        );
    back = λ y g. elim (ℕ_discrete y p) [
      | yes e ↦ absurd (
          ne (
            sym g.its_key
            ∙ ap (λ (z : ℕ). (h.key_store (h'.buckets.entry z).key_idx).key) e
            ∙ write_entry-IsFor.its_key))
      | no away ↦
          let (x, m, e) = origin y away g.in_use in
          (
            x,
            record {
              in_use = m;
              its_key = sym (ap (λ (i : ℕ). (h.key_store i).key) e) ∙ g.its_key;
            },
          )
    ];
  }
