-- ===== src/Cuckoo/Alike.antt =====
-- A table of tools/cuckoohash.c whose entries stay, where free slots, keys not in use, or pointers
-- change.
use pkt_sender.Prelude.{ℕ, ◌≡◌, ◌≢◌, sym, ap, subst, ◌∙◌, false, List}
use pkt_sender.Ring.Slots.{SlotRing}
use pkt_sender.Cuckoo.Defs.{Entry, Buckets, Key, Table, is_null, hash}
use pkt_sender.Cuckoo.Moves.{Placed}
use pkt_sender.Cuckoo.Making.{Same}
use pkt_sender.Cuckoo.Valid.{IsValid, IsFor, KeyPair, KeySame, mem, AreDistinct}
use pkt_sender.Cuckoo.Holds.{Carries}

module _ (h : Table) (v : IsValid h) (free' : SlotRing) (store' : ℕ → Key) (s' : Buckets)
    (same : Same h.buckets s')
    (keys : (p : ℕ)
      → is_null (h.buckets.entry p) ≡ false
      → (store' (h.buckets.entry p).key_idx).key
        ≡ (h.key_store (h.buckets.entry p).key_idx).key) where
  abbrev h' : Table
  h' = record h { free_slots = free'; key_store = store'; buckets = s' }

  was_in_use : (x : ℕ) → is_null (s'.entry x) ≡ false → is_null (h.buckets.entry x) ≡ false
  was_in_use x n = subst (λ (e : Entry). is_null e ≡ false) (same.entries x) n

  same_key_of :
      (x : ℕ)
      → is_null (s'.entry x) ≡ false
      → (store' (s'.entry x).key_idx).key ≡ (h.key_store (h.buckets.entry x).key_idx).key
  same_key_of x n =
      ap (λ (e : Entry). (store' e.key_idx).key) (same.entries x) ∙ keys x (was_in_use x n)

  Placed-alike : (hole : ℕ) → Placed h.bucket_bitmask (KeyPair h') (KeySame h') s' hole
  unfolding hash
  Placed-alike hole = record {
    located = λ x l. rw (same.entries x) ((v.placed hole).located x (was_in_use x l.0, l.1));
    paired = λ x l.
        rw (same_key_of x l.0, same.entries x) ((v.placed hole).paired x (was_in_use x l.0, l.1));
    apart = λ x y lx ly e.
        (v.placed hole).apart x y (was_in_use x lx.0, lx.1) (was_in_use y ly.0, ly.1)
          (sym (same_key_of x lx.0) ∙ e ∙ same_key_of y ly.0);
  }

  pub IsValid-alike :
      ((p : ℕ)
        → is_null (h.buckets.entry p) ≡ false
        → mem (h.buckets.entry p).key_idx free'.slots ≡ false)
      → AreDistinct free'.slots
      → mem 0 free'.slots ≡ false
      → IsValid h'
  IsValid-alike not_free distinct nonzero_free = record {
    bits = v.bits;
    size = v.size;
    mask = v.mask;
    placed = Placed-alike;
    no_flags = λ p. same.flags p ∙ v.no_flags p;
    not_free = λ p n.
        subst (λ (e : Entry). mem e.key_idx free'.slots ≡ false) (sym (same.entries p))
          (not_free p (was_in_use p n));
    distinct = distinct;
    nonzero = λ p n.
        subst (λ (e : Entry). e.key_idx ≢ 0) (sym (same.entries p)) (v.nonzero p (was_in_use p n));
    nonzero_free = nonzero_free;
  }

  -- An entry for a key, before and after.
  pub IsFor-alike : (k : List ℕ) (x : ℕ) → IsFor h k x → IsFor h' k x
  IsFor-alike k x f = record {
    in_use = subst (λ (e : Entry). is_null e ≡ false) (sym (same.entries x)) f.in_use;
    its_key =
        ap (λ (e : Entry). (store' e.key_idx).key) (same.entries x) ∙ keys x f.in_use ∙ f.its_key;
  }

  pub alike-IsFor : (k : List ℕ) (x : ℕ) → IsFor h' k x → IsFor h k x
  alike-IsFor k x g = record {
    in_use = was_in_use x g.in_use;
    its_key = sym (same_key_of x g.in_use) ∙ g.its_key;
  }

  pub Carries-alike :
      (k : List ℕ)
      → ((p : ℕ)
          → IsFor h k p
          → (store' (h.buckets.entry p).key_idx).pdata
            ≡ (h.key_store (h.buckets.entry p).key_idx).pdata)
      → Carries h h' k
  Carries-alike k pointers = record {
    forth = λ x f. (
      x,
      IsFor-alike k x f,
      ap (λ (e : Entry). (store' e.key_idx).pdata) (same.entries x) ∙ pointers x f,
    );
    back = λ y g. (y, alike-IsFor k y g);
  }
