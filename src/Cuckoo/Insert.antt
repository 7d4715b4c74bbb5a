-- ===== src/Cuckoo/Insert.antt =====
-- A new key is put into a table of tools/cuckoohash.c.
use pkt_sender.Prelude.{
  ℕ, suc, ◌-◌, ◌*◌, ◌/◌, ◌^◌, ◌≡◌, refl, sym, ap, subst, ◌∙◌, inl, inr, true, false, List, Option,
  none, some, arith, bit_and,
}
use pkt_sender.Ring.Slots.{SlotRing, put_slot}
use pkt_sender.Cuckoo.Defs.{Buckets, Table, Key, is_null, hash, update}
use pkt_sender.Cuckoo.Space.{make_space_bucket}
use pkt_sender.Cuckoo.Table.{write_entry, primary_bucket, add_new, add_pushed}
use pkt_sender.Cuckoo.Search.{FindsIn}
use pkt_sender.Cuckoo.Moves.{Placed, Keeps, update_self, update-ne}
use pkt_sender.Cuckoo.Making.{Same, Ensures, make_space_bucket-Ensures}
use pkt_sender.Cuckoo.Depth.{Ends, make_space_bucket-Ends, masked-lt, count_unset-le}
use pkt_sender.Cuckoo.Valid.{IsValid, KeyPair, KeySame}
use pkt_sender.Cuckoo.Holds.{Holds, Carries, Holds-Carries, lookup, lookup-Holds}
use pkt_sender.Cuckoo.Written.{IsFresh, write_entry-IsValid, write_entry-Holds, write_entry-Carries}
use pkt_sender.Cuckoo.Alike.{IsValid-alike, alike-IsFor, Carries-alike}
use pkt_sender.Cuckoo.Taken.{Puts, Leaves, Adds, TakesSlot, Same-refl}

-- An entry pushed to its other bucket has its signatures in the other order.
pair-flip : (h : Table) (i c a : ℕ) → KeyPair h i c a → KeyPair h i a c
pair-flip h i c a (inl (ec, ea)) = inr (ea, ec)
pair-flip h i c a (inr (ec, ea)) = inl (ea, ec)

module _ (h : Table) (v : IsValid h) (key : List ℕ) (pdata slot : ℕ) (rest : SlotRing)
    (t : TakesSlot h slot rest) where
  -- The key is new.
  module _ (new : Holds h key none) where
    abbrev new_store : ℕ → Key
    new_store = update h.key_store slot (record { key = key; pdata = pdata })

    abbrev copied : Table
    copied = record h { free_slots = rest; key_store = new_store }

    kept_key :
        (x : ℕ)
        → is_null (h.buckets.entry x) ≡ false
        → new_store (h.buckets.entry x).key_idx ≡ h.key_store (h.buckets.entry x).key_idx
    kept_key x n = update-ne h.key_store slot _ _ (t.unused x n).0

    new_keys :
        (x : ℕ)
        → is_null (h.buckets.entry x) ≡ false
        → (new_store (h.buckets.entry x).key_idx).key
          ≡ (h.key_store (h.buckets.entry x).key_idx).key
    new_keys x n = ap (λ (k : Key). k.key) (kept_key x n)

    at_slot : new_store slot ≡ record { key = key; pdata = pdata }
    at_slot = update_self h.key_store slot _

    copied-IsValid : IsValid copied
    copied-IsValid =
        IsValid-alike h v rest new_store h.buckets (Same-refl h.buckets) new_keys
          (λ p n. (t.unused p n).1) t.rest_distinct.1 t.nonzero.1

    copied-IsFresh : IsFresh copied slot
    copied-IsFresh = record {
      not_free = t.rest_distinct.0;
      unused = λ p n. (t.unused p n).0;
      nonzero = λ e. t.nonzero.0 (sym e);
    }

    copied-new : Holds copied key none
    copied-new x f =
        new x (alike-IsFor h v rest new_store h.buckets (Same-refl h.buckets) new_keys key x f)

    copied-Carries : (k : List ℕ) → Carries h copied k
    copied-Carries k =
        Carries-alike h v rest new_store h.buckets (Same-refl h.buckets) new_keys k
          (λ x f. ap (λ (a : Key). a.pdata) (kept_key x f.in_use))

    -- No room was made.
    left-Leaves :
        (s : Buckets)
        → Same h.buckets s
        → Leaves h (record copied { buckets = s; free_slots = put_slot rest slot })
    left-Leaves s unchanged = record {
      valid =
          IsValid-alike h v (put_slot rest slot) new_store s unchanged new_keys t.put_back.0
            t.put_back.1 t.put_back.2;
      all = λ k.
          Holds-Carries h _ k (lookup h k)
            (Carries-alike h v (put_slot rest slot) new_store s unchanged new_keys k
              (λ x f. ap (λ (a : Key). a.pdata) (kept_key x f.in_use)))
            (lookup-Holds h k v);
    }

    -- The entry is written at a free place.
    written-Puts :
        (s : Buckets) (p : ℕ)
        → Placed h.bucket_bitmask (KeyPair copied) (KeySame copied) s p
        → Keeps h.buckets s p
        → ((x : ℕ) → s.flag x ≡ 0)
        → p / 4 ≡ primary_bucket h (hash h key)
        → Puts h key pdata (write_entry (record copied { buckets = s }) p (hash h key) slot)
    unfolding hash
    written-Puts s p placed keeps flags at = record {
      valid =
          write_entry-IsValid copied copied-IsValid key slot copied-IsFresh stored copied-new s p
            placed keeps flags at;
      this =
          subst (λ (x : ℕ). Holds written key (some x)) (ap (λ (k : Key). k.pdata) at_slot)
            (write_entry-Holds copied copied-IsValid key slot copied-IsFresh stored copied-new s p
              placed keeps flags at);
      others = λ k ne.
          Holds-Carries copied _ k (lookup h k)
            (write_entry-Carries copied copied-IsValid key slot copied-IsFresh stored copied-new s p
              placed keeps flags at k ne)
            (Holds-Carries h copied k (lookup h k) (copied-Carries k) (lookup-Holds h k v));
    }
      where
        stored : (new_store slot).key ≡ key
        stored = ap (λ (k : Key). k.key) at_slot

        written : Table
        written = write_entry (record copied { buckets = s }) p (hash h key) slot

    room-Puts :
        (p : ℕ)
        → is_null (h.buckets.entry p) ≡ true
        → p / 4 ≡ primary_bucket h (hash h key)
        → Puts h key pdata (write_entry copied p (hash h key) slot)
    room-Puts p null at =
        written-Puts h.buckets p (copied-IsValid.placed p)
          (record {
            there = λ x n.
                (x, (n, λ e. cc (n, null, ap (λ (y : ℕ). is_null (h.buckets.entry y)) e)), refl);
            back = λ x l. (x, l.0, refl);
          })
          v.no_flags at

    pushed-Adds :
        (r : Option (Buckets × Option ℕ))
        → Ends r
        → Ensures h.bucket_bitmask
            (KeyPair copied)
            (KeySame copied)
            (λ i c a. pair-flip copied i c a)
            h.buckets
            (primary_bucket h (hash h key))
            r
        → Adds h key pdata (add_pushed copied (hash h key) slot r)
    unfolding add_pushed
    pushed-Adds none e m = elim e [ ]
    pushed-Adds (some (s, none)) e m = left-Leaves s m
    pushed-Adds (some (s, some p)) e m =
        written-Puts s p m.placed m.keeps (λ x. m.flags x ∙ v.no_flags x) m.in_bucket

    pub new-Adds :
        (o : Option ℕ)
        → FindsIn (λ p. is_null (h.buckets.entry p)) (primary_bucket h (hash h key)) o
        → Adds h key pdata (add_new copied (hash h key) slot (suc (4 * h.num_buckets)) o)
    unfolding add_new
    new-Adds (some p) f = room-Puts p f.1 f.0
    new-Adds none f = pushed-Adds _ (ended v.bits v.mask v.size) (
        make_space_bucket-Ensures h.bucket_bitmask (KeyPair copied) (KeySame copied)
          (λ i c a. pair-flip copied i c a) _ h.buckets _ copied-IsValid.placed f
          (λ x ne. absurd (ne (v.no_flags x))))
      where
        ended :
            (k : ℕ)
            → h.bucket_bitmask ≡ 2 ^ k - 1
            → h.num_buckets ≡ 2 ^ k
            → Ends (
                make_space_bucket h.bucket_bitmask
                  (suc (4 * h.num_buckets))
                  h.buckets
                  (primary_bucket h (hash h key)))
        ended k m n =
            subst
              (λ (x : ℕ).
                Ends (
                  make_space_bucket x (suc (4 * h.num_buckets)) h.buckets (bit_and (hash h key) x)))
              (sym m)
              (make_space_bucket-Ends k (suc (4 * h.num_buckets)) h.buckets
                (bit_and (hash h key) (2 ^ k - 1)) (masked-lt k (hash h key))
                (omega (arith, n, count_unset-le h.buckets.flag (4 * 2 ^ k))))
