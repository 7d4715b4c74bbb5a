-- ===== src/Cuckoo/Holds.antt =====
-- What a table of tools/cuckoohash.c holds, which is what `cuckoohash_lookup_data` answers.
use pkt_sender.Prelude.{ℕ, ◌≡◌, refl, sym, ap, ◌∙◌, List, Option, none, some}
use pkt_sender.Cuckoo.Defs.{Table, hash}
use pkt_sender.Cuckoo.Table.{find_lookup, find_add, find_del, read_entry, lookup_data}
use pkt_sender.Cuckoo.Search.{Found}
use pkt_sender.Cuckoo.Valid.{IsValid, IsFor}
use pkt_sender.Cuckoo.Lookup.{IsFor-unique, find_lookup-Found, find_add-Found, find_del-Found}

-- What a table holds for a key: the pointer of its entry, or none.
abbrev pub Holds : Table → List ℕ → Option ℕ → Type 0
Holds h key none = (p : ℕ) → ¬ IsFor h key p
Holds h key (some x) =
    (p : ℕ) × IsFor h key p × ((h.key_store (h.buckets.entry p).key_idx).pdata ≡ x)

abbrev pub lookup : Table → List ℕ → Option ℕ
lookup h key = (lookup_data h key).1

read_entry-Holds :
    (h : Table) (key : List ℕ) (o : Option ℕ)
    → Found (IsFor h key) o
    → Holds h key (read_entry h o).1
unfolding read_entry
read_entry-Holds h key none f = f
read_entry-Holds h key (some p) f = (p, f, refl)

Holds-unique :
    (h : Table) (key : List ℕ) (a b : Option ℕ) → IsValid h → Holds h key a → Holds h key b → a ≡ b
Holds-unique h key none none v f g = refl
Holds-unique h key none (some y) v f g = absurd (f g.0 g.1)
Holds-unique h key (some x) none v f g = absurd (g f.0 f.1)
Holds-unique h key (some x) (some y) v f g = ap some (
    sym f.2
    ∙ ap (λ (p : ℕ). (h.key_store (h.buckets.entry p).key_idx).pdata)
        (IsFor-unique h key v f.0 g.0 f.1 g.1)
    ∙ g.2)

pub lookup-Holds : (h : Table) (key : List ℕ) → IsValid h → Holds h key (lookup h key)
unfolding lookup_data
lookup-Holds h key v =
    read_entry-Holds h key (find_lookup h key (hash h key)) (find_lookup-Found h key v)

-- A lookup answers what the table holds.
pub Holds-lookup :
    (h : Table) (key : List ℕ) (o : Option ℕ) → IsValid h → Holds h key o → lookup h key ≡ o
Holds-lookup h key o v f = Holds-unique h key (lookup h key) o v (lookup-Holds h key v) f

Found-unique :
    (h : Table) (key : List ℕ) (a b : Option ℕ)
    → IsValid h
    → Found (IsFor h key) a
    → Found (IsFor h key) b
    → a ≡ b
Found-unique h key none none v f g = refl
Found-unique h key none (some q) v f g = absurd (f q g)
Found-unique h key (some p) none v f g = absurd (g p f)
Found-unique h key (some p) (some q) v f g = ap some (IsFor-unique h key v p q f g)

-- In a valid table the loops of lookup, add and delete, whose tests differ, find the same entry.
pub find_lookup-same :
    (h : Table) (key : List ℕ)
    → IsValid h
    → (find_lookup h key (hash h key) ≡ find_add h key (hash h key))
      × (find_lookup h key (hash h key) ≡ find_del h key (hash h key))
find_lookup-same h key v = (
  Found-unique h key _ _ v (find_lookup-Found h key v) (find_add-Found h key v),
  Found-unique h key _ _ v (find_lookup-Found h key v) (find_del-Found h key v),
)

-- The entries of two tables for one key: where either has one, so has the other, and the pointer
-- is the same.
pub record Carries (h h' : Table) (k : List ℕ) : Type 0 where
  pub forth :
      (x : ℕ)
      → IsFor h k x
      → (y : ℕ) × IsFor h' k y
        × ((h'.key_store (h'.buckets.entry y).key_idx).pdata
            ≡ (h.key_store (h.buckets.entry x).key_idx).pdata)
  pub back : (y : ℕ) → IsFor h' k y → (x : ℕ) × IsFor h k x

pub Holds-Carries :
    (h h' : Table) (k : List ℕ) (o : Option ℕ) → Carries h h' k → Holds h k o → Holds h' k o
Holds-Carries h h' k none c f = λ y g. let (x, f') = c.back y g in f x f'
Holds-Carries h h' k (some d) c (x, f, e) = let (y, g, e') = c.forth x f in (y, g, e' ∙ e)
