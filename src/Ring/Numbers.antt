-- ===== src/Ring/Numbers.antt =====
-- A ring of bytes, written and read four bytes at a time, is a ring of 32-bit numbers: what
-- tools/cuckoohash.c and tools/cmd_dump.c do with tools/ringbuffer.c.
use pkt_sender.Prelude.{
  ℕ, ◌+◌, ◌*◌, ◌/◌, ◌%◌, ◌≡◌, refl, sym, ap, subst, ◌∙◌, inl, inr, List, [], ◌∷◌, ◌++◌, Option,
  none, some, arith, ltb, length, take, Bool-cases,
}
use pkt_sender.Ring.Defs.{Ring, put, get}
use pkt_sender.Ring.Queue
use pkt_sender.Ring.Valid.{IsValid, contents}
use pkt_sender.Ring.Put.{put_refines}
use pkt_sender.Ring.Get.{get_refines}
use pkt_sender.Ring.Slots.{SlotRing, put_slot, take_slot, get_slot}

-- The four bytes of a number in memory, the lowest first, and the number of four bytes.
abbrev pub bytes_of : ℕ → List ℕ
bytes_of x = (x % 256) ∷ (x / 256 % 256) ∷ (x / 65536 % 256) ∷ (x / 16777216) ∷ []

abbrev pub number_of : List ℕ → ℕ
number_of [] = 0
number_of (b ∷ bs) = b + 256 * number_of bs

pub number_of-bytes_of : (x : ℕ) → number_of (bytes_of x) ≡ x
number_of-bytes_of x = omega arith

abbrev pub encode : List ℕ → List ℕ
encode [] = []
encode (x ∷ xs) = bytes_of x ++ encode xs

encode-append : (xs : List ℕ) (x : ℕ) → encode (xs ++ (x ∷ [])) ≡ encode xs ++ bytes_of x
encode-append [] x = refl
encode-append (y ∷ xs) x = ap (λ (t : List ℕ). bytes_of y ++ t) (encode-append xs x)

length-encode : (xs : List ℕ) → length (encode xs) ≡ 4 * length xs
length-encode [] = omega arith
length-encode (x ∷ xs) = omega (arith, length-encode xs)

-- A ring of bytes that is at rest holds the numbers.
pub record Represents (k : ℕ) (r : Ring) (q : SlotRing) : Type 0 where
  pub valid : IsValid k r
  pub held : contents r ≡ encode q.slots
  pub sized : r.data_size ≡ q.data_size

-- Both sizes are the power of two.
same_size :
    {k : ℕ} {r r' : Ring} {size : ℕ}
    → IsValid k r
    → IsValid k r'
    → r.data_size ≡ size
    → r'.data_size ≡ size
same_size v v' e = v'.is_power ∙ sym v.is_power ∙ e

module _ {k : ℕ} {r : Ring} {q : SlotRing} (w : Represents k r q) (x : ℕ) where
  queue-put :
      (Queue.put r.data_size (contents r) (take 4 (bytes_of x))).1 ≡ encode (put_slot q x).slots
  unfolding Queue.put put_slot
  queue-put =
      rw (w.held, w.sized, length-encode q.slots)
        (elim (Bool-cases (ltb (4 * length q.slots + 4) q.data_size)) [
          | inl e ↦ rw e (sym (encode-append q.slots x))
          | inr e ↦ rw e refl
        ])

  put_slot-size : (put_slot q x).data_size ≡ q.data_size
  unfolding put_slot
  put_slot-size = elim (Bool-cases (ltb (4 * length q.slots + 4) q.data_size)) [
    | inl e ↦ rw e refl
    | inr e ↦ rw e refl
  ]

  -- `ringbuffer_put` of the four bytes of a number returns, and leaves a ring that holds what
  -- `put_slot` gives: the number at the back, or no change where there is no room.
  pub put-Represents :
      (done : ℕ × Ring) × (put r (bytes_of x) 4 ≡ some done) × Represents k done.1 (put_slot q x)
  put-Represents =
      let (done, e, p) = put_refines (bytes_of x) 4 w.valid (omega arith) in
      (
        done,
        e,
        record {
          valid = p.valid;
          held = ap (λ (t : ℕ × List ℕ). t.1) p.refines ∙ queue-put;
          sized = same_size w.valid p.valid w.sized ∙ sym put_slot-size;
        },
      )

-- What `ringbuffer_get` of four bytes gives, where the ring of numbers gives this.
abbrev pub Gives : ℕ → ℕ × List ℕ × Ring → Option (ℕ × SlotRing) → Type 0
Gives k (n, out, r') none = n ≡ 0
Gives k (n, out, r') (some (x, q')) = (n ≡ 4) × (number_of out ≡ x) × Represents k r' q'

module _ {k : ℕ} {r : Ring} (v : IsValid k r) (size : ℕ) (sized : r.data_size ≡ size) where
  taken-Gives :
      (slots : List ℕ) (got : ℕ × List ℕ × Ring)
      → ((got.0, got.1, contents got.2) ≡ Queue.get (encode slots) 4)
      → IsValid k got.2
      → Gives k got (take_slot size slots)
  unfolding Queue.get take_slot
  taken-Gives [] (n, out, r') e v' = ap (λ (t : ℕ × List ℕ × List ℕ). t.0) e ∙ omega arith
  taken-Gives (x ∷ xs) (n, out, r') e v' = (
    ap (λ (t : ℕ × List ℕ × List ℕ). t.0) e ∙ omega arith,
    ap (λ (t : ℕ × List ℕ × List ℕ). number_of t.1) e ∙ number_of-bytes_of x,
    record {
      valid = v';
      held = ap (λ (t : ℕ × List ℕ × List ℕ). t.2) e;
      sized = same_size v v' sized;
    },
  )

-- `ringbuffer_get` of four bytes from a ring that holds numbers gives the oldest number and
-- leaves the others, as `get_slot` does, or gives no byte where there is none.
pub get-Represents :
    {k : ℕ} {r : Ring} {q : SlotRing} → Represents k r q → Gives k (get r 4) (get_slot q)
unfolding get_slot
get-Represents {k} {r} {q} w =
    let (e, v') = get_refines 4 w.valid in
    taken-Gives w.valid q.data_size w.sized q.slots (get r 4)
      (subst (λ (c : List ℕ). ((get r 4).0, (get r 4).1, contents (get r 4).2) ≡ Queue.get c 4)
        w.held e)
      v'
