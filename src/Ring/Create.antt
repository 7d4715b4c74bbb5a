-- ===== src/Ring/Create.antt =====
-- `ringbuffer_create`, `ringbuffer_open` and `ringbuffer_destroy`: the system calls that they make,
-- and the ring that they give.
use pkt_sender.Prelude.{
  ℕ, zero, suc, ◌+◌, ◌*◌, ◌^◌, ◌≤◌, ◌<◌, ◌≡◌, refl, Bool, true, false, ◌&&◌, ◌||◌, subst, List, [],
  ◌∷◌, Option, none, some, arith, if◌then◌else◌, replicate, length-replicate, dec_lt, Bool-cases,
  inl, inr,
}
use mathlib.Core.Option.{some-injective}
use native.Mathlib.Nat.{pow-le-pow_right, pow-suc, one-le-pow}
use pkt_sender.Prelude.Words.{add32}
use pkt_sender.Ring.Defs.{Ring, header_size, is_power_of_2, roundup_2}
use pkt_sender.Ring.Round.{roundup_2-eq-pow, is_power_of_2-pow, is_power_of_2-between}
use pkt_sender.Ring.Valid.{IsValid, contents}
use pkt_sender.Ring.Window.{window}

-- The calls to the system, in the order in which they are made.
pub data Call : Type 0 where
  opens closes removes : Call
  truncates maps unmaps : ℕ → Call

-- What the system answers: whether a file opens, and whether a length is granted. A mapping that
-- it grants is filled with zeros, unless a file that exists is mapped, which reads as `shared`.
pub record System : Type 0 where
  pub open_ok : Bool
  pub truncate_ok : ℕ → Bool
  pub map_ok : ℕ → Bool
  pub shared : Ring

-- The size of the data area that `size` asks for.
unfoldable pub round_size : ℕ → ℕ
round_size size = if is_power_of_2 size then size else roundup_2 size

-- The header as `ringbuffer_create` fills it in.
unfoldable pub fresh : ℕ → ℕ → Ring
fresh real_size size = record {
  is_mmap = 0;
  size = real_size;
  data_size = size;
  read_pos = 0;
  write_pos = 0;
  finish_pos = 0;
  bytes = replicate size 0;
}

-- `ringbuffer_create` once `size` is a power of two, with a file or without.
unfoldable pub create_sized : System → Bool → ℕ → ℕ → Option Ring × List Call
create_sized sys true size real_size =
    if sys.open_ok
    then if sys.truncate_ok real_size
      then if sys.map_ok real_size
        then (
          some (fresh real_size size),
          opens ∷ truncates real_size ∷ maps real_size ∷ closes ∷ [],
        )
        else (none, opens ∷ truncates real_size ∷ maps real_size ∷ closes ∷ removes ∷ [])
      else (none, opens ∷ truncates real_size ∷ closes ∷ removes ∷ [])
    else (none, opens ∷ [])
create_sized sys false size real_size =
    if sys.map_ok real_size
    then (some (fresh real_size size), maps real_size ∷ [])
    else (none, maps real_size ∷ [])

-- `ringbuffer_create`, with a file or without. `real_size` is an `int`, shown by its 32 bits.
unfoldable pub create : System → Bool → ℕ → Option Ring × List Call
create sys named size =
    let size' = round_size size in create_sized sys named size' (add32 size' header_size)

-- `ringbuffer_open`; the file may be NULL.
unfoldable pub open_ring : System → Bool → ℕ → Option Ring × List Call
open_ring sys false size = (none, [])
open_ring sys true size =
    let real_size = add32 (roundup_2 size) header_size in
    if sys.open_ok
    then if sys.map_ok real_size
      then (some sys.shared, opens ∷ maps real_size ∷ closes ∷ [])
      else (none, opens ∷ maps real_size ∷ closes ∷ [])
    else (none, opens ∷ [])

-- `ringbuffer_destroy`; the ring may be NULL.
unfoldable pub destroy : Option Ring → List Call
destroy none = []
destroy (some r) = unmaps r.size ∷ []

-- A size above 2 ^ (k - 1) and up to 2 ^ k is rounded to 2 ^ k, a power of two included.
pub round_size-eq-pow : (k n : ℕ) → k ≤ 31 → n ≤ 2 ^ k → 2 ^ k < 2 * n → round_size n ≡ 2 ^ k
unfolding round_size
round_size-eq-pow k n small le lt = elim (dec_lt n (2 ^ k)) [
  | no top ↦ at_power (omega arith)
  | yes below ↦ between k small lt below
]
  where
    at_power : n ≡ 2 ^ k → (if is_power_of_2 n then n else roundup_2 n) ≡ 2 ^ k
    at_power e = rw (e, is_power_of_2-pow k small) refl

    between :
        (j : ℕ)
        → j ≤ 31
        → 2 ^ j < 2 * n
        → n < 2 ^ j
        → (if is_power_of_2 n then n else roundup_2 n) ≡ 2 ^ j
    between zero _ a b = absurd (omega arith)
    between (suc j) hj a b =
        rw (is_power_of_2-between j n (omega arith) (omega (arith, pow-suc 2 j)) b)
          (roundup_2-eq-pow (suc j) n hj (omega arith) a)

fresh-IsValid : (k : ℕ) → k ≤ 31 → IsValid k (fresh (2 ^ k + header_size) (2 ^ k))
unfolding fresh
fresh-IsValid k small = record {
  is_power = refl;
  small = small;
  full = length-replicate (2 ^ k) 0;
  read_in = one-le-pow k 2 (omega arith);
  write_in = one-le-pow k 2 (omega arith);
  quiet = refl;
}

contents-fresh : (a b : ℕ) → contents (fresh a b) ≡ []
unfolding fresh window
contents-fresh a b = refl

-- What `ringbuffer_create` gives where every size fits an `int`.
abbrev pub Created : System → ℕ → Ring → Type 0
Created sys k r =
    IsValid k r × (contents r ≡ []) × (r.size ≡ 2 ^ k + header_size) × (sys.map_ok r.size ≡ true)

fresh-Created :
    (sys : System) (k : ℕ)
    → k ≤ 30
    → sys.map_ok (2 ^ k + header_size) ≡ true
    → Created sys k (fresh (2 ^ k + header_size) (2 ^ k))
fresh-Created sys k small ok =
    (fresh-IsValid k (omega arith), contents-fresh _ _, unfold fresh in refl, unfold fresh in ok)

real_size-eq : (k : ℕ) → k ≤ 30 → add32 (2 ^ k) header_size ≡ 2 ^ k + header_size
real_size-eq k small = unfold add32 in omega (arith, pow-le-pow_right {n = 2} (omega arith) small)

if-some :
    (b : Bool) {r : Ring} (p : Option Ring × List Call) (calls : List Call)
    → (if b then p else (none, calls)).0 ≡ some r
    → (b ≡ true) × (p.0 ≡ some r)
if-some true p calls e = (refl, e)
if-some false p calls e = cc

create_sized-fresh :
    (sys : System) (named : Bool) (size real_size : ℕ) {r : Ring}
    → (create_sized sys named size real_size).0 ≡ some r
    → (sys.map_ok real_size ≡ true) × (some (fresh real_size size) ≡ some r)
unfolding create_sized
create_sized-fresh sys true size real_size e =
    let (_, opened) = if-some sys.open_ok _ _ e in
    let (_, truncated) = if-some (sys.truncate_ok real_size) _ _ opened in
    if-some (sys.map_ok real_size) _ _ truncated
create_sized-fresh sys false size real_size e = if-some (sys.map_ok real_size) _ _ e

-- For `n` bytes with 2 ^ k the least power of two not below `n`, and k up to 30, a ring that
-- `ringbuffer_create` gives is valid with 2 ^ k bytes of data, empty, and its `size` is 2 ^ k and
-- the header, which the system granted as a mapping.
pub create-IsValid :
    (sys : System) (named : Bool) (k n : ℕ) {r : Ring}
    → k ≤ 30
    → n ≤ 2 ^ k
    → 2 ^ k < 2 * n
    → (create sys named n).0 ≡ some r
    → Created sys k r
unfolding create
create-IsValid sys named k n {r} small le lt e =
    let sized : (create_sized sys named (2 ^ k) (2 ^ k + header_size)).0 ≡ some r =
      rw (round_size-eq-pow k n (omega arith) le lt, real_size-eq k small) at e in
    let (mapped, is) = create_sized-fresh sys named _ _ sized in
    subst (Created sys k) (some-injective _ _ is) (fresh-Created sys k small mapped)

abbrev pub is_closes : Call → Bool
is_closes closes = true
is_closes _ = false

abbrev pub is_removes : Call → Bool
is_removes removes = true
is_removes _ = false

abbrev pub any_call : (Call → Bool) → List Call → Bool
any_call p [] = false
any_call p (c ∷ cs) = p c || any_call p cs

abbrev pub is_none : Option Ring → Bool
is_none none = true
is_none (some _) = false

abbrev pub Releases : System → Bool → Option Ring × List Call → Type 0
Releases sys named (ring, calls) =
    (any_call is_closes calls ≡ (named && sys.open_ok))
    × (any_call is_removes calls ≡ ((named && sys.open_ok) && is_none ring))

create_sized-Releases :
    (sys : System) (named : Bool) (size real_size : ℕ)
    → Releases sys named (create_sized sys named size real_size)
unfolding create_sized
create_sized-Releases sys true size real_size = elim (Bool-cases sys.open_ok) [
  | inr e ↦ rw e (refl, refl)
  | inl e ↦ rw e (elim (Bool-cases (sys.truncate_ok real_size)) [
    | inr f ↦ rw f (refl, refl)
    | inl f ↦ rw f (elim (Bool-cases (sys.map_ok real_size)) [
      | inr g ↦ rw g (refl, refl)
      | inl g ↦ rw g (refl, refl)
    ])
  ])
]
create_sized-Releases sys false size real_size = elim (Bool-cases (sys.map_ok real_size)) [
  | inr g ↦ rw g (refl, refl)
  | inl g ↦ rw g (refl, refl)
]

-- `ringbuffer_create` closes the file on exactly the paths on which it was opened, and removes it
-- exactly where it was opened and no ring is given.
pub create-Releases :
    (sys : System) (named : Bool) (n : ℕ) → Releases sys named (create sys named n)
unfolding create
create-Releases sys named n = create_sized-Releases sys named _ _
