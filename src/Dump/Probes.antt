-- ===== src/Dump/Probes.antt =====
-- A file of records by the probes that they are about: the port that sent a probe, and its number.
use pkt_sender.Prelude.{
  ℕ, ◌/◌, ◌%◌, ◌^◌, ◌≡◌, refl, sym, ap, ◌∙◌, inl, inr, Bool, true, false, ◌&&◌, List, [], ◌∷◌, ◌++◌,
  Option, some, arith, if◌then◌else◌, ◌==◌, Bool-cases, length, take, drop,
}
use pkt_sender.Ring.Numbers.{bytes_of, number_of}
use pkt_sender.Tracer.Defs.{RecordFmt}
use pkt_sender.Cuckoo.Defs.{same_key}
use pkt_sender.Cuckoo.Valid.{same_key-equal, same_key_refl}
use pkt_sender.Dump.Defs.{Traces, trace_id, Read, read_record}
use pkt_sender.Dump.Records.{Trace, recorded, view, IsConsistent}
use pkt_sender.Dump.Output.{AreInside, view_after, read_record-ReadsAll}

-- The bytes of a probe as a key: the port, the padding, and the number of 64 bits.
abbrev pub key_of : List ℕ → ℕ → ℕ → List ℕ
key_of pad port idx = bytes_of port ++ (pad ++ (bytes_of (idx % 2 ^ 32) ++ bytes_of (idx / 2 ^ 32)))

trace_id-key_of :
    (pad : List ℕ) (r : RecordFmt) → trace_id pad r ≡ key_of pad r.probe_sender r.probe_idx
unfolding trace_id
trace_id-key_of pad r = refl

-- A key gives the port and the number back.
port_in : (pad : List ℕ) (port idx : ℕ) → number_of (take 4 (key_of pad port idx)) ≡ port
port_in pad port idx = omega arith

drop_all : (xs ys : List ℕ) → drop (length xs) (xs ++ ys) ≡ ys
drop_all [] ys = refl
drop_all (x ∷ xs) ys = drop_all xs ys

idx_in :
    (pad : List ℕ) (port idx : ℕ)
    → number_of (drop (length pad) (drop 4 (key_of pad port idx))) ≡ idx
idx_in pad port idx =
    ap number_of (drop_all pad (bytes_of (idx % 2 ^ 32) ++ bytes_of (idx / 2 ^ 32))) ∙ omega arith

same_probe :
    (pad : List ℕ) (port idx port' idx' : ℕ)
    → same_key (key_of pad port idx) (key_of pad port' idx') ≡ (port == port') && (idx == idx')
same_probe pad port idx port' idx' =
    elim (Bool-cases (same_key (key_of pad port idx) (key_of pad port' idx'))) [
      | inl e ↦
          let same = same_key-equal (key_of pad port idx) (key_of pad port' idx') e in
          let ports : port ≡ port' =
            sym (port_in pad port idx)
            ∙ ap (λ (k : List ℕ). number_of (take 4 k)) same
            ∙ port_in pad port' idx' in
          let idxs : idx ≡ idx' =
            sym (idx_in pad port idx)
            ∙ ap (λ (k : List ℕ). number_of (drop (length pad) (drop 4 k))) same
            ∙ idx_in pad port' idx' in
          e ∙ both port port' idx idx' ports idxs
      | inr e ↦
          e
          ∙ sym (
              differ port port' idx idx'
                (λ p q. (let w = rw (p, q) at e in cc (same_key_refl (key_of pad port' idx'), w))))
    ]
  where
    both : (a b c d : ℕ) → a ≡ b → c ≡ d → true ≡ (a == b) && (c == d)
    both a b c d p q = ground arith

    differ : (a b c d : ℕ) → (a ≡ b → c ≡ d → ⊥) → (a == b) && (c == d) ≡ false
    differ a b c d h = ground arith

-- What is known of one probe after the records, of which some are kept: each that is kept and is
-- about the probe is added, at its location.
abbrev pub known_after : ℕ → ℕ → Option Trace → List Read → List Bool → Option Trace
known_after port idx o ((pad, r) ∷ records) (ok ∷ oks) =
    known_after port idx
      (if ok && ((r.probe_sender == port) && (r.probe_idx == idx)) then some (recorded r o) else o)
      records oks
known_after port idx o [] oks = o
known_after port idx o (r ∷ records) [] = o

-- All keys take the same bytes over from the stack.
abbrev pub HavePad : List ℕ → List Read → Type 0
HavePad pad [] = Unit
HavePad pad ((pad', r) ∷ records) = (pad' ≡ pad) × HavePad pad records

module _ (pad : List ℕ) (port idx : ℕ) where
  one_more :
      (r : RecordFmt) (ok : Bool) (f : List ℕ → Option Trace)
      → (if ok && same_key (trace_id pad r) (key_of pad port idx)
          then some (recorded r (f (trace_id pad r)))
          else f (key_of pad port idx))
        ≡ (if ok && ((r.probe_sender == port) && (r.probe_idx == idx))
            then some (recorded r (f (key_of pad port idx)))
            else f (key_of pad port idx))
  one_more r ok f =
      rw (trace_id-key_of pad r, same_probe pad r.probe_sender r.probe_idx port idx)
        (elim (Bool-cases ((r.probe_sender == port) && (r.probe_idx == idx))) [
          | inl e ↦
              let p : r.probe_sender ≡ port = ground arith in
              let q : r.probe_idx ≡ idx = ground arith in rw (p, q) refl
          | inr e ↦ rw e (no_step ok)
        ])
    where
      no_step :
          (b : Bool)
          → (if b && false
              then some (recorded r (f (key_of pad r.probe_sender r.probe_idx)))
              else f (key_of pad port idx))
            ≡ (if b && false
                then some (recorded r (f (key_of pad port idx)))
                else f (key_of pad port idx))
      no_step true = refl
      no_step false = refl

  view_after-known_after :
      (records : List Read) (oks : List Bool) (f : List ℕ → Option Trace)
      → HavePad pad records
      → view_after f records oks (key_of pad port idx)
        ≡ known_after port idx (f (key_of pad port idx)) records oks
  view_after-known_after [] oks f h = refl
  view_after-known_after (r ∷ records) [] f h = refl
  view_after-known_after ((pad', r) ∷ records) (ok ∷ oks) f h = rw h.0 (
      view_after-known_after records oks _ h.1
      ∙ ap (λ (o : Option Trace). known_after port idx o records oks) (one_more r ok f))

-- What a file leaves for a probe.
abbrev pub ReadAll : List ℕ → ℕ → ℕ → Traces → List Read → Option (Traces × List Bool) → Type 0
ReadAll pad port idx s records result =
    (s' : Traces) × (oks : List Bool) × (result ≡ some (s', oks))
    × IsConsistent s'
    × (view s' (key_of pad port idx)
        ≡ known_after port idx (view s (key_of pad port idx)) records oks)

-- From a consistent state, for records whose locations are below 16 and whose keys take the same
-- bytes over from the stack: the reading of a file ends and leaves a consistent state, and for
-- each probe, by its port and its number, what is known of it is what was known with the records
-- that are about it and are not refused added in turn, each at its location.
pub read_record_lem :
    (pad : List ℕ) (port idx : ℕ) (s : Traces) (records : List Read)
    → IsConsistent s
    → AreInside records
    → HavePad pad records
    → ReadAll pad port idx s records (read_record s records)
read_record_lem pad port idx s records v inside same =
    let (s', oks, e, v', law) = read_record-ReadsAll s records v inside in
    (
      s',
      oks,
      e,
      v',
      law (key_of pad port idx) ∙ view_after-known_after pad port idx records oks (view s) same,
    )
