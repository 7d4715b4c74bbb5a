-- ===== src/Ring/Tests.antt =====
-- The ring at concrete inputs.
use pkt_sender.Prelude.{ℕ, true, ◌≡◌, refl, [], ◌∷◌, some, arith, replicate}
use pkt_sender.Prelude.Arrays.{blit}
use pkt_sender.Prelude.Words.{add32, sub32}
use pkt_sender.Ring.Create.{
  System, create, create_sized, round_size, fresh, Created, Releases, create-IsValid,
  create-Releases,
}
use pkt_sender.Ring.Defs.{
  Ring, is_power_of_2, roundup_2, smear, umin, get_rest_size, reserve, copy_in, publish, put, get,
}
use pkt_sender.Ring.Queue
use pkt_sender.Ring.Window.{window}
use pkt_sender.Ring.Valid.{IsValid, contents}
use pkt_sender.Ring.Put.{Put, put_refines}
use pkt_sender.Ring.Get.{get_refines}
use pkt_sender.Ring.Slots.{SlotRing}
use pkt_sender.Ring.Numbers.{Represents}

-- 7 and 8 round the end of eight bytes.
abbrev wrapped : Ring
wrapped = record {
  is_mmap = 0;
  size = 32;
  data_size = 8;
  read_pos = 7;
  write_pos = 1;
  finish_pos = 1;
  bytes = 8 ∷ 0 ∷ 0 ∷ 0 ∷ 0 ∷ 0 ∷ 0 ∷ 7 ∷ [];
}

wrapped-IsValid : IsValid 3 wrapped
wrapped-IsValid = omega arith

roundup_2_16385 : roundup_2 16385 ≡ 32768
unfolding roundup_2 smear sub32 add32
roundup_2_16385 = refl

put_three :
    put wrapped (1 ∷ 2 ∷ 3 ∷ []) 3
    ≡ some (
      3,
      record wrapped { write_pos = 4; finish_pos = 4; bytes = 8 ∷ 1 ∷ 2 ∷ 3 ∷ 0 ∷ 0 ∷ 0 ∷ 7 ∷ [] },
    )
unfolding put reserve copy_in publish get_rest_size umin blit add32 sub32
put_three = refl

-- Eight bytes of data area hold seven.
put_six_more : put wrapped (replicate 6 0) 6 ≡ some (0, wrapped)
unfolding put reserve get_rest_size add32 sub32
put_six_more = refl

put_refines_example :
    (done : ℕ × Ring) × (put wrapped (1 ∷ 2 ∷ 3 ∷ []) 3 ≡ some done)
    × Put 3 wrapped (1 ∷ 2 ∷ 3 ∷ []) done
put_refines_example = put_refines (1 ∷ 2 ∷ 3 ∷ []) 3 wrapped-IsValid (omega arith)

get_refines_example :
    let (n, out, r') = get wrapped 5 in
    ((n, out, contents r') ≡ Queue.get (7 ∷ 8 ∷ []) 5) × IsValid 3 r'
unfolding window
get_refines_example = get_refines 5 wrapped-IsValid

-- A system that grants everything.
abbrev willing : System
willing = record { open_ok = true; truncate_ok = λ n. true; map_ok = λ n. true; shared = wrapped }

create_five : (create willing true 5).0 ≡ some (fresh 32 8)
unfolding create create_sized round_size is_power_of_2 roundup_2 smear sub32 add32
create_five = refl

create-IsValid_example : Created willing 3 (fresh 32 8)
create-IsValid_example =
    create-IsValid willing true 3 5 (omega arith) (omega arith) (omega arith) create_five

create-Releases_example : Releases willing true (create willing true 5)
create-Releases_example = create-Releases willing true 5

-- The four bytes of 513, round the end of sixteen.
abbrev numbered : Ring
numbered = record {
  is_mmap = 0;
  size = 40;
  data_size = 16;
  read_pos = 14;
  write_pos = 2;
  finish_pos = 2;
  bytes = 0 ∷ 0 ∷ 0 ∷ 0 ∷ 0 ∷ 0 ∷ 0 ∷ 0 ∷ 0 ∷ 0 ∷ 0 ∷ 0 ∷ 0 ∷ 0 ∷ 1 ∷ 2 ∷ [];
}

abbrev slot_513 : SlotRing
slot_513 = record { data_size = 16; slots = 513 ∷ [] }

numbered-Represents : Represents 4 numbered slot_513
unfolding window
numbered-Represents = record { valid = omega arith; held = refl; sized = refl }
