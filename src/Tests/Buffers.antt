-- ===== src/Tests/Buffers.antt =====
-- cppext/circularbuffer.h, transactionalbuffer.h, cycler.cpp, extremer.h and crc16m.cpp at concrete values.
use safely.Prelude.{
  AllBytes, ℕ, ◌*◌, ◌+◌, ◌≡◌, ◌≤◌, refl, arith, true, false, some, List, [], ◌∷◌, get_elem?,
}
use safely.CircularBuffer.{CircularBuffer}
use safely.CircularBuffer.Queue
use safely.CircularBuffer.Queue.{
  Op, push_item, roll_item, take_next, flush_all, Reply, pushed, item, nothing,
}
use safely.CircularBuffer.Holding.{Holds}
use safely.CircularBuffer.Refine.{run, run_refines}
use safely.Extremer.{reset}
use safely.Extremer.Laws.{Beats, inspect_all, inspect_all-extreme}
use safely.Crc16m.{compute, add_byte}
use safely.Crc16m.Table.{divide, compute-divide}
use safely.Indexer.{Indexer}
use safely.TransactionalBuffer
use safely.TransactionalBuffer.Laws.{take_item, report, acts, commit-acts}
use safely.Cycler
use safely.Cycler.{Cycler}
use safely.Cycler.Laws
use safely.Cycler.Laws.{increments, increments-plus, decrement-increment, minus_lem}

abbrev fresh : CircularBuffer ℕ
fresh = record {
  ix = record { pointer = 0; length = 3 };
  buffer = 0 ∷ 0 ∷ 0 ∷ [];
  full = false;
  empty = true;
  writer = 0;
}

fresh-Holds : Holds 3 fresh []
fresh-Holds = record {
  round = refl;
  small = omega arith;
  storage = omega arith;
  pointer_in = omega arith;
  fits = omega arith;
  write_at = refl;
  full_flag = refl;
  empty_flag = refl;
  items = refl;
}

abbrev script : List (Op ℕ)
script =
    push_item 1
    ∷ push_item 2
    ∷ take_next
    ∷ push_item 3
    ∷ push_item 4
    ∷ push_item 5
    ∷ roll_item 6
    ∷ take_next
    ∷ []

run_refines_example :
    run 3 script fresh
    ≡ pushed true
      ∷ pushed true
      ∷ item 1
      ∷ pushed true
      ∷ pushed true
      ∷ pushed false
      ∷ nothing
      ∷ item 3
      ∷ []
unfolding Queue.run
run_refines_example = run_refines 3 script fresh [] fresh-Holds (omega arith)

inspect_all-extreme_example :
    let r = inspect_all true true 0 (5 ∷ 3 ∷ 9 ∷ 3 ∷ []) reset in
    (get_elem? (5 ∷ 3 ∷ 9 ∷ 3 ∷ []) r.location ≡ some r.simple.extremum)
    × ((j w : ℕ) → get_elem? (5 ∷ 3 ∷ 9 ∷ 3 ∷ []) j ≡ some w → Beats true r.simple.extremum w)
    × (true ≡ true
        → (j : ℕ) → get_elem? (5 ∷ 3 ∷ 9 ∷ 3 ∷ []) j ≡ some r.simple.extremum
        → r.location ≤ j)
    × (true ≡ false
        → (j : ℕ) → get_elem? (5 ∷ 3 ∷ 9 ∷ 3 ∷ []) j ≡ some r.simple.extremum
        → j ≤ r.location)
inspect_all-extreme_example = inspect_all-extreme true true 5 (3 ∷ 9 ∷ 3 ∷ [])

-- the check value of the Modbus CRC, 0x4B37, with its bytes exchanged
abbrev digits : List ℕ
digits = b'1' ∷ b'2' ∷ b'3' ∷ b'4' ∷ b'5' ∷ b'6' ∷ b'7' ∷ b'8' ∷ b'9' ∷ []

digits-AllBytes : AllBytes digits
digits-AllBytes = omega arith

compute-divide_example :
    let c = divide digits (record { crc_high = 255; crc_low = 255 }) in
    compute digits ≡ c.crc_low * 256 + c.crc_high
compute-divide_example = compute-divide digits digits-AllBytes

abbrev two_free : Indexer
two_free = record { ord = record { pointer = 3; length = 5 }; buffer = 1 }

-- three items are asked for and two are there
commit-acts_example :
    let (told, t) = TransactionalBuffer.commit (
      acts
        (take_item ∷ take_item ∷ report true ∷ take_item ∷ [])
        (TransactionalBuffer.make two_free)) in
    (told ≡ false) × (t.ix.pointer ≡ 3) × (t.ix.length ≡ 5) × (t.ix.buffer ≡ 1) × (t.failed ≡ false)
commit-acts_example =
    commit-acts (take_item ∷ take_item ∷ report true ∷ take_item ∷ [])
      (record { within = omega arith; small = omega arith })

abbrev of_three : Cycler
of_three = record { length = 3; value = 1 }

of_three-IsValid : Laws.IsValid of_three
of_three-IsValid = record { positive = omega arith; small = omega arith; within = omega arith }

-- two steps back from 1 is 2, but 0 is given
minus_lem_example : Cycler.minus 1 of_three 2 ≡ some 0
minus_lem_example = minus_lem 2 0 of_three of_three-IsValid (omega arith)

compute_check_value : compute digits ≡ 0x374B
unfolding compute add_byte
compute_check_value = refl
