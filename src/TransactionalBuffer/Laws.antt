-- ===== src/TransactionalBuffer/Laws.antt =====
-- cppext/transactionalbuffer.h: a transaction takes all of its items or none.
use safely.Prelude.{
  ℕ, suc, ◌+◌, ◌≤◌, ◌≡◌, refl, arith, Bool, true, false, not, List, [], ◌∷◌, leb, if◌then◌else◌,
  min,
}
use safely.Ordinator.Laws.{IsValid}
use safely.Indexer.{Indexer}
use safely.TransactionalBuffer.{TransactionalBuffer, make, next, commit, set_failed, and_assign}

-- what a user does between the constructor and the destructor
pub data Act : Type 0 where
  take_item : Act
  report : Bool → Act
  fail : Act

abbrev act : Act → TransactionalBuffer → TransactionalBuffer
act take_item t = (next t).1
act (report ok) t = (and_assign ok t).1
act fail t = set_failed t

pub acts : List Act → TransactionalBuffer → TransactionalBuffer
acts [] t = t
acts (a ∷ todo) t = acts todo (act a t)

-- the items that a series asks for, and whether nothing in it reports a failure
abbrev wanted : List Act → ℕ
wanted [] = 0
wanted (take_item ∷ todo) = suc (wanted todo)
wanted (report ok ∷ todo) = wanted todo
wanted (fail ∷ todo) = wanted todo

abbrev all_good : List Act → Bool
all_good [] = true
all_good (take_item ∷ todo) = all_good todo
all_good (report ok ∷ todo) = if ok then all_good todo else false
all_good (fail ∷ todo) = false

-- the buffer after some acts, by where it began
record Follows (start : Indexer) (count : ℕ) (good : Bool) (t : TransactionalBuffer) : Type 0 where
  pub same_buffer : t.ix.buffer ≡ start.buffer
  pub same_length : t.ix.length ≡ start.length
  pub pointer_at : t.ix.pointer ≡ min (start.pointer + count) start.length
  pub start_at : t.at_start ≡ start.pointer
  pub flag : t.failed ≡ not (if good then leb (start.pointer + count) start.length else false)

acts-Follows :
    (todo : List Act) (start : Indexer) (count : ℕ) (good : Bool) (t : TransactionalBuffer)
    → start.pointer ≤ start.length
    → Follows start count good t
    → Follows start (count + wanted todo) (if good then all_good todo else false) (acts todo t)
unfolding acts next and_assign set_failed
acts-Follows [] start count good t h f = record {
  same_buffer = f.same_buffer;
  same_length = f.same_length;
  pointer_at = ground (arith, f);
  start_at = f.start_at;
  flag = ground (arith, f);
}
acts-Follows (take_item ∷ todo) start count good t h f =
    let g : Follows start (count + 1) good (next t).1 = record {
      same_buffer = ground (arith, f);
      same_length = ground (arith, f);
      pointer_at = ground (arith, f);
      start_at = f.start_at;
      flag = ground (arith, f);
    } in
    let r = acts-Follows todo start (count + 1) good (next t).1 h g in
    record {
      same_buffer = r.same_buffer;
      same_length = r.same_length;
      pointer_at = ground (arith, r);
      start_at = r.start_at;
      flag = ground (arith, r);
    }
acts-Follows (report ok ∷ todo) start count good t h f =
    let g : Follows start count (if ok then good else false) (and_assign ok t).1 = record {
      same_buffer = ground (arith, f);
      same_length = ground (arith, f);
      pointer_at = ground (arith, f);
      start_at = ground (arith, f);
      flag = ground (arith, f);
    } in
    let r = acts-Follows todo start count (if ok then good else false) (and_assign ok t).1 h g in
    record {
      same_buffer = r.same_buffer;
      same_length = r.same_length;
      pointer_at = r.pointer_at;
      start_at = r.start_at;
      flag = ground (arith, r);
    }
acts-Follows (fail ∷ todo) start count good t h f =
    let g : Follows start count false (set_failed t) = record {
      same_buffer = f.same_buffer;
      same_length = f.same_length;
      pointer_at = f.pointer_at;
      start_at = f.start_at;
      flag = refl;
    } in
    let r = acts-Follows todo start count false (set_failed t) h g in
    record {
      same_buffer = r.same_buffer;
      same_length = r.same_length;
      pointer_at = r.pointer_at;
      start_at = r.start_at;
      flag = ground (arith, r);
    }

-- Over an indexer whose pointer is not past its length, committing a transaction reports whether all
-- items that it asked for were there and nothing reported a failure. If so the pointer is past those
-- items; if not it is where it began, and nothing has failed any more.
pub commit-acts :
    (todo : List Act) {start : Indexer}
    → IsValid start.ord
    → let good = if all_good todo then leb (start.pointer + wanted todo) start.length else false in
      let (told, t) = commit (acts todo (make start)) in
      (told ≡ good)
      × (t.ix.pointer ≡ (if good then start.pointer + wanted todo else start.pointer))
      × (t.ix.length ≡ start.length)
      × (t.ix.buffer ≡ start.buffer)
      × (t.failed ≡ false)
unfolding commit make
commit-acts todo {start} v =
    let f : Follows start 0 true (make start) = record {
      same_buffer = refl;
      same_length = refl;
      pointer_at = omega (arith, v);
      start_at = refl;
      flag = ground (arith, v);
    } in
    let r = acts-Follows todo start 0 true (make start) v.within f in
    (
      ground (arith, r),
      ground (arith, r, v),
      ground (arith, r),
      ground (arith, r),
      ground (arith, r),
    )

-- A buffer that nothing was done to commits.
pub commit-make : (p : Indexer) → (commit (make p)).0 ≡ true
unfolding commit make
commit-make p = refl
