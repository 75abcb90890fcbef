-- ===== src/TransactionalBuffer.antt =====
-- cppext/transactionalbuffer.h: `TransactionalBuffer`, an `Indexer` that takes its pointer back where
-- something failed. It copies the `Indexer` that it is made from.
pub mod Laws
use safely.Prelude.{ℕ, Bool, true, false, not, ◌||◌, Option, if◌then◌else◌, sub_u32}
use safely.Ordinator
use safely.Indexer
use safely.Indexer.{Indexer, nothing}

pub record TransactionalBuffer : Type 0 where
  pub ix : Indexer
  pub failed : Bool
  pub at_start : ℕ

-- the constructor from an `Indexer`, with `onConstruction`
pub make : Indexer → TransactionalBuffer
make p = record { ix = p; failed = false; at_start = p.pointer }

-- the copy constructor, which makes an empty `Indexer`
unfoldable copied : TransactionalBuffer → TransactionalBuffer
unfolding make
copied other = make nothing

unfoldable do_roll_back : TransactionalBuffer → TransactionalBuffer
unfolding Ordinator.rewind
do_roll_back t = record t {
  ix = record (t.ix) { ord = Ordinator.rewind (sub_u32 t.ix.pointer t.at_start) t.ix.ord };
}

-- `operator bool`, and `willRollback` its opposite
unfoldable is_good : TransactionalBuffer → Bool
is_good t = not t.failed

unfoldable rollback : TransactionalBuffer → TransactionalBuffer
unfolding do_roll_back
rollback t = record (do_roll_back t) { failed = false }

-- `commit`, which the destructor calls
pub commit : TransactionalBuffer → Bool × TransactionalBuffer
unfolding rollback
commit t = if t.failed then (false, rollback t) else (true, t)

unfoldable set_failed : TransactionalBuffer → TransactionalBuffer
set_failed t = record t { failed = true }

-- `operator &=`
unfoldable and_assign : Bool → TransactionalBuffer → Bool × TransactionalBuffer
and_assign ok t = let t' = if ok then t else record t { failed = true } in (not t'.failed, t')

-- `next`: the reference and the buffer
unfoldable next : TransactionalBuffer → Option ℕ × TransactionalBuffer
unfolding Indexer.next Indexer.has_next
next t =
    let (reference, ix') = Indexer.next t.ix in
    (reference, record t { ix = ix'; failed = t.failed || not (Indexer.has_next t.ix) })
