-- ===== src/Allocator.antt =====
-- include/util/allocator.hpp: the slab allocator. A pointer into the slab is the number of its slot,
-- and `nullptr` is `none`; `mmap`, `madvise` and `mlock` are the system's.
pub mod FreeList
mod Tests
use options_engine.Prelude.{ℕ, zero, suc, ◌+◌, ◌-◌, Option, none, some}
use options_engine.Prelude.Words.{add64, sub64}
use options_engine.Prelude.Arrays.{Array, update}

pub record Pool : Type 0 where
  pub next : Array (Option ℕ)
  pub free_head : Option ℕ
  pub total : ℕ
  pub allocated : ℕ

-- `for (i = MaxObjects; i-- > 0;)`: slot `i` before the slots below it.
unfoldable pub thread_slots : ℕ → Pool → Pool
thread_slots zero p = p
thread_slots (suc i) p =
    thread_slots i (record p { next = update p.next i p.free_head; free_head = some i })

unfoldable pub construct : ℕ → Array (Option ℕ) → Pool
unfolding thread_slots
construct max_objects raw =
    thread_slots max_objects
      (record { next = raw; free_head = none; total = max_objects; allocated = 0 })

unfoldable pub allocate : Pool → Pool × Option ℕ
allocate p = elim p.free_head [
  | none ↦ (p, none)
  | some i ↦ (record p { free_head = p.next i; allocated = add64 p.allocated 1 }, some i)
]

unfoldable pub deallocate : Pool → ℕ → Pool
deallocate p i = record p {
  next = update p.next i p.free_head;
  free_head = some i;
  allocated = sub64 p.allocated 1;
}

unfoldable pub available : Pool → ℕ
available p = sub64 p.total p.allocated
