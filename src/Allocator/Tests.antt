-- ===== src/Allocator/Tests.antt =====
-- The allocator's theorems on a slab of two objects.
use options_engine.Prelude.{◌<◌, ◌≡◌, none, some, [], ◌∷◌, arith}
use options_engine.Prelude.Words.{add64}
use options_engine.Allocator.{Pool, construct, allocate, deallocate, available}
use options_engine.Allocator.FreeList.{
  IsPool, Absent, construct-IsPool, allocate-IsPool, deallocate-IsPool,
}

abbrev slab : Pool
slab = construct 2 (λ _. none)

slab-IsPool : IsPool slab (0 ∷ 1 ∷ [])
slab-IsPool = construct-IsPool 2 (λ _. none) (omega arith)

allocate-IsPool_example :
    ((allocate slab).1 ≡ some 0)
    × (0 < slab.total)
    × Absent 0 (1 ∷ [])
    × IsPool (allocate slab).0 (1 ∷ [])
allocate-IsPool_example = allocate-IsPool slab (0 ∷ 1 ∷ []) slab-IsPool

taken : Pool
taken = (allocate slab).0

taken-counts : (0 < taken.total) × (0 < taken.allocated)
unfolding taken allocate construct add64
taken-counts = (omega arith, omega arith)

deallocate-IsPool_example :
    IsPool (deallocate (allocate slab).0 0) (0 ∷ 1 ∷ [])
    × (available (deallocate (allocate slab).0 0) ≡ 2)
unfolding taken
deallocate-IsPool_example =
    let one = allocate-IsPool slab (0 ∷ 1 ∷ []) slab-IsPool in
    deallocate-IsPool (allocate slab).0 (1 ∷ []) 0 one.3 taken-counts.0 one.2 taken-counts.1
