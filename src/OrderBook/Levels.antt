-- ===== src/OrderBook/Levels.antt =====
-- src/core/order_book.cpp, `OrderBook::Side`: one side's price levels as parallel arrays.
-- Indices are below `kMaxLevels`, so the casts to `int32_t` keep them; `none` is the result -1.
pub mod Find
pub mod Shift
pub mod Sorted
use options_engine.Prelude.{
  ℕ, zero, suc, ◌+◌, ◌-◌, ◌*◌, ◌%◌, ◌/◌, ◌≡◌, Bool, true, false, ◌&&◌, Option, none, some, ltb, leb,
  ◌==◌, if◌then◌else◌, not,
}
use options_engine.Prelude.Int.{ltb_ℤ, eqb_ℤ}
use options_engine.Prelude.Words.{add32, sub32}
use options_engine.Prelude.Arrays.{Array, update, memmove}
use options_engine.Types.{Price, Qty, uint32_max, price_invalid}

abbrev pub null_idx : ℕ
null_idx = uint32_max

abbrev pub max_levels : ℕ
max_levels = 4096

pub record Levels : Type 0 where
  pub prices : Array Price
  pub qtys : Array Qty
  pub order_counts : Array ℕ
  pub head_idxs : Array ℕ
  pub tail_idxs : Array ℕ
  pub count : ℕ

-- `for (; i < count; ++i) if (prices[i] == p) return i;`, with `n` rounds left.
unfoldable pub scan : Array Price → Price → ℕ → ℕ → Option ℕ
scan prices p i zero = none
scan prices p i (suc n) =
    let rest = scan prices p (i + 1) n in if eqb_ℤ (prices i) p then some i else rest

-- The target without AVX2.
unfoldable pub find_level : Levels → Price → Option ℕ
find_level s p = scan s.prices p 0 s.count

-- `_mm256_cmpeq_epi64` and `_mm256_movemask_epi8` of four 64-bit lanes: eight mask bits a lane.
unfoldable pub lane : Bool → ℕ → ℕ
lane hit weight = if hit then 255 * weight else 0

unfoldable pub movemask : Array Price → Price → ℕ → ℕ
unfolding lane
movemask prices p i =
    lane (eqb_ℤ (prices i) p) 1
    + lane (eqb_ℤ (prices (i + 1)) p) 256
    + lane (eqb_ℤ (prices (i + 2)) p) 65536
    + lane (eqb_ℤ (prices (i + 3)) p) 16777216

-- `__builtin_ctz`: the index of the lowest bit set, of at most `n` bits.
unfoldable pub ctz : ℕ → ℕ → ℕ
ctz zero m = 0
ctz (suc n) m = let rest = ctz n (m / 2) in if m % 2 == 1 then 0 else rest + 1

-- The vector loop, then the scalar tail. `n` is `count - i`; the fuel bounds the vector rounds.
unfoldable pub scan_avx2 : ℕ → Array Price → Price → ℕ → ℕ → Option ℕ
scan_avx2 zero prices p i n = scan prices p i n
scan_avx2 (suc f) prices p i n =
    let rest = scan_avx2 f prices p (i + 4) (n - 4) in
    let mask = movemask prices p i in
    if leb 4 n then (if mask == 0 then rest else some (i + ctz 32 mask / 8)) else scan prices p i n

unfoldable pub find_level_avx2 : Array Price → ℕ → Price → Option ℕ
unfolding scan_avx2
find_level_avx2 prices count target = scan_avx2 (count / 4) prices target 0 count

-- `prices[pos] > p` on a descending side, `prices[pos] < p` on an ascending one.
abbrev pub before : Bool → Price → Price → Bool
before true q p = ltb_ℤ p q
before false q p = ltb_ℤ q p

-- `while (pos < count && …) ++pos;`, with `n` levels left.
unfoldable pub seek : Bool → Array Price → Price → ℕ → ℕ → ℕ
seek desc prices p pos zero = pos
seek desc prices p pos (suc n) =
    let rest = seek desc prices p (pos + 1) n in if before desc (prices pos) p then rest else pos

-- The five `memmove`s of `insert_level` and of `remove_level`: `n` levels from `src` to `dst`.
unfoldable pub move_levels : Levels → ℕ → ℕ → ℕ → Levels
move_levels s dst src n = record s {
  prices = memmove s.prices dst src n;
  qtys = memmove s.qtys dst src n;
  order_counts = memmove s.order_counts dst src n;
  head_idxs = memmove s.head_idxs dst src n;
  tail_idxs = memmove s.tail_idxs dst src n;
}

unfoldable pub open_level : Levels → ℕ → Price → Levels
open_level s pos p = record {
  prices = update s.prices pos p;
  qtys = update s.qtys pos 0;
  order_counts = update s.order_counts pos 0;
  head_idxs = update s.head_idxs pos null_idx;
  tail_idxs = update s.tail_idxs pos null_idx;
  count = s.count + 1;
}

-- The new side, and the index of the new level; `none` when the side is full.
unfoldable pub insert_level : Levels → Price → Bool → Option (Levels × ℕ)
unfolding seek move_levels open_level
insert_level s p desc =
    if leb max_levels s.count
    then none
    else let pos = seek desc s.prices p 0 s.count in
      let moved = if ltb pos s.count then move_levels s (pos + 1) pos (s.count - pos) else s in
      some (open_level moved pos p, pos)

-- `idx < count` is asserted.
unfoldable pub remove_level : Levels → ℕ → Levels
unfolding move_levels
remove_level s idx =
    let n = s.count - idx - 1 in
    let moved = if ltb 0 n then move_levels s idx (idx + 1) n else s in
    record moved { count = s.count - 1 }
