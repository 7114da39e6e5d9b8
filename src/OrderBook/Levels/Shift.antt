-- ===== src/OrderBook/Levels/Shift.antt =====
-- `insert_level` and `remove_level`: which level goes where, and the order of the prices.
use options_engine.Prelude.{
  ℕ, zero, suc, ◌+◌, ◌-◌, ◌≤◌, ◌<◌, ◌≡◌, ap, ◌∙◌, ◌⊎◌, ◌≢◌, inl, inr, Bool, true, false, some,
  arith, ltb, leb, if◌then◌else◌, Bool-cases, some-eq, none-ne, ℕ_discrete,
}
use mathlib.Core.Path.{subst}
use options_engine.Prelude.Arrays.{Array, update, memmove}
use options_engine.Types.{Price}
use options_engine.OrderBook.Levels.{
  Levels, null_idx, max_levels, before, seek, move_levels, open_level, insert_level,
}

-- One level, as the five arrays hold it.
pub record Row : Type 0 where
  pub price : Price
  pub qty : ℕ
  pub order_count : ℕ
  pub head_idx : ℕ
  pub tail_idx : ℕ

abbrev pub row : Levels → ℕ → Row
row s i = record {
  price = s.prices i;
  qty = s.qtys i;
  order_count = s.order_counts i;
  head_idx = s.head_idxs i;
  tail_idx = s.tail_idxs i;
}

abbrev pub empty_row : Price → Row
empty_row p = record {
  price = p;
  qty = 0;
  order_count = 0;
  head_idx = null_idx;
  tail_idx = null_idx;
}

-- `s'` is `s` with an empty level of price `p` put in at `pos`.
pub record IsInserted (s : Levels) (p : Price) (pos : ℕ) (s' : Levels) : Type 0 where
  pub count : s'.count ≡ s.count + 1
  pub at : row s' pos ≡ empty_row p
  pub low : (j : ℕ) → j < pos → row s' j ≡ row s j
  pub high : (j : ℕ) → pos ≤ j → j < s.count → row s' (j + 1) ≡ row s j

-- `s'` is `s` without its level `idx`.
pub record IsRemoved (s : Levels) (idx : ℕ) (s' : Levels) : Type 0 where
  pub count : s'.count + 1 ≡ s.count
  pub low : (j : ℕ) → j < idx → row s' j ≡ row s j
  pub high : (j : ℕ) → idx ≤ j → j + 1 < s.count → row s' j ≡ row s (j + 1)

-- Best price first, no price twice.
abbrev pub IsSorted : Bool → Levels → Type 0
IsSorted desc s = (i j : ℕ) → i < j → j < s.count → before desc (s.prices i) (s.prices j) ≡ true

module _ {ℓ} {A : Type ℓ} (f : Array A) where
  memmove-in : (dst src n j : ℕ) → dst ≤ j → j < dst + n → memmove f dst src n j ≡ f (j - dst + src)
  unfolding memmove
  memmove-in dst src n j lo hi = ground arith

  memmove-out : (dst src n j : ℕ) → (j < dst) ⊎ (dst + n ≤ j) → memmove f dst src n j ≡ f j
  unfolding memmove
  memmove-out dst src n j out = ground arith

pub move_levels-in :
    (s : Levels) (dst src n j k : ℕ)
    → dst ≤ j
    → j < dst + n
    → j - dst + src ≡ k
    → row (move_levels s dst src n) j ≡ row s k
unfolding move_levels
move_levels-in s dst src n j k lo hi e = rw (
  memmove-in s.prices dst src n j lo hi,
  memmove-in s.qtys dst src n j lo hi,
  memmove-in s.order_counts dst src n j lo hi,
  memmove-in s.head_idxs dst src n j lo hi,
  memmove-in s.tail_idxs dst src n j lo hi,
  e,
)

pub move_levels-out :
    (s : Levels) (dst src n j : ℕ)
    → (j < dst) ⊎ (dst + n ≤ j)
    → row (move_levels s dst src n) j ≡ row s j
unfolding move_levels
move_levels-out s dst src n j out = rw (
  memmove-out s.prices dst src n j out,
  memmove-out s.qtys dst src n j out,
  memmove-out s.order_counts dst src n j out,
  memmove-out s.head_idxs dst src n j out,
  memmove-out s.tail_idxs dst src n j out,
)

open_level-at : (s : Levels) (pos : ℕ) (p : Price) → row (open_level s pos p) pos ≡ empty_row p
unfolding open_level update
open_level-at s pos p = ground arith

open_level-ne :
    (s : Levels) (pos : ℕ) (p : Price) (j : ℕ) → pos ≢ j → row (open_level s pos p) j ≡ row s j
unfolding open_level update
open_level-ne s pos p j ne = ground arith

seek_bounds :
    (desc : Bool) (prices : Array Price) (p : Price) (pos n : ℕ)
    → (pos ≤ seek desc prices p pos n) × (seek desc prices p pos n ≤ pos + n)
unfolding seek
seek_bounds desc prices p pos zero = omega arith
seek_bounds desc prices p pos (suc n) = elim (Bool-cases (before desc (prices pos) p)) [
  | inl t ↦ rw t (omega (arith, seek_bounds desc prices p (pos + 1) n))
  | inr t ↦ rw t (omega arith)
]

seek-before :
    (desc : Bool) (prices : Array Price) (p : Price) (pos n j : ℕ)
    → pos ≤ j
    → j < seek desc prices p pos n
    → before desc (prices j) p ≡ true
unfolding seek
seek-before desc prices p pos zero j lo hi = absurd (omega arith)
seek-before desc prices p pos (suc n) j lo hi = elim (Bool-cases (before desc (prices pos) p)) [
  | inl t ↦ elim (ℕ_discrete pos j) [
    | yes e ↦ rw (← e) t
    | no e ↦ seek-before desc prices p (pos + 1) n j (omega arith) (rw (t, seek) at hi)
  ]
  | inr t ↦ let h : j < pos = rw (t, seek) at hi in absurd (omega arith)
]

seek-stop :
    (desc : Bool) (prices : Array Price) (p : Price) (pos n : ℕ)
    → seek desc prices p pos n < pos + n
    → before desc (prices (seek desc prices p pos n)) p ≡ false
unfolding seek
seek-stop desc prices p pos zero h = absurd (omega arith)
seek-stop desc prices p pos (suc n) h = elim (Bool-cases (before desc (prices pos) p)) [
  | inl t ↦
      let k : seek desc prices p (pos + 1) n < pos + suc n = rw (t, seek) at h in
      rw (t, seek) (seek-stop desc prices p (pos + 1) n (omega arith))
  | inr t ↦ rw (t, seek) t
]

-- What `insert_level` returns.
abbrev pos_of : Levels → Price → Bool → ℕ
pos_of s p desc = seek desc s.prices p 0 s.count

abbrev moved : Levels → ℕ → Levels
moved s pos = if ltb pos s.count then move_levels s (pos + 1) pos (s.count - pos) else s

moved-low : (s : Levels) (pos j : ℕ) → j < pos → row (moved s pos) j ≡ row s j
moved-low s pos j h = elim (Bool-cases (ltb pos s.count)) [
  | inl t ↦ rw t (move_levels-out s (pos + 1) pos (s.count - pos) j (inl (omega arith)))
  | inr t ↦ rw t
]

moved-high : (s : Levels) (pos j : ℕ) → pos ≤ j → j < s.count → row (moved s pos) (j + 1) ≡ row s j
moved-high s pos j lo hi =
    let t : ltb pos s.count ≡ true = ground arith in
    rw t (
      move_levels-in s (pos + 1) pos (s.count - pos) (j + 1) j (omega arith) (omega arith)
        (omega arith))

insert_level-eq :
    (s : Levels) (p : Price) (desc : Bool) {s' : Levels} {pos : ℕ}
    → insert_level s p desc ≡ some (s', pos)
    → (s.count < max_levels)
      × (pos_of s p desc ≡ pos)
      × (open_level (moved s (pos_of s p desc)) (pos_of s p desc) p ≡ s')
unfolding insert_level
insert_level-eq s p desc e = elim (Bool-cases (leb max_levels s.count)) [
  | inl t ↦ none-ne (rw (t, insert_level) at e)
  | inr t ↦
      let q = some-eq (rw (t, insert_level) at e) in
      (ground arith, ap (λ x. x.1) q, ap (λ x. x.0) q)
]

moved-count : (s : Levels) (pos : ℕ) → (moved s pos).count ≡ s.count
unfolding move_levels
moved-count s pos = elim (Bool-cases (ltb pos s.count)) [ inl t ↦ rw t | inr t ↦ rw t ]

open_level-IsInserted :
    (s : Levels) (pos : ℕ) (p : Price) → IsInserted s p pos (open_level (moved s pos) pos p)
open_level-IsInserted s pos p = record {
  count = (unfold open_level in ap (λ n. n + 1) (moved-count s pos));
  at = open_level-at (moved s pos) pos p;
  low = λ j h. open_level-ne (moved s pos) pos p j (omega arith) ∙ moved-low s pos j h;
  high =
      λ j lo hi. open_level-ne (moved s pos) pos p (j + 1) (omega arith) ∙ moved-high s pos j lo hi;
}

-- `insert_level` succeeds on a side that is not full, puts the new level behind exactly the levels
-- that come before its price, and shifts the rest.
pub insert_level-IsInserted :
    (s : Levels) (p : Price) (desc : Bool) {s' : Levels} {pos : ℕ}
    → insert_level s p desc ≡ some (s', pos)
    → IsInserted s p pos s'
      × (pos ≤ s.count)
      × ((j : ℕ) → j < pos → before desc (s.prices j) p ≡ true)
      × (pos < s.count → before desc (s.prices pos) p ≡ false)
insert_level-IsInserted s p desc {s'} {pos} e =
    let (small, at_pos, made) = insert_level-eq s p desc e in
    (
      subst (IsInserted s p pos) made (
          subst (λ k. IsInserted s p k (open_level (moved s (pos_of s p desc)) (pos_of s p desc) p))
            at_pos (open_level-IsInserted s (pos_of s p desc) p)),
      omega (arith, seek_bounds desc s.prices p 0 s.count, at_pos),
      λ j h. seek-before desc s.prices p 0 s.count j (omega arith) (omega (arith, at_pos)),
      λ h. rw (← at_pos) (seek-stop desc s.prices p 0 s.count (omega (arith, at_pos))),
    )
