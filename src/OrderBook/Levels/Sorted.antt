-- ===== src/OrderBook/Levels/Sorted.antt =====
-- `remove_level`, the rollback of `add_order`, and that the levels stay sorted.
use options_engine.Prelude.{
  ℕ, ◌+◌, ◌-◌, ◌≤◌, ◌<◌, ◌≡◌, refl, ap, ◌∙◌, ◌≢◌, inl, inr, Bool, true, false, none, some, arith,
  ltb, if◌then◌else◌, Bool-cases, dec_lt, ℕ_discrete,
}
use options_engine.Prelude.Int.{ℤ, ltb_ℤ, ltb_ℤ_antisym}
use options_engine.Types.{Price}
use options_engine.OrderBook.Levels.{
  Levels, before, find_level, move_levels, insert_level, remove_level,
}
use options_engine.OrderBook.Levels.Find.{find_level_lem}
use options_engine.OrderBook.Levels.Shift.{
  row, IsInserted, IsRemoved, IsSorted, move_levels-in, move_levels-out, insert_level-IsInserted,
}

remove_level-row :
    (s : Levels) (idx j : ℕ)
    → row (remove_level s idx) j
      ≡ row
          (if ltb 0 (s.count - idx - 1) then move_levels s idx (idx + 1) (s.count - idx - 1) else s)
          j
unfolding remove_level
remove_level-row s idx j = refl

-- `remove_level` drops the level at `idx` and shifts the levels behind it.
pub remove_level-IsRemoved :
    (s : Levels) (idx : ℕ) → idx < s.count → IsRemoved s idx (remove_level s idx)
remove_level-IsRemoved s idx h = record {
  count = (unfold remove_level in omega arith);
  low = λ j lo. remove_level-row s idx j ∙ low j lo;
  high = λ j lo hi. remove_level-row s idx j ∙ high j lo hi;
}
  where
    n : ℕ
    n = s.count - idx - 1

    low : (j : ℕ) → j < idx → row (if ltb 0 n then move_levels s idx (idx + 1) n else s) j ≡ row s j
    low j lo = elim (Bool-cases (ltb 0 n)) [
      | inl t ↦ rw t (move_levels-out s idx (idx + 1) n j (inl lo))
      | inr t ↦ rw t
    ]

    high :
        (j : ℕ)
        → idx ≤ j
        → j + 1 < s.count
        → row (if ltb 0 n then move_levels s idx (idx + 1) n else s) j ≡ row s (j + 1)
    high j lo hi =
        let t : ltb 0 n ≡ true = ground arith in
        rw t (move_levels-in s idx (idx + 1) n j (j + 1) lo (omega arith) (omega arith))

-- Where `insert_level` finds room, removing the level that it made gives back the count and every
-- level below it.
pub remove-insert_level :
    (s : Levels) (p : Price) (desc : Bool) {s' : Levels} {pos : ℕ}
    → insert_level s p desc ≡ some (s', pos)
    → ((remove_level s' pos).count ≡ s.count)
      × ((j : ℕ) → j < s.count → row (remove_level s' pos) j ≡ row s j)
remove-insert_level s p desc {s'} {pos} e =
    let (put, fits, _, _) = insert_level-IsInserted s p desc e in
    let gone = remove_level-IsRemoved s' pos (omega (arith, put.count)) in
    (
      omega (arith, gone.count, put.count),
      λ j h. elim (dec_lt j pos) [
        | yes lo ↦ gone.low j lo ∙ put.low j lo
        | no hi ↦ gone.high j (omega arith) (omega (arith, put.count)) ∙ put.high j (omega arith) h
      ],
    )

pub before_trans :
    (desc : Bool) (a b c : ℤ)
    → before desc a b ≡ true
    → before desc b c ≡ true
    → before desc a c ≡ true
before_trans true a b c h k = ground arith
before_trans false a b c h k = ground arith

before-total : (desc : Bool) (a b : ℤ) → before desc a b ≡ false → a ≢ b → before desc b a ≡ true
before-total true a b h ne = elim (Bool-cases (ltb_ℤ a b)) [
  | inl t ↦ t
  | inr t ↦ absurd (ne (ltb_ℤ_antisym a b t h))
]
before-total false a b h ne = elim (Bool-cases (ltb_ℤ b a)) [
  | inl t ↦ t
  | inr t ↦ absurd (ne (ltb_ℤ_antisym a b h t))
]

-- A level behind the new one comes after its price.
after-new :
    (s : Levels) (p : Price) (desc : Bool) {s' : Levels} {pos : ℕ}
    → IsSorted desc s
    → find_level s p ≡ none
    → insert_level s p desc ≡ some (s', pos)
    → (j : ℕ) → pos ≤ j
    → j < s.count
    → before desc p (s.prices j) ≡ true
after-new s p desc {s'} {pos} sorted absent e j lo hi =
    let (_, _, _, stop) = insert_level-IsInserted s p desc e in
    let first =
      before-total desc (s.prices pos) p (stop (omega arith))
        ((find_level_lem s p).1 absent pos (omega arith)) in
    elim (ℕ_discrete pos j) [
      | yes q ↦ rw (← q) first
      | no q ↦ before_trans desc p (s.prices pos) (s.prices j) first (sorted pos j (omega arith) hi)
    ]

-- On sorted levels none of which has the price, `insert_level`, when it finds room, keeps the levels
-- sorted, best price first.
pub insert_level-IsSorted :
    (s : Levels) (p : Price) (desc : Bool) {s' : Levels} {pos : ℕ}
    → IsSorted desc s
    → find_level s p ≡ none
    → insert_level s p desc ≡ some (s', pos)
    → IsSorted desc s'
insert_level-IsSorted s p desc {s'} {pos} sorted absent e i j lt hi = elim (dec_lt j pos) [
  | yes b ↦ rw (price_low i (omega arith), price_low j b) (sorted i j lt (omega (arith, fits)))
  | no b ↦ elim (ℕ_discrete j pos) [
    | yes q ↦ rw (q, price_at, price_low i (omega arith)) (front i (omega arith))
    | no q ↦ rw (price_high j (omega arith) (omega (arith, put.count))) (elim (dec_lt i pos) [
      | yes c ↦ rw (price_low i c) (
          before_trans desc (s.prices i) p (s.prices (j - 1)) (front i c)
            (behind (j - 1) (omega arith) (omega (arith, put.count))))
      | no c ↦ elim (ℕ_discrete i pos) [
        | yes r ↦ rw (r, price_at) (behind (j - 1) (omega arith) (omega (arith, put.count)))
        | no r ↦
            rw (price_high i (omega arith) (omega (arith, put.count)))
              (sorted (i - 1) (j - 1) (omega arith) (omega (arith, put.count)))
      ]
    ])
  ]
]
  where
    put : IsInserted s p pos s'
    put = (insert_level-IsInserted s p desc e).0

    fits : pos ≤ s.count
    fits = (insert_level-IsInserted s p desc e).1

    front : (k : ℕ) → k < pos → before desc (s.prices k) p ≡ true
    front = (insert_level-IsInserted s p desc e).2

    behind : (k : ℕ) → pos ≤ k → k < s.count → before desc p (s.prices k) ≡ true
    behind = after-new s p desc sorted absent e

    price_low : (k : ℕ) → k < pos → s'.prices k ≡ s.prices k
    price_low k h = ap (λ x. x.price) (put.low k h)

    price_at : s'.prices pos ≡ p
    price_at = ap (λ x. x.price) put.at

    price_high : (k : ℕ) → pos < k → k < s'.count → s'.prices k ≡ s.prices (k - 1)
    price_high k h u =
        let q : k ≡ (k - 1) + 1 = omega arith in
        ap s'.prices q
        ∙ ap (λ x. x.price) (put.high (k - 1) (omega arith) (omega (arith, put.count)))

-- Removing one of the levels of a sorted side keeps it sorted.
pub remove_level-IsSorted :
    (s : Levels) (idx : ℕ) (desc : Bool)
    → idx < s.count
    → IsSorted desc s
    → IsSorted desc (remove_level s idx)
remove_level-IsSorted s idx desc h sorted i j lt hi = elim (dec_lt j idx) [
  | yes b ↦
      rw (price_low i (omega arith), price_low j b) (sorted i j lt (omega (arith, gone.count)))
  | no b ↦ rw (price_high j (omega arith) (omega (arith, gone.count))) (elim (dec_lt i idx) [
    | yes c ↦ rw (price_low i c) (sorted i (j + 1) (omega arith) (omega (arith, gone.count)))
    | no c ↦
        rw (price_high i (omega arith) (omega (arith, gone.count)))
          (sorted (i + 1) (j + 1) (omega arith) (omega (arith, gone.count)))
  ])
]
  where
    gone : IsRemoved s idx (remove_level s idx)
    gone = remove_level-IsRemoved s idx h

    price_low : (k : ℕ) → k < idx → (remove_level s idx).prices k ≡ s.prices k
    price_low k u = ap (λ x. x.price) (gone.low k u)

    price_high :
        (k : ℕ) → idx ≤ k → k + 1 < s.count → (remove_level s idx).prices k ≡ s.prices (k + 1)
    price_high k u w = ap (λ x. x.price) (gone.high k u w)
