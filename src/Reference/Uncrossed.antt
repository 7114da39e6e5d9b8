-- ===== src/Reference/Uncrossed.antt =====
-- `RefBook`: sorted sides, and what a booking does to them.
pub mod Sweep
pub mod Add
use options_engine.Prelude.{
  ℕ, zero, suc, ◌+◌, ◌-◌, ◌≤◌, ◌≡◌, refl, ap, sym, ◌∙◌, ◌⊎◌, Bool, true, false, ◌&&◌, not, List, [],
  ◌∷◌, ◌++◌, arith, min, ltb, leb, ◌==◌, if◌then◌else◌, Bool-cases, inl, inr,
}
use options_engine.Prelude.Int.{ℤ, ltb_ℤ, eqb_ℤ, eqb_ℤ_sound}
use options_engine.Types.{Price, Qty, Order, is_buy, is_limit, is_market, is_fok}
use options_engine.OrderBook.Levels.{before}
use options_engine.OrderBook.Levels.Sorted.{before_trans}
use options_engine.OrderBook.Match.Reports.{All}
use options_engine.Reference.{
  RefOrder, RefLevel, RefBook, RefOutcome, Taker, taker, Swept, sweep_queue, sweep, available,
  push_back, is_wall, beyond, passive_side, put_passive, own_side, put_own, after_sweep, outcome,
  add_swept, add,
}
use options_engine.Reference.Sweep.{after_level}
use options_engine.Reference.AllOrNone.{sweep-left}

-- Every level of `ls` comes after the price.
abbrev pub Behind : Bool → Price → List RefLevel → Type 0
Behind desc px ls = All (λ l. before desc px l.px ≡ true) ls

abbrev pub IsSorted : Bool → List RefLevel → Type 0
IsSorted desc [] = Unit {0}
IsSorted desc (l ∷ ls) = Behind desc l.px ls × IsSorted desc ls

-- Every price of the side `x` is worse than every price of the other side.
abbrev pub Apart : Bool → List RefLevel → List RefLevel → Type 0
Apart x own others = All (λ l. Behind (not x) l.px others) own

pub All-map :
    {A : Type 0} (P Q : A → Type 0) (xs : List A) → ((a : A) → P a → Q a) → All P xs → All Q xs
All-map P Q [] f h = tt
All-map P Q (x ∷ xs) f h = (f x h.0, All-map P Q xs f h.1)

pub All-swap :
    {A : Type 0} (R : A → A → Type 0) (xs ys : List A)
    → All (λ x. All (R x) ys) xs
    → All (λ y. All (λ x. R x y) xs) ys
All-swap R xs [] h = tt
All-swap R xs (y ∷ ys) h = (
  All-map (λ x. R x y × All (R x) ys) (λ x. R x y) xs (λ x p. p.0) h,
  All-swap R xs ys (All-map (λ x. R x y × All (R x) ys) (λ x. All (R x) ys) xs (λ x p. p.1) h),
)

pub Behind_trans :
    (desc : Bool) (p q : Price) (ls : List RefLevel)
    → before desc p q ≡ true
    → Behind desc q ls
    → Behind desc p ls
Behind_trans desc p q ls h v =
    All-map (λ l. before desc q l.px ≡ true) (λ l. before desc p l.px ≡ true) ls
      (λ l k. before_trans desc p q l.px h k) v

-- Neither before nor equal.
before_of_not :
    (desc : Bool) (p q : Price)
    → before desc q p ≡ false
    → eqb_ℤ q p ≡ false
    → before desc p q ≡ true
before_of_not true p q h k = ground arith
before_of_not false p q h k = ground arith

-- A property of prices that holds of the side and of the new price.
pub push_back-All :
    (P : Price → Type 0) (desc : Bool) (px : Price) (o : RefOrder) (ls : List RefLevel)
    → All (λ l. P l.px) ls
    → P px
    → All (λ l. P l.px) (push_back desc px o ls)
unfolding push_back
push_back-All P desc px o [] h p = (p, tt)
push_back-All P desc px o (l ∷ ls) h p = elim (Bool-cases (before desc l.px px)) [
  | inl a ↦ rw a (h.0, push_back-All P desc px o ls h.1 p)
  | inr a ↦ elim (Bool-cases (eqb_ℤ l.px px)) [ inl c ↦ rw (a, c) h | inr c ↦ rw (a, c) (p, h) ]
]

pub push_back-IsSorted :
    (desc : Bool) (px : Price) (o : RefOrder) (ls : List RefLevel)
    → IsSorted desc ls
    → IsSorted desc (push_back desc px o ls)
unfolding push_back
push_back-IsSorted desc px o [] h = (tt, tt)
push_back-IsSorted desc px o (l ∷ ls) h = elim (Bool-cases (before desc l.px px)) [
  | inl a ↦ rw a (
    push_back-All (λ p. before desc l.px p ≡ true) desc px o ls h.0 a,
    push_back-IsSorted desc px o ls h.1,
  )
  | inr a ↦ elim (Bool-cases (eqb_ℤ l.px px)) [
    | inl c ↦ rw (a, c) h
    | inr c ↦
        let first = before_of_not desc px l.px a c in
        rw (a, c) ((first, Behind_trans desc px l.px ls first h.0), h)
  ]
]
