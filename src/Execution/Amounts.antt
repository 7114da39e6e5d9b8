-- ===== src/Execution/Amounts.antt =====
-- The amounts of a position stay within `int64_t` while shares and prices are bounded.
use native.Mathlib.Nat.{mul-le-mul}
use options_engine.Prelude.{
  ℕ, ◌+◌, ◌*◌, ◌≤◌, ◌<◌, ◌≡◌, refl, true, some, arith, min, ltb, leb, Bool-cases, inl, inr,
}
use options_engine.Prelude.Int.{ℤ, pos, pos_part, neg_part, ◌+ℤ◌, ◌-ℤ◌, ◌*ℤ◌, eqb_ℤ, sub_ℕ}
use options_engine.Prelude.Words.{add64}
use options_engine.Types.{Side, buy, sell, ExecutionReport}
use options_engine.Execution.{
  Position, int64, int64_mod, abs, sign, signed_qty, closes, close_pnl, realize, next_cost,
  apply_fill,
}

int64-some : (a : ℤ) → abs a < int64_mod → int64 a ≡ some a
unfolding int64
int64-some a h =
    let t : ltb (pos_part a) int64_mod ≡ true = ground arith in
    let u : leb (neg_part a) int64_mod ≡ true = ground arith in rw (t, u)

abs-sub_ℕ : (x y : ℕ) → abs (sub_ℕ x y) ≤ x + y
abs-sub_ℕ x y = ground arith

abs-add : (a b : ℤ) → abs (a +ℤ b) ≤ abs a + abs b
unfolding ◌+ℤ◌
abs-add a b = omega (arith, abs-sub_ℕ (pos_part a + pos_part b) (neg_part a + neg_part b))

abs-sub : (a b : ℤ) → abs (a -ℤ b) ≤ abs a + abs b
unfolding ◌-ℤ◌
abs-sub a b = omega (arith, abs-sub_ℕ (pos_part a + neg_part b) (neg_part a + pos_part b))

abs-mul : (a b : ℤ) → abs (a *ℤ b) ≤ abs a * abs b
unfolding ◌*ℤ◌
abs-mul a b =
    let p = pos_part a in
    let n = neg_part a in
    let r = pos_part b in
    let m = neg_part b in
    let e : (p * r + n * m) + (p * m + n * r) ≡ (p + n) * (r + m) = grind arith in
    omega (arith, abs-sub_ℕ (p * r + n * m) (p * m + n * r), e)

abs-sign : (a : ℤ) → abs (sign a) ≡ 1
abs-sign a = ground arith

abs-signed_qty : (side : Side) (q : ℕ) → abs (signed_qty side q) ≡ q
unfolding ◌-ℤ◌
abs-signed_qty buy q = omega arith
abs-signed_qty sell q = ground arith

-- What is left of the room of an amount: prices are at most `most`, and `shares` are still to be traded.
pub record IsBounded (most shares : ℕ) (p : Position) : Type 0 where
  pub net : abs p.net_qty + shares < int64_mod
  pub pnl : abs p.realized_pnl + (most + most) * shares < int64_mod
  pub cost : abs p.avg_cost ≤ most

module _ (most : ℕ) (p : Position) (rpt : ExecutionReport) (fair : abs rpt.exec_price ≤ most)
    (narrow : most + most < int64_mod) (v : IsBounded most rpt.exec_qty p) where
  signed : ℤ
  signed = signed_qty rpt.side rpt.exec_qty

  close_pnl-some :
      (x : ℤ) × (close_pnl p rpt signed ≡ some x) × (abs x ≤ (most + most) * rpt.exec_qty)
  unfolding close_pnl signed
  close_pnl-some =
      let q = rpt.exec_qty in
      let per = rpt.exec_price -ℤ p.avg_cost in
      let c = min (abs p.net_qty) (abs signed) in
      let whole = per *ℤ pos c in
      let per_small : abs per ≤ most + most =
        omega (arith, abs-sub rpt.exec_price p.avg_cost, v.cost) in
      let c_small : abs (pos c) ≤ q = omega (arith, abs-signed_qty rpt.side q) in
      let product : abs per * abs (pos c) ≤ (most + most) * q = mul-le-mul per_small c_small in
      let whole_small : abs whole ≤ (most + most) * q =
        omega (arith, abs-mul per (pos c), product) in
      let last : abs (whole *ℤ sign p.net_qty) ≤ (most + most) * q =
        (let e = abs-mul whole (sign p.net_qty) in
          let one : abs whole * abs (sign p.net_qty) ≡ abs whole =
            rw (abs-sign p.net_qty) (omega arith) in
          omega (arith, e, one, whole_small)) in
      (
        whole *ℤ sign p.net_qty,
        rw (
          int64-some (pos (abs p.net_qty)) (omega (arith, v.net)),
          int64-some per (omega (arith, per_small)),
          int64-some whole (omega (arith, whole_small, v.pnl)),
          int64-some (whole *ℤ sign p.net_qty) (omega (arith, last, v.pnl)),
        ),
        last,
      )

  realize-some :
      (x : ℤ) × (realize p rpt signed ≡ some x)
      × (abs x ≤ abs p.realized_pnl + (most + most) * rpt.exec_qty)
  unfolding realize
  realize-some = elim (Bool-cases (closes p.net_qty signed)) [
    | inl t ↦
        let (x, e, le) = close_pnl-some in
        let sum : abs (p.realized_pnl +ℤ x) ≤ abs p.realized_pnl + (most + most) * rpt.exec_qty =
          omega (arith, abs-add p.realized_pnl x, le) in
        (
          p.realized_pnl +ℤ x,
          rw (t, e, int64-some (p.realized_pnl +ℤ x) (omega (arith, sum, v.pnl))),
          sum,
        )
    | inr t ↦ (p.realized_pnl, rw t, omega arith)
  ]

  next_cost-le : (new_net : ℤ) → abs (next_cost p rpt new_net) ≤ most
  next_cost-le new_net = elim (Bool-cases (eqb_ℤ new_net (pos 0))) [
    | inl t ↦ rw t (omega arith)
    | inr t ↦ elim (Bool-cases (eqb_ℤ p.net_qty (pos 0))) [
      | inl u ↦ rw (t, u) fair
      | inr u ↦ rw (t, u) v.cost
    ]
  ]

  -- No amount overflows in a fill, and each moves by no more than the fill's share of the room.
  pub apply_fill-some :
      (p' : Position) × (apply_fill p rpt ≡ some p')
      × (p'.net_qty ≡ p.net_qty +ℤ signed_qty rpt.side rpt.exec_qty)
      × (abs p'.net_qty ≤ abs p.net_qty + rpt.exec_qty)
      × (abs p'.realized_pnl ≤ abs p.realized_pnl + (most + most) * rpt.exec_qty)
      × (abs p'.avg_cost ≤ most)
  unfolding apply_fill signed
  apply_fill-some =
      let (x, e, le) = realize-some in
      let n = p.net_qty +ℤ signed in
      let net_small : abs n ≤ abs p.net_qty + rpt.exec_qty =
        omega (arith, abs-add p.net_qty signed, abs-signed_qty rpt.side rpt.exec_qty) in
      (
        record {
          symbol = rpt.symbol;
          net_qty = n;
          realized_pnl = x;
          avg_cost = next_cost p rpt n;
          total_fills = add64 p.total_fills 1;
        },
        rw (e, int64-some n (omega (arith, net_small, v.net))),
        refl,
        net_small,
        le,
        next_cost-le n,
      )
