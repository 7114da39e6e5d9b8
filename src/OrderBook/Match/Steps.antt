-- ===== src/OrderBook/Match/Steps.antt =====
-- The steps of `try_match` on its state written out: the passive side, the slots, the index, the count
-- of matches, the quantity left and the reports.
use options_engine.Prelude.{
  ℕ, suc, ◌-◌, ◌≡◌, refl, ◌∙◌, inl, inr, Bool, true, false, not, Option, none, some, List, [], ◌∷◌,
  ◌++◌, min, ◌==◌, if◌then◌else◌, Bool-cases,
}
use options_engine.Prelude.Words.{sub32, add64}
use options_engine.Prelude.Arrays.{update}
use options_engine.Types.{Price, Order, is_buy, ExecutionReport}
use options_engine.OrderBook.Levels.{Levels, null_idx, remove_level}
use options_engine.OrderBook.Slots.{Slots, free_slot}
use options_engine.OrderBook.Index.{Table, remove}
use options_engine.OrderBook.State.{Book, put_side}
use options_engine.OrderBook.Match.{
  Matching, passive, trade, dequeue, fill_head, report_of, fire, advance_head, drop_exhausted,
  sweep_level, match_loop, same_account, out_of_reach,
}

abbrev pub with_left : Order → ℕ → Order
with_left o left = record o { qty_remaining = left }

-- What matching changes.
pub record Work : Type 0 where
  pub side : Levels
  pub slots : Slots
  pub index : Table
  pub matches : ℕ
  pub left : ℕ
  pub reports : List ExecutionReport

-- The rounds of the loops as equations between shut calls.
abbrev settle : Matching → ℕ → Option Matching
settle m slot = if m.book.slots.qtys slot == 0 then dequeue m slot else some m

settled :
    (px : Price) (m : Matching) → fill_head px m ≡ settle (trade px m) ((passive m).head_idxs 0)
unfolding fill_head
settled px m = refl

abbrev next_order : ℕ → Price → Option Matching → Option (Matching × Bool)
next_order f px none = none
next_order f px (some m) = sweep_level f px m

level_round :
    (f : ℕ) (px : Price) (m : Matching)
    → sweep_level (suc f) px m ≡ (
        if (passive m).head_idxs 0 == null_idx
        then some (m, false)
        else if m.incoming.qty_remaining == 0
        then some (m, false)
        else if same_account m.incoming m.book.slots ((passive m).head_idxs 0)
        then some (m, true)
        else next_order f px (fill_head px m))
unfolding sweep_level
level_round f px m = refl

abbrev next_level : ℕ → ℕ → Option (Matching × Bool) → Option (Matching × Bool)
next_level n f none = none
next_level n f (some (m, true)) = some (m, true)
next_level n f (some (m, false)) = match_loop n f (drop_exhausted m)

match_round :
    (n f : ℕ) (m : Matching)
    → match_loop n (suc f) m ≡ (
        if m.incoming.qty_remaining == 0
        then some (m, false)
        else if (passive m).count == 0
        then some (m, false)
        else if out_of_reach m.incoming ((passive m).prices 0)
        then some (m, false)
        else next_level n f (sweep_level n ((passive m).prices 0) m))
unfolding match_loop
match_round n f m = refl

module _ (b : Book) (o : Order) where
  abbrev pub at : Work → Matching
  at w = record {
    book =
        put_side (not (is_buy o.side)) w.side
          (record b { slots = w.slots; index = w.index; stat_matches = w.matches });
    incoming = with_left o w.left;
    reports = w.reports;
  }

  pub passive-at : (w : Work) → passive (at w) ≡ w.side
  passive-at w = elim (Bool-cases (is_buy o.side)) [ inl t ↦ rw t | inr t ↦ rw t ]

  pub slots-at : (w : Work) → (at w).book.slots ≡ w.slots
  slots-at w = elim (Bool-cases (is_buy o.side)) [ inl t ↦ rw t | inr t ↦ rw t ]

  same_account-left :
      (left : ℕ) (p : Slots) (slot : ℕ)
      → same_account (with_left o left) p slot ≡ same_account o p slot
  unfolding same_account
  same_account-left left p slot = refl

  out_of_reach-left :
      (left : ℕ) (px : Price) → out_of_reach (with_left o left) px ≡ out_of_reach o px
  unfolding out_of_reach
  out_of_reach-left left px = refl

  -- The report of a fill from `slot` that leaves `leaves`.
  abbrev pub report : Slots → ℕ → Price → ℕ → ℕ → ExecutionReport
  unfolding report_of
  report p slot px fill_qty leaves =
      report_of (record { book = record b { slots = p }; incoming = o; reports = [] }) slot px
        fill_qty leaves

  abbrev pub traded : Price → Work → Work
  traded px w =
      let slot = w.side.head_idxs 0 in
      let fill_qty = min w.left (w.slots.qtys slot) in
      record {
        side = record (w.side) { qtys = update w.side.qtys 0 (sub32 (w.side.qtys 0) fill_qty) };
        slots = record (w.slots) { qtys = update w.slots.qtys slot (w.slots.qtys slot - fill_qty) };
        index = w.index;
        matches = add64 w.matches 1;
        left = w.left - fill_qty;
        reports = w.reports ++ report w.slots slot px fill_qty (w.left - fill_qty) ∷ [];
      }

  abbrev pub dequeued : ℕ → Work → Table → Work
  unfolding advance_head
  dequeued slot w t =
      let (s, p) = advance_head w.side w.slots slot in
      record w { side = s; slots = free_slot p slot; index = t }

  pub trade-at : (px : Price) (w : Work) → b.match_cb ≡ true → trade px (at w) ≡ at (traded px w)
  unfolding trade fire report_of
  trade-at px w cb = elim (Bool-cases (is_buy o.side)) [
    | inl t ↦ rw (t, cb, trade)
    | inr t ↦ rw (t, cb, trade)
  ]

  pub dequeue-at :
      (slot : ℕ) (w : Work) (t : Table) (r : Bool)
      → remove w.index (w.slots.ids slot) ≡ some (t, r)
      → dequeue (at w) slot ≡ some (at (dequeued slot w t))
  unfolding dequeue
  dequeue-at slot w t r e = elim (Bool-cases (is_buy o.side)) [
    | inl u ↦ rw (u, e, dequeue, u)
    | inr u ↦ rw (u, e, dequeue, u)
  ]

  pub drop_exhausted-at :
      (w : Work)
      → drop_exhausted (at w)
        ≡ at (record w {
          side = if w.side.order_counts 0 == 0 then remove_level w.side 0 else w.side;
        })
  unfolding drop_exhausted
  drop_exhausted-at w = elim (Bool-cases (is_buy o.side)) [
    | inl t ↦ elim (Bool-cases (w.side.order_counts 0 == 0)) [
      | inl u ↦ rw (t, u, drop_exhausted)
      | inr u ↦ rw (t, u, drop_exhausted)
    ]
    | inr t ↦ elim (Bool-cases (w.side.order_counts 0 == 0)) [
      | inl u ↦ rw (t, u, drop_exhausted)
      | inr u ↦ rw (t, u, drop_exhausted)
    ]
  ]

  -- A fill that uses up the order at the head takes it off the queue.
  pub fill_head-gone :
      (px : Price) (w : Work) (t : Table) (r : Bool)
      → b.match_cb ≡ true
      → ((traded px w).slots.qtys (w.side.head_idxs 0) == 0) ≡ true
      → remove w.index (w.slots.ids (w.side.head_idxs 0)) ≡ some (t, r)
      → fill_head px (at w) ≡ some (at (dequeued (w.side.head_idxs 0) (traded px w) t))
  fill_head-gone px w t r cb gone e =
      settled px (at w)
      ∙ rw (passive-at w, trade-at px w cb, slots-at (traded px w), gone)
          (dequeue-at (w.side.head_idxs 0) (traded px w) t r e)

  pub fill_head-stays :
      (px : Price) (w : Work)
      → b.match_cb ≡ true
      → ((traded px w).slots.qtys (w.side.head_idxs 0) == 0) ≡ false
      → fill_head px (at w) ≡ some (at (traded px w))
  fill_head-stays px w cb stays =
      settled px (at w) ∙ rw (passive-at w, trade-at px w cb, slots-at (traded px w), stays)

  -- The inner loop: at the end of the queue, with nothing left, at a wall, and on.
  pub sweep_level-empty :
      (f : ℕ) (px : Price) (w : Work)
      → (w.side.head_idxs 0 == null_idx) ≡ true
      → sweep_level (suc f) px (at w) ≡ some (at w, false)
  sweep_level-empty f px w e = level_round f px (at w) ∙ rw (passive-at w, e)

  pub sweep_level-done :
      (f : ℕ) (px : Price) (w : Work)
      → (w.side.head_idxs 0 == null_idx) ≡ false
      → (w.left == 0) ≡ true
      → sweep_level (suc f) px (at w) ≡ some (at w, false)
  sweep_level-done f px w e z = level_round f px (at w) ∙ rw (passive-at w, e, z)

  pub sweep_level-wall :
      (f : ℕ) (px : Price) (w : Work)
      → (w.side.head_idxs 0 == null_idx) ≡ false
      → (w.left == 0) ≡ false
      → same_account o w.slots (w.side.head_idxs 0) ≡ true
      → sweep_level (suc f) px (at w) ≡ some (at w, true)
  sweep_level-wall f px w e z a =
      level_round f px (at w)
      ∙ rw
          (passive-at w, slots-at w, e, z, same_account-left w.left w.slots (w.side.head_idxs 0), a)

  pub sweep_level-on :
      (f : ℕ) (px : Price) (w w' : Work)
      → (w.side.head_idxs 0 == null_idx) ≡ false
      → (w.left == 0) ≡ false
      → same_account o w.slots (w.side.head_idxs 0) ≡ false
      → fill_head px (at w) ≡ some (at w')
      → sweep_level (suc f) px (at w) ≡ sweep_level f px (at w')
  sweep_level-on f px w w' e z a h =
      level_round f px (at w)
      ∙ rw (
        passive-at w,
        slots-at w,
        e,
        z,
        same_account-left w.left w.slots (w.side.head_idxs 0),
        a,
        h,
      )

  -- The outer loop: at its end, at a wall, and on.
  pub match_loop-done :
      (n f : ℕ) (w : Work) → (w.left == 0) ≡ true → match_loop n (suc f) (at w) ≡ some (at w, false)
  match_loop-done n f w z = match_round n f (at w) ∙ rw z

  pub match_loop-empty :
      (n f : ℕ) (w : Work)
      → (w.left == 0) ≡ false
      → (w.side.count == 0) ≡ true
      → match_loop n (suc f) (at w) ≡ some (at w, false)
  match_loop-empty n f w z e = match_round n f (at w) ∙ rw (passive-at w, z, e)

  pub match_loop-far :
      (n f : ℕ) (w : Work)
      → (w.left == 0) ≡ false
      → (w.side.count == 0) ≡ false
      → out_of_reach o (w.side.prices 0) ≡ true
      → match_loop n (suc f) (at w) ≡ some (at w, false)
  match_loop-far n f w z e r =
      match_round n f (at w)
      ∙ rw (passive-at w, z, e, out_of_reach-left w.left (w.side.prices 0), r)

  pub match_loop-on :
      (n f : ℕ) (w w' : Work) (walled : Bool)
      → (w.left == 0) ≡ false
      → (w.side.count == 0) ≡ false
      → out_of_reach o (w.side.prices 0) ≡ false
      → sweep_level n (w.side.prices 0) (at w) ≡ some (at w', walled)
      → match_loop n (suc f) (at w)
        ≡ (if walled then some (at w', true) else match_loop n f (drop_exhausted (at w')))
  match_loop-on n f w w' walled z e r h =
      match_round n f (at w)
      ∙ rw (passive-at w, z, e, out_of_reach-left w.left (w.side.prices 0), r, h) (after walled)
    where
      after :
          (walled : Bool)
          → next_level n f (some (at w', walled))
            ≡ (if walled then some (at w', true) else match_loop n f (drop_exhausted (at w')))
      after true = refl
      after false = refl
