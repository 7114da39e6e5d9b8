-- ===== src/OrderBook/Links/Tests.antt =====
-- A queue of three orders.
use options_engine.Prelude.{ℕ, ◌≡◌, ◌≢◌, refl, ◌+◌, [], ◌∷◌, arith, ◌==◌, if◌then◌else◌}
use options_engine.Prelude.Int.{pos}
use options_engine.Prelude.Arrays.{update}
use options_engine.OrderBook.Levels.{Levels, null_idx}
use options_engine.OrderBook.Slots.{Slots}
use options_engine.OrderBook.State.{unlink}
use options_engine.OrderBook.Links.{IsLinked, unlink-IsLinked}

-- One level with the slots 0, 1 and 2.
abbrev side : Levels
side = record {
  prices = λ _. pos 100;
  qtys = λ _. 15;
  order_counts = λ _. 3;
  head_idxs = λ _. 0;
  tail_idxs = λ _. 2;
  count = 1;
}

abbrev slots : Slots
slots = record {
  ids = λ i. i + 11;
  qtys = λ _. 5;
  nexts = λ i. if i == 0 then 1 else if i == 1 then 2 else null_idx;
  prevs = λ i. if i == 1 then 0 else if i == 2 then 1 else null_idx;
  free_nexts = λ _. null_idx;
  prices = λ _. pos 100;
  accounts = λ i. i + 1;
  free_head = null_idx;
  used = 3;
}

three-IsLinked : IsLinked side slots 0 (0 ∷ 1 ∷ 2 ∷ [])
unfolding update
three-IsLinked = record {
  links = (refl, refl, (refl, refl, (refl, refl, (refl, refl))));
  distinct = (
    (omega arith, (omega arith, (omega arith, tt))),
    ((omega arith, (omega arith, tt)), ((omega arith, tt), (tt, tt))),
  );
}

unlink-IsLinked_example :
    IsLinked (unlink side slots 0 1).0 (unlink side slots 0 1).1 0 (0 ∷ 2 ∷ [])
    × ((l : ℕ)
        → 0 ≢ l
        → ((unlink side slots 0 1).0.head_idxs l ≡ side.head_idxs l)
          × ((unlink side slots 0 1).0.tail_idxs l ≡ side.tail_idxs l))
unlink-IsLinked_example = unlink-IsLinked side slots 0 1 (0 ∷ []) (2 ∷ []) three-IsLinked

joined_ends : ((unlink side slots 0 1).1.nexts 0 ≡ 2) × ((unlink side slots 0 1).1.prevs 2 ≡ 0)
unfolding unlink update
joined_ends = (refl, refl)
