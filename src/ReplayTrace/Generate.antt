-- ===== src/ReplayTrace/Generate.antt =====
-- tools/replay_trace.cpp, `cmd_record`: the random stream of events. `std::mt19937_64` is a parameter: its
-- state `S`, and `rng`, the next 64-bit number. `to_price(100.0)` is 100,000,000 exactly.
use options_engine.Prelude.{
  ℕ, zero, suc, ◌+◌, ◌-◌, ◌*◌, ◌%◌, Bool, true, false, ◌||◌, Option, none, some, List, [], ◌∷◌,
  ◌++◌, ltb, ◌==◌, if◌then◌else◌, length, get_or,
}
use options_engine.Prelude.Int.{pos}
use options_engine.OrderBook.State.{Book}
use options_engine.ReplayTrace.{TraceEvent, TraceFill, run_from}

-- The generator's state, the ids of the limit orders added so far, and the next id.
pub record Source (S : Type 0) : Type 0 where
  pub state : S
  pub live : List ℕ
  pub next_id : ℕ

-- The two files that `cmd_record` writes.
pub record Recording : Type 0 where
  pub trace : List TraceEvent
  pub fills : List TraceFill

abbrev pub no_live : List ℕ → Bool
no_live [] = true
no_live (x ∷ xs) = false

module _ {S : Type 0} (rng : S → ℕ × S) where
  -- `(rng() % 100 < 30) ? uint32_t(1 + rng() % 8) : 0`
  unfoldable pub draw_account : S → ℕ × S
  draw_account s =
      let (a, s1) = rng s in
      let (c, s2) = rng s1 in if ltb (a % 100) 30 then (1 + c % 8, s2) else (0, s1)

  -- Limit, Market, IOC or FOK.
  unfoldable pub type_of_draw : ℕ → ℕ
  type_of_draw t = if ltb t 80 then 0 else if ltb t 88 then 1 else if ltb t 95 then 2 else 3

  -- The first branch: an addition. The price is above 0, so the difference on ℕ is that of the code.
  unfoldable pub draw_add : Source S → TraceEvent × Source S
  unfolding draw_account type_of_draw
  draw_add g =
      let (side, s1) = rng g.state in
      let (price, s2) = rng s1 in
      let (qty, s3) = rng s2 in
      let (t, s4) = rng s3 in
      let (account, s5) = draw_account s4 in
      let type = type_of_draw (t % 100) in
      (
        record {
          kind = 0;
          side = if side % 2 == 1 then 0 else 1;
          type = type;
          id = g.next_id;
          price = pos (100000000 + price % 41 * 10000 - 200000);
          qty = 1 + qty % 500;
          account_id = account;
        },
        record {
          state = s5;
          live = if type == 0 then g.live ++ g.next_id ∷ [] else g.live;
          next_id = g.next_id + 1;
        },
      )

  -- `live[rng() % live.size()]`
  unfoldable pub draw_id : Source S → ℕ × S
  draw_id g = let (r, s) = rng g.state in (get_or g.live (r % length g.live) 0, s)

  unfoldable pub draw_cancel : Source S → TraceEvent × Source S
  unfolding draw_id
  draw_cancel g =
      let (id, s) = draw_id g in
      (
        record { kind = 1; side = 0; type = 0; id = id; price = pos 0; qty = 0; account_id = 0 },
        record g { state = s },
      )

  unfoldable pub draw_modify : Source S → TraceEvent × Source S
  unfolding draw_id
  draw_modify g =
      let (id, s) = draw_id g in
      let (qty, s1) = rng s in
      (
        record {
          kind = 2;
          side = 0;
          type = 0;
          id = id;
          price = pos 0;
          qty = qty % 800;
          account_id = 0;
        },
        record g { state = s1 },
      )

  -- A round of the loop.
  unfoldable pub draw_event : Source S → TraceEvent × Source S
  unfolding draw_add draw_cancel draw_modify
  draw_event g =
      let (r, s) = rng g.state in
      let roll = r % 100 in
      let g' = record g { state = s } in
      if ltb roll 70 || no_live g.live
      then draw_add g'
      else if ltb roll 90
      then draw_cancel g'
      else draw_modify g'

  unfoldable pub draw_stream : ℕ → Source S → List TraceEvent
  unfolding draw_event
  draw_stream zero g = []
  draw_stream (suc n) g = let (e, g') = draw_event g in e ∷ draw_stream n g'

  -- The stream of `num_events` events that the generator seeded to `s` gives.
  unfoldable pub stream : S → ℕ → List TraceEvent
  unfolding draw_stream
  stream s num_events = draw_stream num_events (record { state = s; live = []; next_id = 1 })

  -- `cmd_record` on a fresh book: the stream, and the fills that running it gives.
  unfoldable pub cmd_record : Book → S → ℕ → Option Recording
  unfolding stream run_from
  cmd_record fresh s num_events =
      let trace = stream s num_events in
      elim (run_from fresh trace []) [
        | none ↦ none
        | some fills ↦ some (record { trace = trace; fills = fills })
      ]
