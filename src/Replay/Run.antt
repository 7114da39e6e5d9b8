-- ===== src/Replay/Run.antt =====
-- include/core/replay.hpp, `OrderFlowReplay::replay`. The engine runs in another thread, so whether the
-- `i`-th event is submitted within the 1000 spins and whether a report is then at hand are arguments,
-- as is the number of reports left at the end; pacing and latency are left out.
pub mod Counts
use options_engine.Prelude.{
  ℕ, zero, suc, ◌+◌, Bool, true, false, ◌&&◌, Option, none, some, List, [], ◌∷◌, leb, ◌==◌,
  if◌then◌else◌,
}
use options_engine.Prelude.Words.{add64}
use options_engine.Types.{MarketDataMsg}
use options_engine.Replay.Trace.{TraceHeader, TraceEvent, trace_magic, trace_event_to_msg}

pub record ReplayResult : Type 0 where
  pub events_replayed : ℕ
  pub events_skipped : ℕ
  pub matches_generated : ℕ

module _ (submitted : ℕ → MarketDataMsg → Bool) (polled : ℕ → Bool) (warmup_events : ℕ) where
  -- One round of the loop.
  unfoldable pub replay_event : ℕ → TraceEvent → ReplayResult → ReplayResult
  replay_event i ev r =
      let got = leb warmup_events i && polled i in
      if submitted i (trace_event_to_msg ev)
      then record r {
        matches_generated = if got then add64 r.matches_generated 1 else r.matches_generated;
        events_replayed = add64 r.events_replayed 1;
      }
      else record r { events_skipped = add64 r.events_skipped 1 }

  -- `n` events are announced and `evs` can be read; the loop stops at the first short read.
  unfoldable pub replay_loop : ℕ → ℕ → List TraceEvent → ReplayResult → ReplayResult
  unfolding replay_event
  replay_loop i zero evs r = r
  replay_loop i (suc n) [] r = r
  replay_loop i (suc n) (ev ∷ evs) r = replay_loop (i + 1) n evs (replay_event i ev r)

  -- `none` is the result false: no file, no header, or a wrong magic number.
  unfoldable pub replay :
      Option (TraceHeader × List TraceEvent) → ℕ → ReplayResult → Option ReplayResult
  unfolding replay_loop
  replay none left r = none
  replay (some (hdr, evs)) left r =
      let r' = replay_loop 0 hdr.event_count evs r in
      if hdr.magic == trace_magic
      then some (record r' { matches_generated = add64 r'.matches_generated left })
      else none
