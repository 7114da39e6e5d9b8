-- ===== src/Replay/Run/Counts.antt =====
-- `OrderFlowReplay::replay`: every record read is counted as replayed or as skipped.
use options_engine.Prelude.{
  ℕ, zero, suc, ◌+◌, ◌≤◌, ◌<◌, ◌≡◌, Bool, true, some, List, [], ◌∷◌, arith, min, ◌==◌, Bool-cases,
  length, some-eq, none-ne, inl, inr,
}
use options_engine.Prelude.Words.{u64_mod, add64_exact}
use options_engine.Types.{MarketDataMsg}
use options_engine.Replay.Trace.{TraceHeader, TraceEvent, trace_magic}
use options_engine.Replay.Run.{ReplayResult, replay_event, replay_loop, replay}

module _ (submitted : ℕ → MarketDataMsg → Bool) (polled : ℕ → Bool) (warmup_events : ℕ) where
  replay_event-counts :
      (i : ℕ) (ev : TraceEvent) (r : ReplayResult)
      → r.events_replayed + r.events_skipped + 1 < u64_mod
      → r.matches_generated ≤ r.events_replayed
      → let r' = replay_event submitted polled warmup_events i ev r in
        (r'.events_replayed + r'.events_skipped ≡ r.events_replayed + r.events_skipped + 1)
        × (r'.matches_generated ≤ r'.events_replayed)
  unfolding replay_event
  replay_event-counts i ev r h k = ground (
    arith,
    add64_exact r.events_replayed 1,
    add64_exact r.events_skipped 1,
    add64_exact r.matches_generated 1,
  )

  replay_loop-counts :
      (i n : ℕ) (evs : List TraceEvent) (r : ReplayResult)
      → r.events_replayed + r.events_skipped + length evs < u64_mod
      → r.matches_generated ≤ r.events_replayed
      → let r' = replay_loop submitted polled warmup_events i n evs r in
        (r'.events_replayed + r'.events_skipped
          ≡ r.events_replayed + r.events_skipped + min n (length evs))
        × (r'.matches_generated ≤ r'.events_replayed)
  unfolding replay_loop
  replay_loop-counts i zero evs r h k = (omega arith, k)
  replay_loop-counts i (suc n) [] r h k = (omega arith, k)
  replay_loop-counts i (suc n) (ev ∷ evs) r h k =
      let r' = replay_event submitted polled warmup_events i ev r in
      let (a, b) = replay_event-counts i ev r (omega arith) k in
      let (c, d) = replay_loop-counts (i + 1) n evs r' (omega (arith, a)) b in
      (omega (arith, a, c), d)

  -- A replay that returns true and starts from zero has read the right magic number, has counted each
  -- record that the header announces and the file holds once, as replayed or as skipped, and reports
  -- no more matches than events replayed and reports left over, where fewer than 2 ^ 64 of these are
  -- in play.
  pub replay-counts :
      (hdr : TraceHeader) (evs : List TraceEvent) (left : ℕ) {r : ReplayResult}
      → length evs + left < u64_mod
      → replay submitted polled warmup_events
          (some (hdr, evs))
          left
          (record { events_replayed = 0; events_skipped = 0; matches_generated = 0 })
        ≡ some r
      → (hdr.magic ≡ trace_magic)
        × (r.events_replayed + r.events_skipped ≡ min hdr.event_count (length evs))
        × (r.matches_generated ≤ r.events_replayed + left)
  unfolding replay
  replay-counts hdr evs left {r} h e = elim (Bool-cases (hdr.magic == trace_magic)) [
    | inr t ↦ none-ne (rw (t, replay) at e)
    | inl t ↦
        let fresh : ReplayResult = record {
          events_replayed = 0;
          events_skipped = 0;
          matches_generated = 0;
        } in
        let run = replay_loop submitted polled warmup_events 0 hdr.event_count evs fresh in
        let (a, b) = replay_loop-counts 0 hdr.event_count evs fresh (omega arith) (omega arith) in
        let q = some-eq (rw (t, replay) at e) in
        let exact = add64_exact run.matches_generated left (omega (arith, a, b)) in
        (
          test-true hdr.magic trace_magic t,
          rw (← q) (omega (arith, a)),
          rw (← q) (omega (arith, exact, b)),
        )
  ]
    where
      test-true : (a b : ℕ) → (a == b) ≡ true → a ≡ b
      test-true a b p = ground arith
