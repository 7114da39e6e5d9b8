-- ===== src/MarketData/Ingest/Gaps.antt =====
-- Gap detection over a run of datagrams.
use options_engine.Prelude.{
  ℕ, ◌+◌, ◌-◌, ◌<◌, ◌≡◌, List, [], ◌∷◌, arith, ◌==◌, if◌then◌else◌, length,
}
use options_engine.Prelude.Words.{u64_mod, add64_exact}
use options_engine.MarketData.Ingest.{Ingestion, note_sequence}

-- Gap detection on each number in turn.
unfoldable pub note_all : Ingestion → List ℕ → Ingestion
note_all s [] = s
note_all s (n ∷ ns) = note_all (note_sequence s n) ns

-- How many numbers do not follow the one before, which is `prev`.
unfoldable pub breaks : ℕ → List ℕ → ℕ
breaks prev [] = 0
breaks prev (n ∷ ns) = (if n == prev + 1 then 0 else 1) + breaks n ns

abbrev pub AllBelow : ℕ → List ℕ → Type 0
AllBelow k [] = Unit {0}
AllBelow k (n ∷ ns) = (n < k) × AllBelow k ns

note_sequence-next :
    (s : Ingestion) (prev n : ℕ)
    → s.expected_seq ≡ prev + 1
    → s.stat_gaps + 1 < u64_mod
    → (note_sequence s n).stat_gaps ≡ s.stat_gaps + (if n == prev + 1 then 0 else 1)
unfolding note_sequence
note_sequence-next s prev n e room = ground (arith, add64_exact s.stat_gaps 1)

note_sequence-expected :
    (s : Ingestion) (n : ℕ) → n + 1 < u64_mod → (note_sequence s n).expected_seq ≡ n + 1
unfolding note_sequence
note_sequence-expected s n h = add64_exact n 1 h

note_all-breaks :
    (s : Ingestion) (prev : ℕ) (ns : List ℕ)
    → s.expected_seq ≡ prev + 1
    → AllBelow (u64_mod - 1) ns
    → s.stat_gaps + length ns < u64_mod
    → (note_all s ns).stat_gaps ≡ s.stat_gaps + breaks prev ns
unfolding note_all breaks
note_all-breaks s prev [] e small room = omega arith
note_all-breaks s prev (n ∷ ns) e small room =
    let next = note_sequence-next s prev n e (omega arith) in
    let ih =
      note_all-breaks (note_sequence s n) n ns (note_sequence-expected s n (omega arith)) small.1
        (ground arith) in
    ground (arith, next, ih)

-- From a fresh start, over fewer than 2 ^ 64 sequence numbers below 2 ^ 64 - 1, the gaps counted are
-- the breaks in the run: one for each number that is not its forerunner plus one. The first number is
-- never a gap.
pub note_all-gaps :
    (s : Ingestion) (n : ℕ) (ns : List ℕ)
    → s.expected_seq ≡ 0
    → s.stat_gaps ≡ 0
    → AllBelow (u64_mod - 1) (n ∷ ns)
    → length ns < u64_mod
    → (note_all s (n ∷ ns)).stat_gaps ≡ breaks n ns
unfolding note_all
note_all-gaps s n ns e g small room =
    let first : (note_sequence s n).stat_gaps ≡ 0 = none_first in
    let run =
      note_all-breaks (note_sequence s n) n ns (note_sequence-expected s n (omega arith)) small.1
        (omega arith) in
    omega (arith, run, first)
  where
    none_first : (note_sequence s n).stat_gaps ≡ 0
    none_first = unfold note_sequence in ground arith
