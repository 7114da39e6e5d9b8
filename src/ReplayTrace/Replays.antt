-- ===== src/ReplayTrace/Replays.antt =====
-- Which traces and fills the replay accepts.
use mathlib.Core.Path.{subst}
use options_engine.Prelude.{
  ℕ, ◌≡◌, ◌≢◌, refl, ap, sym, ◌∙◌, ◌↔◌, ◌⊎◌, inl, inr, Bool, true, false, some, List, [], ◌∷◌, ◌++◌,
  map, arith, ◌==◌, Bool-cases, Option-cases, some-eq, none-ne, append_assoc, append_nil,
}
use options_engine.Prelude.Int.{eqb_ℤ, eqb_ℤ_refl, eqb_ℤ_sound}
use options_engine.Types.{Order, ExecutionReport, ExecType}
use options_engine.OrderBook.State.{Book}
use options_engine.OrderBook.Match.Reports.{All, IsReportOf}
use options_engine.OrderBook.Orders.{Outcome, add_order, cancel_order, modify_order}
use options_engine.OrderBook.Orders.Fills.{add_order-IsAddition}
use options_engine.ReplayTrace.{
  TraceEvent, TraceFill, fills_of, order_of_event, run_event, run_from, same_fill, identical,
  replay_passes,
}

-- A report, as the trace file holds it.
abbrev pub trace_fill : ExecutionReport → TraceFill
trace_fill r = record {
  aggr_id = r.order_id;
  passive_id = r.contra_order_id;
  price = r.exec_price;
  qty = r.exec_qty;
}

-- Run on the book, the events give these fills: each report of each addition in turn, full fills and partial
-- ones.
pub data Replays : Book → List TraceEvent → List TraceFill → Type 0 where
  done : {b : Book} → Replays b [] []
  add :
      {b : Book} {e : TraceEvent} {es : List TraceEvent} {rest : List TraceFill} (out : Outcome)
      → e.kind ≡ 0
      → add_order b (order_of_event e) ≡ some out
      → Replays out.book es rest
      → Replays b (e ∷ es) (map trace_fill out.reports ++ rest)
  cancel :
      {b : Book} {e : TraceEvent} {es : List TraceEvent} {rest : List TraceFill} (b' : Book)
      (found : Bool)
      → e.kind ≡ 1
      → cancel_order b e.id ≡ some (b', found)
      → Replays b' es rest
      → Replays b (e ∷ es) rest
  modify :
      {b : Book} {e : TraceEvent} {es : List TraceEvent} {rest : List TraceFill} (b' : Book)
      (found : Bool)
      → e.kind ≢ 0
      → e.kind ≢ 1
      → modify_order b e.id e.qty ≡ some (b', found)
      → Replays b' es rest
      → Replays b (e ∷ es) rest

-- Every report of an addition is a fill or a partial fill, so none is left out.
fills_of-map :
    (symbol : ℕ) (o : Order) (rs : List ExecutionReport)
    → All (IsReportOf symbol o) rs
    → fills_of rs ≡ map trace_fill rs
unfolding fills_of
fills_of-map symbol o [] v = refl
fills_of-map symbol o (r ∷ rs) v = elim (Bool-cases (r.leaves_qty == 0)) [
  | inl t ↦
      let full : r.exec_type ≡ ExecType.fill = v.0.kind ∙ rw t in
      rw full (ap (λ fs. trace_fill r ∷ fs) (fills_of-map symbol o rs v.1))
  | inr t ↦
      let part : r.exec_type ≡ ExecType.partial_fill = v.0.kind ∙ rw t in
      rw part (ap (λ fs. trace_fill r ∷ fs) (fills_of-map symbol o rs v.1))
]

-- What one event leaves of the book, and the fills that it gives.
data Event (b : Book) (e : TraceEvent) : Book → List TraceFill → Type 0 where
  add :
      (out : Outcome)
      → e.kind ≡ 0
      → add_order b (order_of_event e) ≡ some out
      → Event b e out.book (map trace_fill out.reports)
  cancel :
      (b' : Book) (found : Bool)
      → e.kind ≡ 1
      → cancel_order b e.id ≡ some (b', found)
      → Event b e b' []
  modify :
      (b' : Book) (found : Bool)
      → e.kind ≢ 0
      → e.kind ≢ 1
      → modify_order b e.id e.qty ≡ some (b', found)
      → Event b e b' []

test-cases : (a b : ℕ) → ((a ≡ b) × ((a == b) ≡ true)) ⊎ ((a ≢ b) × ((a == b) ≡ false))
test-cases a b = ground arith

run_event-Event :
    (b : Book) (e : TraceEvent) (b' : Book) (fs : List TraceFill)
    → run_event b e ≡ some (b', fs)
    → Event b e b' fs
unfolding run_event
run_event-Event b e b' fs h = elim (test-cases e.kind 0) [
  | inl (k, t) ↦ elim (Option-cases (add_order b (order_of_event e))) [
    | inl n ↦ none-ne (rw (t, n, run_event) at h)
    | inr (out, n) ↦
        let same = some-eq (rw (t, n, run_event) at h) in
        let all = (add_order-IsAddition b (order_of_event e) n).reports in
        subst (λ r. Event b e r.0 r.1) same
          (subst (Event b e out.book)
            (sym (fills_of-map b.symbol (order_of_event e) out.reports all)) (Event.add out k n))
  ]
  | inr (k, t) ↦ elim (test-cases e.kind 1) [
    | inl (k1, t1) ↦ elim (Option-cases (cancel_order b e.id)) [
      | inl n ↦ none-ne (rw (t, t1, n, run_event) at h)
      | inr ((b1, found), n) ↦
          subst (λ r. Event b e r.0 r.1) (some-eq (rw (t, t1, n, run_event) at h))
            (Event.cancel b1 found k1 n)
    ]
    | inr (k1, t1) ↦ elim (Option-cases (modify_order b e.id e.qty)) [
      | inl n ↦ none-ne (rw (t, t1, n, run_event) at h)
      | inr ((b1, found), n) ↦
          subst (λ r. Event b e r.0 r.1) (some-eq (rw (t, t1, n, run_event) at h))
            (Event.modify b1 found k k1 n)
    ]
  ]
]

Event-run_event :
    (b : Book) (e : TraceEvent) (b' : Book) (fs : List TraceFill)
    → Event b e b' fs
    → run_event b e ≡ some (b', fs)
unfolding run_event
Event-run_event b e _ _ (Event.add out k n) =
    let t : (e.kind == 0) ≡ true = ground arith in
    rw (t, n)
      (ap (λ fs. some (out.book, fs))
        (fills_of-map b.symbol (order_of_event e) out.reports
          (add_order-IsAddition b (order_of_event e) n).reports))
Event-run_event b e _ _ (Event.cancel b' found k n) =
    let t : (e.kind == 0) ≡ false = ground arith in
    let u : (e.kind == 1) ≡ true = ground arith in rw (t, u, n)
Event-run_event b e _ _ (Event.modify b' found k k1 n) =
    let t : (e.kind == 0) ≡ false = ground arith in
    let u : (e.kind == 1) ≡ false = ground arith in rw (t, u, n)

Event-Replays :
    (b : Book) (e : TraceEvent) (b' : Book) (fs : List TraceFill) (es : List TraceEvent)
    (rest : List TraceFill)
    → Event b e b' fs
    → Replays b' es rest
    → Replays b (e ∷ es) (fs ++ rest)
Event-Replays b e _ _ es rest (Event.add out k n) v = Replays.add out k n v
Event-Replays b e _ _ es rest (Event.cancel b' found k n) v = Replays.cancel b' found k n v
Event-Replays b e _ _ es rest (Event.modify b' found k k1 n) v = Replays.modify b' found k k1 n v

run_from-Replays :
    (b : Book) (es : List TraceEvent) (out : List TraceFill) {r : List TraceFill}
    → run_from b es out ≡ some r
    → (rest : List TraceFill) × (r ≡ out ++ rest) × Replays b es rest
unfolding run_from
run_from-Replays b [] out h = ([], sym (some-eq h) ∙ sym (append_nil out), Replays.done)
run_from-Replays b (e ∷ es) out h = elim (Option-cases (run_event b e)) [
  | inl n ↦ none-ne (rw (n, run_from) at h)
  | inr ((b', fs), n) ↦
      let (rest, same, v) = run_from-Replays b' es (out ++ fs) (rw (n, run_from) at h) in
      (
        fs ++ rest,
        same ∙ append_assoc out fs rest,
        Event-Replays b e b' fs es rest (run_event-Event b e b' fs n) v,
      )
]

then_run :
    (b : Book) (e : TraceEvent) {b' : Book} {fs : List TraceFill} (es : List TraceEvent)
    (out rest : List TraceFill)
    → Event b e b' fs
    → run_from b' es (out ++ fs) ≡ some ((out ++ fs) ++ rest)
    → run_from b (e ∷ es) out ≡ some (out ++ (fs ++ rest))
unfolding run_from
then_run b e {b'} {fs} es out rest v h =
    rw (Event-run_event b e b' fs v, run_from) (h ∙ ap some (append_assoc out fs rest))

Replays-run_from :
    (b : Book) (es : List TraceEvent) (out : List TraceFill) {rest : List TraceFill}
    → Replays b es rest
    → run_from b es out ≡ some (out ++ rest)
unfolding run_from
Replays-run_from b _ out Replays.done = ap some (sym (append_nil out))
Replays-run_from b _ out (Replays.add {e = e} {es} {rest} o k n v) =
    then_run b e es out rest (Event.add o k n)
      (Replays-run_from o.book es (out ++ map trace_fill o.reports) v)
Replays-run_from b _ out (Replays.cancel {e = e} {es} {rest} b' found k n v) =
    then_run b e es out rest (Event.cancel b' found k n) (Replays-run_from b' es (out ++ []) v)
Replays-run_from b _ out (Replays.modify {e = e} {es} {rest} b' found k k1 n v) =
    then_run b e es out rest (Event.modify b' found k k1 n) (Replays-run_from b' es (out ++ []) v)

eqb_sound : (a b : ℕ) → (a == b) ≡ true → a ≡ b
eqb_sound a b e = ground arith

eqb_refl : (n : ℕ) → (n == n) ≡ true
eqb_refl n = ground arith

same_fill_refl : (f : TraceFill) → same_fill f f ≡ true
unfolding same_fill
same_fill_refl f =
    rw (eqb_refl f.aggr_id, eqb_refl f.passive_id, eqb_ℤ_refl f.price, eqb_refl f.qty)

same_fill_sound : (f g : TraceFill) → same_fill f g ≡ true → f ≡ g
unfolding same_fill
same_fill_sound f g e = elim (Bool-cases (f.aggr_id == g.aggr_id)) [
  | inr t ↦ cc
  | inl t ↦ elim (Bool-cases (f.passive_id == g.passive_id)) [
    | inr u ↦ cc
    | inl u ↦ elim (Bool-cases (eqb_ℤ f.price g.price)) [
      | inr v ↦ cc
      | inl v ↦
          let w : (f.qty == g.qty) ≡ true = rw (t, u, v) at e in
          fill_path (eqb_sound f.aggr_id g.aggr_id t) (eqb_sound f.passive_id g.passive_id u)
            (eqb_ℤ_sound f.price g.price v) (eqb_sound f.qty g.qty w)
    ]
  ]
]
  where
    fill_path :
        {f g : TraceFill}
        → f.aggr_id ≡ g.aggr_id
        → f.passive_id ≡ g.passive_id
        → f.price ≡ g.price
        → f.qty ≡ g.qty
        → f ≡ g
    fill_path p q r s i = record { aggr_id = p i; passive_id = q i; price = r i; qty = s i }

identical_refl : (fs : List TraceFill) → identical fs fs ≡ true
unfolding identical
identical_refl [] = refl
identical_refl (f ∷ fs) = rw (same_fill_refl f, identical_refl fs)

identical_sound : (fs gs : List TraceFill) → identical fs gs ≡ true → fs ≡ gs
unfolding identical
identical_sound [] [] e = refl
identical_sound [] (g ∷ gs) e = cc
identical_sound (f ∷ fs) [] e = cc
identical_sound (f ∷ fs) (g ∷ gs) e = elim (Bool-cases (same_fill f g)) [
  | inr t ↦ cc
  | inl t ↦ rw (same_fill_sound f g t, identical_sound fs gs (rw t at e))
]

-- A replay on a book passes exactly when the recorded fills are those that the events give on it.
pub replay_passes_iff :
    (fresh : Book) (trace : List TraceEvent) (expected : List TraceFill)
    → (replay_passes fresh trace expected ≡ some true) ↔ Replays fresh trace expected
unfolding replay_passes
replay_passes_iff fresh trace expected =
    (passed, λ v. rw (replay_passes, Replays-run_from fresh trace [] v, identical_refl expected))
  where
    passed : replay_passes fresh trace expected ≡ some true → Replays fresh trace expected
    passed h = elim (Option-cases (run_from fresh trace [])) [
      | inl n ↦ none-ne (rw (n, replay_passes) at h)
      | inr (actual, n) ↦
          let (rest, same, v) = run_from-Replays fresh trace [] n in
          subst (Replays fresh trace)
            (sym same ∙ identical_sound actual expected (some-eq (rw (n, replay_passes) at h))) v
    ]
