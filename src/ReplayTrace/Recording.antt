-- ===== src/ReplayTrace/Recording.antt =====
-- The events that are recorded.
use native.Mathlib.Nat.{mod-lt}
use options_engine.Prelude.{
  ℕ, zero, suc, ◌+◌, ◌%◌, ◌≤◌, ◌<◌, ◌≡◌, ◌⊎◌, refl, ap, inl, inr, false, ◌||◌, List, [], ◌∷◌, ◌++◌,
  arith, ltb, ◌==◌, if◌then◌else◌, length, get_or, Bool-cases,
}
use options_engine.ReplayTrace.{TraceEvent}
use options_engine.ReplayTrace.Generate.{
  Source, no_live, type_of_draw, draw_add, draw_id, draw_cancel, draw_modify, draw_event,
  draw_stream, stream,
}

abbrev pub Among : ℕ → List ℕ → Type 0
Among x [] = ⊥
Among x (y ∷ ys) = (x ≡ y) ⊎ Among x ys

-- `live` are the ids of the limit orders added before, `next` the next id. The additions number
-- their orders in turn, with 1 to 500 shares and one of the four types; an order that is cancelled or
-- modified is a limit order added before.
pub data IsStream : List ℕ → ℕ → List TraceEvent → Type 0 where
  done : {live : List ℕ} {next : ℕ} → IsStream live next []
  add :
      {live : List ℕ} {next : ℕ} {e : TraceEvent} {es : List TraceEvent}
      → e.kind ≡ 0
      → e.id ≡ next
      → 0 < e.qty
      → e.qty ≤ 500
      → e.type ≤ 3
      → IsStream (if e.type == 0 then live ++ next ∷ [] else live) (next + 1) es
      → IsStream live next (e ∷ es)
  edit :
      {live : List ℕ} {next : ℕ} {e : TraceEvent} {es : List TraceEvent}
      → (e.kind ≡ 1) ⊎ ((e.kind ≡ 2) × (e.qty < 800))
      → Among e.id live
      → IsStream live next es
      → IsStream live next (e ∷ es)

get_or-Among : (xs : List ℕ) (i d : ℕ) → i < length xs → Among (get_or xs i d) xs
get_or-Among [] i d h = absurd (omega (arith, h))
get_or-Among (x ∷ xs) zero d h = inl refl
get_or-Among (x ∷ xs) (suc i) d h = inr (get_or-Among xs i d (omega (arith, h)))

module _ {S : Type 0} (rng : S → ℕ × S) where
  draw_id-Among : (g : Source S) → no_live g.live ≡ false → Among (draw_id rng g).0 g.live
  unfolding draw_id
  draw_id-Among g some_live =
      get_or-Among g.live ((rng g.state).0 % length g.live) 0
        (mod-lt (rng g.state).0 (positive g.live some_live))
    where
      positive : (xs : List ℕ) → no_live xs ≡ false → 0 < length xs
      positive [] e = cc
      positive (x ∷ xs) e = omega arith

  abbrev Follows : Source S → TraceEvent × Source S → Type 0
  Follows g r =
      (es : List TraceEvent)
      → IsStream (r.1).live (r.1).next_id es
      → IsStream g.live g.next_id (r.0 ∷ es)

  type_of_draw-le : (t : ℕ) → type_of_draw rng t ≤ 3
  unfolding type_of_draw
  type_of_draw-le t = ground arith

  draw_add-Follows : (g : Source S) → Follows g (draw_add rng g)
  unfolding draw_add
  draw_add-Follows g es v =
      IsStream.add {e = (draw_add rng g).0} refl refl (omega arith) (omega arith)
        (type_of_draw-le ((rng (rng (rng (rng g.state).1).1).1).0 % 100)) v

  draw_cancel-Follows : (g : Source S) → no_live g.live ≡ false → Follows g (draw_cancel rng g)
  unfolding draw_cancel
  draw_cancel-Follows g some_live es v = IsStream.edit (inl refl) (draw_id-Among g some_live) v

  draw_modify-Follows : (g : Source S) → no_live g.live ≡ false → Follows g (draw_modify rng g)
  unfolding draw_modify
  draw_modify-Follows g some_live es v =
      IsStream.edit (inr (refl, omega arith)) (draw_id-Among g some_live) v

  drawn :
      (g : Source S) (s : S) (roll : ℕ)
      → let g' : Source S = record g { state = s } in
        Follows g (
          if ltb roll 70 || no_live g.live
          then draw_add rng g'
          else if ltb roll 90
          then draw_cancel rng g'
          else draw_modify rng g')
  drawn g s roll es =
      let g' : Source S = record g { state = s } in
      elim (Bool-cases (no_live g.live)) [
        | inl none_live ↦ elim (Bool-cases (ltb roll 70)) [
          | inl t ↦ rw t (draw_add-Follows g' es)
          | inr t ↦ rw (t, none_live) (draw_add-Follows g' es)
        ]
        | inr some_live ↦ elim (Bool-cases (ltb roll 70)) [
          | inl t ↦ rw t (draw_add-Follows g' es)
          | inr t ↦ elim (Bool-cases (ltb roll 90)) [
            | inl u ↦ rw (t, some_live, u) (draw_cancel-Follows g' some_live es)
            | inr u ↦ rw (t, some_live, u) (draw_modify-Follows g' some_live es)
          ]
        ]
      ]

  draw_event-Follows : (g : Source S) → Follows g (draw_event rng g)
  unfolding draw_event
  draw_event-Follows g = drawn g (rng g.state).1 ((rng g.state).0 % 100)

  draw_stream-IsStream : (n : ℕ) (g : Source S) → IsStream g.live g.next_id (draw_stream rng n g)
  unfolding draw_stream
  draw_stream-IsStream zero g = IsStream.done
  draw_stream-IsStream (suc n) g =
      draw_event-Follows g (draw_stream rng n (draw_event rng g).1)
        (draw_stream-IsStream n (draw_event rng g).1)

  draw_stream-length : (n : ℕ) (g : Source S) → length (draw_stream rng n g) ≡ n
  unfolding draw_stream
  draw_stream-length zero g = refl
  draw_stream-length (suc n) g = ap suc (draw_stream-length n (draw_event rng g).1)

  -- Whatever numbers the generator gives, the recorded stream has as many events as were asked for; its
  -- additions have the ids 1, 2, and so on, 1 to 500 shares and one of the four order types; and each order
  -- that it cancels or modifies is a limit order that it has added before.
  pub stream-IsStream :
      (s : S) (n : ℕ) → (length (stream rng s n) ≡ n) × IsStream [] 1 (stream rng s n)
  unfolding stream
  stream-IsStream s n =
      let g : Source S = record { state = s; live = []; next_id = 1 } in
      (draw_stream-length n g, draw_stream-IsStream n g)
