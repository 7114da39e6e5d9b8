-- ===== src/Spsc/Window.antt =====
-- The items of a ring from a position on, going round at the capacity.
use options_engine.Prelude.{
  ℕ, zero, suc, ◌+◌, ◌%◌, ◌≤◌, ◌<◌, ◌≡◌, refl, ap, sym, ◌≢◌, List, [], ◌∷◌, ◌++◌, arith, length,
}
use options_engine.Prelude.Arrays.{Array, update, update_ne}

-- Positions less than a capacity apart have different indices.
pub mod-ne : (cap a b : ℕ) → 0 < cap → a < b → b < a + cap → a % cap ≢ b % cap
mod-ne cap a b h lo hi e = grind arith

module _ {A : Type 0} (cap : ℕ) where
  -- Positions count on past the capacity; `pos % cap` is the index.
  abbrev pub window : Array A → ℕ → ℕ → List A
  window f pos zero = []
  window f pos (suc n) = f (pos % cap) ∷ window f (pos + 1) n

  pub length-window : (f : Array A) (pos n : ℕ) → length (window f pos n) ≡ n
  length-window f pos zero = refl
  length-window f pos (suc n) = ap suc (length-window f (pos + 1) n)

  -- A write at another index leaves the window.
  pub window-update :
      (f : Array A) (pos n j : ℕ) (v : A)
      → 0 < cap
      → pos + n ≤ j
      → j < pos + cap
      → window (update f (j % cap) v) pos n ≡ window f pos n
  window-update f pos zero j v h lo hi = refl
  window-update f pos (suc n) j v h lo hi = rw (
    update_ne f (j % cap) (pos % cap) v (λ e. mod-ne cap pos j h (omega arith) hi (sym e)),
    window-update f (pos + 1) n j v h (omega arith) (omega arith),
  )

  -- The window one longer.
  pub window-snoc :
      (f : Array A) (pos n : ℕ) → window f pos (suc n) ≡ window f pos n ++ f ((pos + n) % cap) ∷ []
  window-snoc f pos zero = let e : pos + 0 ≡ pos = omega arith in rw e
  window-snoc f pos (suc n) =
      let e : pos + suc n ≡ pos + 1 + n = omega arith in
      rw e (ap (◌∷◌ (f (pos % cap))) (window-snoc f (pos + 1) n))
