-- ===== src/OrderBook/Index/Probe.antt =====
-- `OrderIndex::probe`: where the walk from an id's home ends, and that it ends.
use native.Mathlib.Nat.{mod-add-mod}
use options_engine.Prelude.{
  ℕ, zero, suc, ◌+◌, ◌-◌, ◌%◌, ◌≤◌, ◌<◌, ◌≡◌, refl, ap, sym, ◌∙◌, ◌≢◌, ◌⊎◌, inl, inr, true, false,
  some, arith, Bool-cases, ℕ_discrete, dec_lt,
}
use mathlib.Core.Path.{subst}
use options_engine.Types.{OrderId}
use options_engine.OrderBook.Index.{
  Entry, Table, table_size, empty_slot, home, taken_by_other, probe_from, probe,
}

abbrev pub Occupied : Entry → Type 0
Occupied e = e.slot ≢ empty_slot

abbrev pub Vacant : Entry → Type 0
Vacant e = e.slot ≡ empty_slot

-- The entry holds another id, so that a walk for `id` goes on.
abbrev pub Other : Entry → OrderId → Type 0
Other e id = Occupied e × (e.key ≢ id)

abbrev pub Ends : Entry → OrderId → Type 0
Ends e id = Vacant e ⊎ (e.key ≡ id)

Other-taken : (e : Entry) (id : OrderId) → Other e id → taken_by_other e id ≡ true
unfolding taken_by_other
Other-taken e id (o, k) = ground arith

pub Ends-taken : (e : Entry) (id : OrderId) → Ends e id → taken_by_other e id ≡ false
unfolding taken_by_other
Ends-taken e id h = ground arith

pub taken-Other : (e : Entry) (id : OrderId) → taken_by_other e id ≡ true → Other e id
unfolding taken_by_other
taken-Other e id h = ground arith

pub taken-Ends : (e : Entry) (id : OrderId) → taken_by_other e id ≡ false → Ends e id
unfolding taken_by_other
taken-Ends e id h = ground arith

-- The place `d` steps on from `a`, going round at the end of the table.
unfoldable pub place : ℕ → ℕ → ℕ
place a d = (a + d) % table_size

pub place-lt : (a d : ℕ) → place a d < table_size
unfolding place
place-lt a d = omega arith

pub place-place : (a c d : ℕ) → place (place a c) d ≡ place a (c + d)
unfolding place
place-place a c d = mod-add-mod (a + c) table_size d ∙ ap (λ n. n % table_size) (omega arith)

pub place-zero : (a : ℕ) → a < table_size → place a 0 ≡ a
unfolding place
place-zero a h = omega arith

pub place-ne : (a c d : ℕ) → c < d → d < table_size → place a c ≢ place a d
unfolding place
place-ne a c d lt small e = omega arith

-- Every place is met within one round.
pub place-onto :
    (a i : ℕ) → a < table_size → i < table_size → (d : ℕ) × (d < table_size) × (place a d ≡ i)
unfolding place
place-onto a i h k = ((i + table_size - a) % table_size, omega arith, omega arith)

pub home-lt : (id : OrderId) → home id < table_size
unfolding home
home-lt id = omega arith

-- The walk for `id` passes `d` entries of other ids and ends at the next.
pub record Lands (t : Table) (id : OrderId) (d : ℕ) : Type 0 where
  pub small : d < table_size
  pub busy : (e : ℕ) → e < d → Other (t (place (home id) e)) id
  pub ends : Ends (t (place (home id) d)) id

pub next-place : (a c : ℕ) → (place a c + 1) % table_size ≡ place a (c + 1)
unfolding place
next-place a c = mod-add-mod (a + c) table_size 1 ∙ ap (λ n. n % table_size) (omega arith)

probe_from-Ends :
    (n : ℕ) (t : Table) (id : OrderId) (a c d : ℕ)
    → c ≤ d
    → d < c + n
    → ((e : ℕ) → c ≤ e → e < d → Other (t (place a e)) id)
    → Ends (t (place a d)) id
    → probe_from n t id (place a c) ≡ some (place a d)
unfolding probe_from
probe_from-Ends zero t id a c d lo hi busy ends = absurd (omega arith)
probe_from-Ends (suc n) t id a c d lo hi busy ends = elim (ℕ_discrete c d) [
  | yes q ↦ rw (q, Ends-taken (t (place a d)) id ends) refl
  | no q ↦
      rw (Other-taken (t (place a c)) id (busy c (omega arith) (omega arith)), next-place a c)
        (probe_from-Ends n t id a (c + 1) d (omega arith) (omega arith)
          (λ e l h. busy e (omega arith) h) ends)
]

-- Where the walk ends, or that all it passes are of other ids.
probe_from-cases :
    (n : ℕ) (t : Table) (id : OrderId) (a c : ℕ)
    → ((d : ℕ) × (c ≤ d)
        × (d < c + n)
        × ((e : ℕ) → c ≤ e → e < d → Other (t (place a e)) id)
        × Ends (t (place a d)) id)
      ⊎ ((e : ℕ) → c ≤ e → e < c + n → Other (t (place a e)) id)
probe_from-cases zero t id a c = inr (λ e lo hi. absurd (omega arith))
probe_from-cases (suc n) t id a c = elim (Bool-cases (taken_by_other (t (place a c)) id)) [
  | inr f ↦ inl (
    c,
    omega arith,
    omega arith,
    λ e lo hi. absurd (omega arith),
    taken-Ends (t (place a c)) id f,
  )
  | inl f ↦
      let here = taken-Other (t (place a c)) id f in
      elim (probe_from-cases n t id a (c + 1)) [
        | inl (d, lo, hi, busy, ends) ↦ inl (d, omega arith, omega arith, also here d busy, ends)
        | inr busy ↦ inr (also here (c + suc n) (λ e l h. busy e l (omega arith)))
      ]
]
  where
    also :
        Other (t (place a c)) id
        → (d : ℕ) → ((e : ℕ) → c + 1 ≤ e → e < d → Other (t (place a e)) id)
        → (e : ℕ) → c ≤ e
        → e < d
        → Other (t (place a e)) id
    also here d busy e lo hi = elim (ℕ_discrete c e) [
      | yes q ↦ subst (λ x. Other (t (place a x)) id) q here
      | no q ↦ busy e (omega arith) hi
    ]

module _ (t : Table) (id : OrderId) where
  pub probe-Lands : (d : ℕ) → Lands t id d → probe t id ≡ some (place (home id) d)
  unfolding probe
  probe-Lands d v =
      ap (probe_from table_size t id) (sym (place-zero (home id) (home-lt id)))
      ∙ probe_from-Ends table_size t id (home id) 0 d (omega arith) v.small (λ e l h. v.busy e h)
          v.ends

  -- With a vacant entry the walk ends.
  pub Vacant-Lands : (i : ℕ) → i < table_size → Vacant (t i) → (d : ℕ) × Lands t id d
  Vacant-Lands i h v = elim (probe_from-cases table_size t id (home id) 0) [
    | inl (d, lo, hi, busy, ends) ↦
        (d, record { small = hi; busy = λ e k. busy e (omega arith) k; ends = ends })
    | inr busy ↦
        let (d, k, e) = place-onto (home id) i (home-lt id) h in
        absurd ((busy d (omega arith) k).0 (ap (λ x. (t x).slot) e ∙ v))
  ]

  -- It ends no later than at the first entry that could end it.
  pub Lands-le : (d k : ℕ) → Lands t id d → Ends (t (place (home id) k)) id → d ≤ k
  Lands-le d k v h = elim (dec_lt k d) [
    | no p ↦ omega arith
    | yes p ↦ elim h [ inl e ↦ absurd ((v.busy k p).0 e) | inr e ↦ absurd ((v.busy k p).1 e) ]
  ]
