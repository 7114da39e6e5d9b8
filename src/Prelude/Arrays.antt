-- ===== src/Prelude/Arrays.antt =====
-- `std::array` as a function of the index: a write, a `memmove`, and the list of a prefix.
use options_engine.Prelude.{
  ℕ, zero, suc, ◌+◌, ◌-◌, ◌≡◌, refl, ap, ◌≢◌, ◌&&◌, List, [], ◌∷◌, arith, ltb, leb, ◌==◌,
  if◌then◌else◌, length,
}

abbrev pub Array {ℓ} : Type ℓ → Type ℓ
Array A = ℕ → A

module _ {ℓ} {A : Type ℓ} where
  -- `f[i] = v`
  unfoldable pub update : Array A → ℕ → A → Array A
  update f i v j = if i == j then v else f j

  -- `memmove(&f[dst], &f[src], n)`
  unfoldable pub memmove : Array A → ℕ → ℕ → ℕ → Array A
  memmove f dst src n j = if leb dst j && ltb j (dst + n) then f (j - dst + src) else f j

  -- The elements `f[i], …, f[i + n - 1]`.
  abbrev pub slice : Array A → ℕ → ℕ → List A
  slice f i zero = []
  slice f i (suc n) = f i ∷ slice f (i + 1) n

  pub update_self : (f : Array A) (i : ℕ) (v : A) → update f i v i ≡ v
  unfolding update
  update_self f i v = ground arith

  pub update_ne : (f : Array A) (i j : ℕ) (v : A) → i ≢ j → update f i v j ≡ f j
  unfolding update
  update_ne f i j v h = ground arith

  pub length-slice : (f : Array A) (i n : ℕ) → length (slice f i n) ≡ n
  length-slice f i zero = refl
  length-slice f i (suc n) = ap suc (length-slice f (i + 1) n)
