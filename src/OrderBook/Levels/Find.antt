-- ===== src/OrderBook/Levels/Find.antt =====
-- `find_level`: what it returns, and the AVX2 version against the scalar one.
use options_engine.Prelude.{
  ℕ, zero, suc, ◌+◌, ◌-◌, ◌/◌, ◌≤◌, ◌<◌, ◌≡◌, refl, ap, ◌∙◌, ◌≢◌, inl, inr, Bool, true, false, none,
  some, arith, sym, ℕ_discrete, leb, ◌==◌, if◌then◌else◌, Bool-cases, some-eq, none-ne,
}
use options_engine.Prelude.Int.{eqb_ℤ, eqb_ℤ_sound, eqb_ℤ_refl}
use options_engine.Prelude.Arrays.{Array}
use options_engine.Types.{Price}
use options_engine.OrderBook.Levels.{
  Levels, scan, find_level, lane, movemask, ctz, scan_avx2, find_level_avx2,
}

-- The first index from `i` on, below `i + n`, whose price is `p`.
pub record IsFirst (prices : Array Price) (p : Price) (i n k : ℕ) : Type 0 where
  pub from : i ≤ k
  pub below : k < i + n
  pub hit : prices k ≡ p
  pub first : (j : ℕ) → i ≤ j → j < k → prices j ≢ p

abbrev Absent : Array Price → Price → ℕ → ℕ → Type 0
Absent prices p i n = (j : ℕ) → i ≤ j → j < i + n → prices j ≢ p

miss-ne : (a b : Price) → eqb_ℤ a b ≡ false → a ≢ b
miss-ne a b h e = let t : eqb_ℤ a b ≡ true = rw e (eqb_ℤ_refl b) in cc t

scan-IsFirst :
    (prices : Array Price) (p : Price) (i n : ℕ) {k : ℕ}
    → scan prices p i n ≡ some k
    → IsFirst prices p i n k
unfolding scan
scan-IsFirst prices p i zero e = none-ne e
scan-IsFirst prices p i (suc n) {k} e = elim (Bool-cases (eqb_ℤ (prices i) p)) [
  | inl t ↦
      let q : i ≡ k = some-eq (rw (t, scan) at e) in
      record {
        from = omega arith;
        below = omega arith;
        hit = rw (← q) (eqb_ℤ_sound (prices i) p t);
        first = λ j lo hi. absurd (omega arith);
      }
  | inr t ↦
      let v = scan-IsFirst prices p (i + 1) n (rw (t, scan) at e) in
      record {
        from = omega (arith, v.from);
        below = omega (arith, v.below);
        hit = v.hit;
        first = λ j lo hi. elim (ℕ_discrete i j) [
          | yes q ↦ rw (← q) (miss-ne (prices i) p t)
          | no q ↦ v.first j (omega arith) hi
        ];
      }
]

scan-none :
    (prices : Array Price) (p : Price) (i n : ℕ) → scan prices p i n ≡ none → Absent prices p i n
unfolding scan
scan-none prices p i zero e j lo hi = absurd (omega arith)
scan-none prices p i (suc n) e j lo hi = elim (Bool-cases (eqb_ℤ (prices i) p)) [
  | inl t ↦ none-ne (sym (rw (t, scan) at e))
  | inr t ↦ elim (ℕ_discrete i j) [
    | yes q ↦ rw (← q) (miss-ne (prices i) p t)
    | no q ↦ scan-none prices p (i + 1) n (rw (t, scan) at e) j (omega arith) (omega arith)
  ]
]

-- `find_level` returns the first level of the price, and -1 exactly when no level has it.
pub find_level_lem :
    (s : Levels) (p : Price)
    → ((k : ℕ) → find_level s p ≡ some k → IsFirst s.prices p 0 s.count k)
      × (find_level s p ≡ none → (j : ℕ) → j < s.count → s.prices j ≢ p)
unfolding find_level
find_level_lem s p = (
  λ k e. scan-IsFirst s.prices p 0 s.count e,
  λ e j h. scan-none s.prices p 0 s.count e j (omega arith) (omega arith),
)

-- The mask and its lowest set bit, at the four comparisons of one vector.
chunk_mask : Bool → Bool → Bool → Bool → ℕ
chunk_mask a b c d = lane a 1 + lane b 256 + lane c 65536 + lane d 16777216

chunk_result {ℓ} : {A : Type ℓ} → (ℕ → A) → A → Bool → Bool → Bool → Bool → A
chunk_result hit rest a b c d =
    if a then hit 0 else if b then hit 1 else if c then hit 2 else if d then hit 3 else rest

chunk-ctz {ℓ} :
    {A : Type ℓ} (hit : ℕ → A) (rest : A) (a b c d : Bool)
    → (if chunk_mask a b c d == 0 then rest else hit (ctz 32 (chunk_mask a b c d) / 8))
      ≡ chunk_result hit rest a b c d
unfolding chunk_mask chunk_result lane ctz
chunk-ctz hit rest true true true true = refl
chunk-ctz hit rest true true true false = refl
chunk-ctz hit rest true true false true = refl
chunk-ctz hit rest true true false false = refl
chunk-ctz hit rest true false true true = refl
chunk-ctz hit rest true false true false = refl
chunk-ctz hit rest true false false true = refl
chunk-ctz hit rest true false false false = refl
chunk-ctz hit rest false true true true = refl
chunk-ctz hit rest false true true false = refl
chunk-ctz hit rest false true false true = refl
chunk-ctz hit rest false true false false = refl
chunk-ctz hit rest false false true true = refl
chunk-ctz hit rest false false true false = refl
chunk-ctz hit rest false false false true = refl
chunk-ctz hit rest false false false false = refl

-- Four rounds of the scalar loop.
scan-four :
    (prices : Array Price) (p : Price) (i n : ℕ)
    → scan prices p i (suc (suc (suc (suc n))))
      ≡ chunk_result
          (λ k. some (i + k))
          (scan prices p (i + 4) n)
          (eqb_ℤ (prices i) p)
          (eqb_ℤ (prices (i + 1)) p)
          (eqb_ℤ (prices (i + 2)) p)
          (eqb_ℤ (prices (i + 3)) p)
unfolding scan chunk_result
scan-four prices p i n =
    let e0 : i + 0 ≡ i = omega arith in
    let e2 : i + 1 + 1 ≡ i + 2 = omega arith in
    let e3 : i + 2 + 1 ≡ i + 3 = omega arith in
    let e4 : i + 3 + 1 ≡ i + 4 = omega arith in simp (e2, e3, e4, e0)

chunk-scan :
    (prices : Array Price) (p : Price) (i n : ℕ)
    → (if movemask prices p i == 0
        then scan prices p (i + 4) n
        else some (i + ctz 32 (movemask prices p i) / 8))
      ≡ scan prices p i (suc (suc (suc (suc n))))
unfolding movemask chunk_mask
chunk-scan prices p i n =
    chunk-ctz (λ k. some (i + k)) (scan prices p (i + 4) n) (eqb_ℤ (prices i) p)
      (eqb_ℤ (prices (i + 1)) p) (eqb_ℤ (prices (i + 2)) p) (eqb_ℤ (prices (i + 3)) p)
    ∙ sym (scan-four prices p i n)

scan_avx2-scan :
    (f : ℕ) (prices : Array Price) (p : Price) (i n : ℕ)
    → scan_avx2 f prices p i n ≡ scan prices p i n
unfolding scan_avx2
scan_avx2-scan zero prices p i n = refl
scan_avx2-scan (suc f) prices p i n = elim (Bool-cases (leb 4 n)) [
  | inl t ↦
      let e : n ≡ suc (suc (suc (suc (n - 4)))) = ground arith in
      rw (t, scan_avx2-scan f prices p (i + 4) (n - 4))
        (chunk-scan prices p i (n - 4) ∙ ap (scan prices p i) (sym e))
  | inr t ↦ rw t
]

-- The vector loop with its scalar tail returns what the scalar loop returns.
pub find_level_avx2-find_level :
    (s : Levels) (p : Price) → find_level_avx2 s.prices s.count p ≡ find_level s p
unfolding find_level_avx2 find_level
find_level_avx2-find_level s p = scan_avx2-scan (s.count / 4) s.prices p 0 s.count
