-- ===== src/OrderBook/Links.antt =====
-- The doubly linked queue of a level: taking an order out of it, and taking off its head.
mod Tests
use mathlib.Core.Path.{subst}
use options_engine.Prelude.{
  ℕ, ◌≡◌, ◌≢◌, refl, ap, sym, ◌∙◌, inl, inr, List, [], ◌∷◌, ◌++◌, arith, ◌==◌, true, false,
  Bool-cases, if◌then◌else◌, ◌⊎◌,
}
use options_engine.Prelude.Words.{sub32}
use options_engine.Prelude.Arrays.{Array, update, update_self, update_ne}
use options_engine.OrderBook.Levels.{Levels, null_idx}
use options_engine.OrderBook.Slots.{Slots}
use options_engine.OrderBook.Slots.FreeList.{Absent, Distinct}
use options_engine.OrderBook.State.{unlink}
use options_engine.OrderBook.Match.{advance_head}

-- From `a` the array `next` leads through `q` to NULL_IDX, and `prev` leads back.
abbrev pub Linked : Array ℕ → Array ℕ → ℕ → List ℕ → Type 0
Linked next prev a [] = (next a ≡ null_idx) × (prev null_idx ≡ a)
Linked next prev a (x ∷ q) = (next a ≡ x) × (prev x ≡ a) × Linked next prev x q

-- The queue of the level leads from its head through `q` to its tail, and back; no slot is in it twice. The
-- head stands for the successor of NULL_IDX, and the tail for its predecessor.
pub record IsLinked (s : Levels) (p : Slots) (lvl : ℕ) (q : List ℕ) : Type 0 where
  pub links :
      Linked
        (update p.nexts null_idx (s.head_idxs lvl))
        (update p.prevs null_idx (s.tail_idxs lvl))
        null_idx
        q
  pub distinct : Distinct (null_idx ∷ q)

Linked-frame :
    (n p : Array ℕ) (i u j v a : ℕ) (q : List ℕ)
    → Absent i (a ∷ q)
    → Absent j q
    → j ≢ null_idx
    → Linked n p a q
    → Linked (update n i u) (update p j v) a q
Linked-frame n p i u j v a [] out_i out_j ne c =
    (update_ne n i a u out_i.0 ∙ c.0, update_ne p j null_idx v ne ∙ c.1)
Linked-frame n p i u j v a (x ∷ q) out_i out_j ne c = (
  update_ne n i a u out_i.0 ∙ c.0,
  update_ne p j x v out_j.0 ∙ c.1,
  Linked-frame n p i u j v x q out_i.1 out_j.1 ne c.2,
)

module _ (n p : Array ℕ) (x : ℕ) (q2 : List ℕ) where
  before-x :
      (a c : ℕ) (q1 : List ℕ) → Linked n p a (q1 ++ x ∷ q2) → Absent c (a ∷ q1 ++ x ∷ q2) → p x ≢ c
  before-x a c [] v out e = out.0 (sym e ∙ v.1)
  before-x a c (b ∷ q1) v out e = before-x b c q1 v.2 out.1 e

  after-x :
      (a c : ℕ) (q1 : List ℕ)
      → Linked n p a (q1 ++ x ∷ q2)
      → Absent c (q1 ++ x ∷ q2)
      → c ≢ null_idx
      → n x ≢ c
  after-x a c [] v out ne e = last q2 v.2 out.1
    where
      last : (q : List ℕ) → Linked n p x q → Absent c q → ⊥
      last [] w o = ne (sym e ∙ w.0)
      last (y ∷ q) w o = o.0 (sym e ∙ w.0)
  after-x a c (b ∷ q1) v out ne e = after-x b c q1 v.2 out.1 ne e

-- The two links around `x` are joined.
joined :
    (n p : Array ℕ) (a x : ℕ) (q2 : List ℕ)
    → Distinct (a ∷ x ∷ q2)
    → Absent null_idx q2
    → Linked n p a (x ∷ q2)
    → Linked (update n (p x) (n x)) (update p (n x) (p x)) a q2
joined n p a x [] d out (to, from, (last, back)) =
    rw (from, last) (update_self n a null_idx, update_self p null_idx a)
joined n p a x (y ∷ q) d out (to, from, (next, back, v)) =
    subst {A = ℕ × ℕ} (λ u. Linked (update n u.0 u.1) (update p u.1 u.0) a (y ∷ q))
      (λ i. (sym from i, sym next i))
      (
        update_self n a y,
        update_self p y a,
        Linked-frame n p a y y a y q d.0.1 d.1.1.0 (λ e. out.0 (sym e)) v,
      )

unlinked :
    (n p : Array ℕ) (a x : ℕ) (q1 q2 : List ℕ)
    → Distinct (a ∷ q1 ++ x ∷ q2)
    → Absent null_idx (q1 ++ x ∷ q2)
    → Linked n p a (q1 ++ x ∷ q2)
    → Linked (update n (p x) (n x)) (update p (n x) (p x)) a (q1 ++ q2)
unlinked n p a x [] q2 d out v = joined n p a x q2 d out.1 v
unlinked n p a x (b ∷ q1) q2 d out v = (
  update_ne n (p x) a (n x) (before-x n p x q2 b a q1 v.2 d.0) ∙ v.0,
  update_ne p (n x) b (p x) (after-x n p x q2 b b q1 v.2 d.1.0 (λ e. out.0 (sym e))) ∙ v.1,
  unlinked n p b x q1 q2 d.1 out.1 v.2,
)

Absent-drop : (c x : ℕ) (q1 q2 : List ℕ) → Absent c (q1 ++ x ∷ q2) → Absent c (q1 ++ q2)
Absent-drop c x [] q2 out = out.1
Absent-drop c x (b ∷ q1) q2 out = (out.0, Absent-drop c x q1 q2 out.1)

Distinct-drop : (x : ℕ) (q1 q2 : List ℕ) → Distinct (q1 ++ x ∷ q2) → Distinct (q1 ++ q2)
Distinct-drop x [] q2 d = d.1
Distinct-drop x (b ∷ q1) q2 d = (Absent-drop b x q1 q2 d.0, Distinct-drop x q1 q2 d.1)

write_end :
    (f : Array ℕ) (u v j : ℕ) → update f null_idx v j ≡ update (update f null_idx u) null_idx v j
unfolding update
write_end f u v j = ground arith

write_slot :
    (f : Array ℕ) (u i v j : ℕ)
    → i ≢ null_idx
    → update (update f i v) null_idx u j ≡ update (update f null_idx u) i v j
unfolding update
write_slot f u i v j ne = ground arith

-- The write that `unlink` chooses, to the link of a slot or to the level's end of the queue.
one_write :
    (f ends : Array ℕ) (lvl i v : ℕ)
    → update
        (if i == null_idx then f else update f i v)
        null_idx
        ((if i == null_idx then update ends lvl v else ends) lvl)
      ≡ update (update f null_idx (ends lvl)) i v
one_write f ends lvl i v = elim (test-cases i null_idx) [
  | inl (e, t) ↦ rw (t, e, update_self ends lvl v) (λ k j. write_end f (ends lvl) v j k)
  | inr (e, t) ↦ rw t (λ k j. write_slot f (ends lvl) i v j e k)
]
  where
    test-cases : (a b : ℕ) → ((a ≡ b) × ((a == b) ≡ true)) ⊎ ((a ≢ b) × ((a == b) ≡ false))
    test-cases a b = ground arith

not-null : (x : ℕ) (q1 q2 : List ℕ) → Absent null_idx (q1 ++ x ∷ q2) → null_idx ≢ x
not-null x [] q2 out = out.0
not-null x (b ∷ q1) q2 out = not-null x q1 q2 out.1

kept :
    (ends : Array ℕ) (lvl i v l : ℕ)
    → lvl ≢ l
    → (if i == null_idx then update ends lvl v else ends) l ≡ ends l
kept ends lvl i v l far = elim (Bool-cases (i == null_idx)) [
  | inl t ↦ rw t (update_ne ends lvl l v far)
  | inr t ↦ rw t
]

-- Taking a slot out of the middle or from either end of a level's doubly linked queue leaves the rest of the queue,
-- in its order and linked both ways from the level's head to its tail; every other level keeps its head and
-- its tail.
pub unlink-IsLinked :
    (s : Levels) (p : Slots) (lvl slot : ℕ) (q1 q2 : List ℕ)
    → IsLinked s p lvl (q1 ++ slot ∷ q2)
    → let (s', p') = unlink s p lvl slot in
      IsLinked s' p' lvl (q1 ++ q2)
      × ((l : ℕ) → lvl ≢ l → (s'.head_idxs l ≡ s.head_idxs l) × (s'.tail_idxs l ≡ s.tail_idxs l))
unfolding unlink
unlink-IsLinked s p lvl slot q1 q2 v =
    let ne = not-null slot q1 q2 v.distinct.0 in
    let n = update p.nexts null_idx (s.head_idxs lvl) in
    let b = update p.prevs null_idx (s.tail_idxs lvl) in
    let next : n slot ≡ p.nexts slot = update_ne p.nexts null_idx slot (s.head_idxs lvl) ne in
    let prev : b slot ≡ p.prevs slot = update_ne p.prevs null_idx slot (s.tail_idxs lvl) ne in
    (
      record {
        links =
            rw
              (
                one_write p.nexts s.head_idxs lvl (p.prevs slot) (p.nexts slot),
                one_write p.prevs s.tail_idxs lvl (p.nexts slot) (p.prevs slot),
                ← next,
                ← prev,
              )
              (unlinked n b null_idx slot q1 q2 v.distinct v.distinct.0 v.links);
        distinct = Distinct-drop slot (null_idx ∷ q1) q2 v.distinct;
      },
      λ l far. (
        kept s.head_idxs lvl (p.prevs slot) (p.nexts slot) l far,
        kept s.tail_idxs lvl (p.nexts slot) (p.prevs slot) l far,
      ),
    )

-- Taking the filled head off the best level's doubly linked queue leaves the rest of the queue linked both ways, with
-- no slot before the new head, and takes one off the level's count.
pub advance_head-IsLinked :
    (s : Levels) (p : Slots) (slot : ℕ) (q : List ℕ)
    → IsLinked s p 0 (slot ∷ q)
    → let (s', p') = advance_head s p slot in
      IsLinked s' p' 0 q × (s'.order_counts 0 ≡ sub32 (s.order_counts 0) 1)
unfolding advance_head unlink
advance_head-IsLinked s p slot q v =
    let first : p.prevs slot ≡ null_idx =
      sym (update_ne p.prevs null_idx slot (s.tail_idxs 0) v.distinct.0.0) ∙ v.links.1 in
    let out = (unlink-IsLinked s p 0 slot [] q v).0.links in
    (
      record {
        links = rw (unlink, first) at out;
        distinct = Distinct-drop slot (null_idx ∷ []) q v.distinct;
      },
      update_self s.order_counts 0 (sub32 (s.order_counts 0) 1),
    )
