-- ===== src/Automaton/Trie.antt =====
-- The trie that `insert` grows: every node has one path, and the walks before and after a new edge.
use mathlib.Core.Logic.Or
use mathlib.Core.Logic.{∥∥₁_elim}
use mathlib.Core.HLevel.{⊥_prop}
use mathlib.Core.List.{Mem, Nodup, Nodup-cons, mem-cons, exists_of_mem-map}
use censorhub.Prelude.{
  ℕ, suc, ◌+◌, ◌≤◌, ◌<◌, ◌≡◌, ◌⊎◌, inl, inr, refl, sym, ap, ◌∙◌, Option, none, some, List, [], ◌∷◌,
  ◌++◌, ◌==◌, if◌then◌else◌, ◌>>=◌, ◌&&◌, length, map, arith, Option-cases, Bool-cases,
}
use censorhub.Text.{Text}
use censorhub.Automaton.{WordMeta, Edge, Heap, child, new_node, add_child}

-- The node that a text leads to.
unfoldable pub walk : (ℕ → List Edge) → ℕ → Text → Option ℕ
walk kids a [] = some a
walk kids a (r ∷ rs) = child r (kids a) >>= λ c. walk kids c rs

-- What is stored for a text: the output of its node, if it has one.
unfoldable pub read : Heap → Text → List WordMeta
read h s = elim (walk h.children 0 s) [ none ↦ [] | some a ↦ h.output a ]

pub read-some : (h : Heap) (s : Text) (a : ℕ) → walk h.children 0 s ≡ some a → read h s ≡ h.output a
unfolding read
read-some h s a e = rw (e, read)

pub read-none : (h : Heap) (s : Text) → walk h.children 0 s ≡ none → read h s ≡ []
unfolding read
read-none h s e = rw (e, read)

pub record IsTree (h : Heap) : Type 0 where
  pub positive : 0 < h.next
  pub bound : (a r c : ℕ) → child r (h.children a) ≡ some c → (a < c) × (c < h.next)
  pub fresh : (a : ℕ) → h.next ≤ a → h.children a ≡ []
  pub edges : (a : ℕ) (e : Edge) → Mem e (h.children a) → child e.0 (h.children a) ≡ some e.1
  pub parent :
      (a b r q c : ℕ) → child r (h.children a) ≡ some c → child q (h.children b) ≡ some c → a ≡ b
  pub root_fail : h.fail 0 ≡ none
  pub distinct : (a : ℕ) → Nodup (map (λ e. e.1) (h.children a))
  pub unique :
      (s t : Text) (a : ℕ) → walk h.children 0 s ≡ some a → walk h.children 0 t ≡ some a → s ≡ t

pub walk-append :
    (kids : ℕ → List Edge) (a : ℕ) (s t : Text)
    → walk kids a (s ++ t) ≡ (walk kids a s >>= λ b. walk kids b t)
unfolding walk
walk-append kids a [] t = refl
walk-append kids a (r ∷ s) t = elim (Option-cases (child r (kids a))) [
  | inl e ↦ rw e
  | inr (c, e) ↦ rw e (walk-append kids c s t)
]

-- A walk stays below `next`, and climbs by at least one address for each rune.
pub walk_bound :
    (h : Heap)
    → IsTree h
    → (a : ℕ) (s : Text) (b : ℕ) → a < h.next
    → walk h.children a s ≡ some b
    → (a + length s ≤ b) × (b < h.next)
unfolding walk
walk_bound h tree a [] b lt e = ground arith
walk_bound h tree a (r ∷ s) b lt e = elim (Option-cases (child r (h.children a))) [
  | inl f ↦ cc (rw f at e)
  | inr (c, f) ↦
      let (up, inside) = tree.bound a r c f in
      let (low, high) = walk_bound h tree c s b inside (rw f at e) in (omega arith, high)
]

below_ne : {a b : ℕ} → a ≡ b → a < b → ⊥
below_ne e lt = omega arith

module _ (h : Heap) (tree : IsTree h) (a r : ℕ) (inside : a < h.next)
    (absent : child r (h.children a) ≡ none) where
  child-add_child :
      (b q : ℕ)
      → child q ((add_child h a r).children b)
        ≡ (if b == a && r == q then some h.next else child q (h.children b))
  unfolding child add_child new_node
  child-add_child b q = ground (arith, tree.fresh b, tree.fresh h.next)

  walk-add_child :
      (b : ℕ) (s : Text) (c : ℕ)
      → walk h.children b s ≡ some c
      → walk (add_child h a r).children b s ≡ some c
  unfolding walk
  walk-add_child b [] c e = e
  walk-add_child b (q ∷ s) c e = elim (Option-cases (child q (h.children b))) [
    | inl f ↦ cc (rw f at e)
    | inr (d, f) ↦
        let go : child q ((add_child h a r).children b) ≡ some d =
          ground (arith, child-add_child b q) in
        rw go (walk-add_child d s c (rw f at e))
  ]

  -- No walk leaves the new node.
  walk_new :
      (s : Text) (c : ℕ)
      → walk (add_child h a r).children h.next s ≡ some c
      → (s ≡ []) × (c ≡ h.next)
  unfolding walk
  walk_new [] c e = (refl, ground arith)
  walk_new (q ∷ s) c e =
      let stuck : child q ((add_child h a r).children h.next) ≡ none =
        unfold child in ground (arith, child-add_child h.next q, tree.fresh h.next) in
      cc (rw stuck at e)

  walk_back :
      (b : ℕ) (s : Text) (c : ℕ)
      → b < h.next
      → walk (add_child h a r).children b s ≡ some c
      → (walk h.children b s ≡ some c)
        ⊎ ((p : Text) × (c ≡ h.next) × (s ≡ p ++ r ∷ []) × (walk h.children b p ≡ some a))
  unfolding walk
  walk_back b [] c lt e = inl e
  walk_back b (q ∷ s) c lt e = elim (Bool-cases (b == a && r == q)) [
    | inl here ↦
        let step : child q ((add_child h a r).children b) ≡ some h.next =
          ground (arith, child-add_child b q) in
        let (last, new) = walk_new s c (rw step at e) in inr ([], new, ground arith, ground arith)
    | inr away ↦ elim (Option-cases (child q (h.children b))) [
      | inl f ↦ cc (rw (child-add_child b q, away, f) at e)
      | inr (d, f) ↦
          let step : child q ((add_child h a r).children b) ≡ some d =
            ground (arith, child-add_child b q) in
          elim (walk_back d s c (tree.bound b q d f).1 (rw step at e)) [
            | inl old ↦ inl (rw f old)
            | inr (p, new, split, old) ↦ inr (q ∷ p, new, ap (◌∷◌ q) split, rw f old)
          ]
    ]
  ]

  unique-add_child :
      (s t : Text) (c : ℕ)
      → walk (add_child h a r).children 0 s ≡ some c
      → walk (add_child h a r).children 0 t ≡ some c
      → s ≡ t
  unique-add_child s t c e f = elim (walk_back 0 s c tree.positive e) [
    | inl old ↦ elim (walk_back 0 t c tree.positive f) [
      | inl old' ↦ tree.unique s t c old old'
      | inr (p, new, _, _) ↦ absurd (omega (arith, new, walk_bound h tree 0 s c tree.positive old))
    ]
    | inr (p, new, split, old) ↦ elim (walk_back 0 t c tree.positive f) [
      | inl old' ↦ absurd (omega (arith, new, walk_bound h tree 0 t c tree.positive old'))
      | inr (p', _, split', old') ↦
          split ∙ ap (λ (x : Text). x ++ r ∷ []) (tree.unique p p' a old old') ∙ sym split'
    ]
  ]

  bound-add_child :
      (b q c : ℕ) → child q ((add_child h a r).children b) ≡ some c → (b < c) × (c < suc h.next)
  bound-add_child b q c e = ground (arith, child-add_child b q, tree.bound b q c)

  children-add_child :
      (b : ℕ)
      → (add_child h a r).children b ≡ (if b == a then (r, h.next) ∷ h.children a else h.children b)
  unfolding add_child new_node
  children-add_child b = ground (arith, tree.fresh h.next)

  edges-add_child :
      (b : ℕ) (e : Edge)
      → Mem e ((add_child h a r).children b)
      → child e.0 ((add_child h a r).children b) ≡ some e.1
  edges-add_child b e m = elim (Bool-cases (b == a)) [
    | inl here ↦
        Or.elim (hlevel) (mem-cons.0 (rw (children-add_child b, here) at m))
          (λ new. ground (arith, child-add_child b e.0))
          (λ old. ground (arith, child-add_child b e.0, tree.edges a e old))
    | inr away ↦
        let old : Mem e (h.children b) = rw (children-add_child b, away) at m in
        ground (arith, child-add_child b e.0, tree.edges b e old)
  ]

  not-mem_new : ¬ Mem h.next (map (λ e. e.1) (h.children a))
  not-mem_new m =
      ∥∥₁_elim (exists_of_mem-map m) ⊥_prop
        (λ (e, old, same). below_ne same (tree.bound a e.0 e.1 (tree.edges a e old)).1)

  distinct-add_child : (b : ℕ) → Nodup (map (λ e. e.1) ((add_child h a r).children b))
  distinct-add_child b = elim (Bool-cases (b == a)) [
    | inl here ↦ rw (children-add_child b, here) (Nodup-cons.1 (not-mem_new, tree.distinct a))
    | inr away ↦ rw (children-add_child b, away) (tree.distinct b)
  ]

  parent-add_child :
      (b b' q q' c : ℕ)
      → child q ((add_child h a r).children b) ≡ some c
      → child q' ((add_child h a r).children b') ≡ some c
      → b ≡ b'
  parent-add_child b b' q q' c e f = ground (
    arith,
    child-add_child b q,
    child-add_child b' q',
    tree.bound b q c,
    tree.bound b' q' c,
    tree.parent b b' q q' c,
  )

  pub add_child-IsTree : IsTree (add_child h a r)
  unfolding add_child new_node
  add_child-IsTree = record {
    positive = omega arith;
    bound = bound-add_child;
    fresh = λ b lt. ground (arith, tree.fresh b, tree.fresh h.next);
    edges = edges-add_child;
    parent = parent-add_child;
    root_fail = ground (arith, tree.positive, tree.root_fail);
    distinct = distinct-add_child;
    unique = unique-add_child;
  }

  output-add_child : (b : ℕ) → (add_child h a r).output b ≡ (if b == h.next then [] else h.output b)
  unfolding add_child new_node
  output-add_child b = refl

  -- The new edge adds no output: what is stored for each text stays.
  pub read-add_child : (s : Text) → read (add_child h a r) s ≡ read h s
  read-add_child s = elim (Option-cases (walk h.children 0 s)) [
    | inr (c, e) ↦
        let low : c < h.next = (walk_bound h tree 0 s c tree.positive e).1 in
        rw (read-some h s c e, read-some (add_child h a r) s c (walk-add_child 0 s c e))
          (ground (arith, output-add_child c))
    | inl e ↦ elim (Option-cases (walk (add_child h a r).children 0 s)) [
      | inl f ↦ rw (read-none h s e, read-none (add_child h a r) s f)
      | inr (c, f) ↦ elim (walk_back 0 s c tree.positive f) [
        | inl old ↦ cc
        | inr (p, new, _, _) ↦
            rw (read-none h s e, read-some (add_child h a r) s c f)
              (ground (arith, output-add_child c))
      ]
    ]
  ]

  -- The new node is where the old path and the new rune lead.
  pub walk-add_child_new :
      (s : Text)
      → walk h.children 0 s ≡ some a
      → walk (add_child h a r).children 0 (s ++ r ∷ []) ≡ some h.next
  unfolding walk
  walk-add_child_new s e =
      rw (walk-append (add_child h a r).children 0 s (r ∷ []), walk-add_child 0 s a e)
        (ground (arith, child-add_child a r))
