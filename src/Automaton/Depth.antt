-- ===== src/Automaton/Depth.antt =====
-- The levels of the trie: the nodes at one depth, once each, and the step to the next depth.
use mathlib.Core.List.{Mem, Nodup, Nodup-cons, Nodup-nil, mem-cons_self, not-mem-nil, append-nil}
use censorhub.Prelude.{
  ℕ, zero, suc, ◌≤◌, ◌≡◌, inl, inr, refl, sym, ap, ◌∙◌, none, some, List, [], ◌∷◌, ◌++◌, map,
  length, All, arith, Option-cases, length-append, All-of_mem, All-append, All-map,
}
use censorhub.Text.{Text}
use censorhub.Automaton.{Edge, Heap, child, successors}
use censorhub.Automaton.Trie.{walk, walk-append, walk_bound, IsTree}
use censorhub.Automaton.Levels.{VisitsAll, visits-child, mem-successors, successors-Nodup}

-- A node has a text of the given length.
abbrev pub AtDepth : Heap → ℕ → ℕ → Type 0
AtDepth h d a = (s : Text) × (walk h.children 0 s ≡ some a) × (length s ≡ d)

pub record IsLevel (h : Heap) (d : ℕ) (xs : List ℕ) : Type 0 where
  pub nodes : All (AtDepth h d) xs
  pub complete : (s : Text) (a : ℕ) → walk h.children 0 s ≡ some a → length s ≡ d → Mem a xs
  pub distinct : Nodup xs

-- The last rune of a text that is not empty.
pub split_last :
    (d : ℕ) (s : Text)
    → length s ≡ suc d
    → (p : Text) × (r : ℕ) × (s ≡ p ++ r ∷ []) × (length p ≡ d)
split_last zero [] e = absurd (omega arith)
split_last zero (r ∷ []) e = ([], r, refl, refl)
split_last zero (x ∷ y ∷ s) e = absurd (omega arith)
split_last (suc d) [] e = absurd (omega arith)
split_last (suc d) (x ∷ s) e =
    let (p, r, split, len) = split_last d s (omega arith) in
    (x ∷ p, r, ap (◌∷◌ x) split, omega arith)

module _ (order : ℕ → List Edge → List Edge) (visits_all : VisitsAll order) (h : Heap)
    (tree : IsTree h) where
  pub walk-child :
      (s : Text) (a r c : ℕ)
      → walk h.children 0 s ≡ some a
      → child r (h.children a) ≡ some c
      → walk h.children 0 (s ++ r ∷ []) ≡ some c
  unfolding walk
  walk-child s a r c at e = rw (walk-append h.children 0 s (r ∷ []), at) (rw e)

  child-walk :
      (s : Text) (a r c : ℕ)
      → walk h.children 0 s ≡ some a
      → walk h.children 0 (s ++ r ∷ []) ≡ some c
      → child r (h.children a) ≡ some c
  unfolding walk
  child-walk s a r c at e = elim (Option-cases (child r (h.children a))) [
    | inl f ↦
        let stuck : walk h.children 0 (s ++ r ∷ []) ≡ none =
          rw (walk-append h.children 0 s (r ∷ []), at) (rw f) in
        cc
    | inr (b, f) ↦ f ∙ sym (walk-child s a r b at f) ∙ e
  ]

  successors-nodes :
      (d : ℕ) (xs : List ℕ) → All (AtDepth h d) xs → All (AtDepth h (suc d)) (successors order h xs)
  unfolding successors
  successors-nodes d [] h' = tt
  successors-nodes d (a ∷ xs) (at, rest) =
      All-append (AtDepth h (suc d)) (map (λ e. e.1) (order a (h.children a)))
        (successors order h xs)
        (All-map (AtDepth h (suc d)) (λ (e : Edge). e.1) (order a (h.children a))
          (All-of_mem (λ (e : Edge). AtDepth h (suc d) e.1) (order a (h.children a))
            (λ e m. (
              at.0 ++ e.0 ∷ [],
              walk-child at.0 a e.0 e.1 at.1 (visits-child order visits_all h tree a e m),
              omega (arith, length-append at.0 (e.0 ∷ [])),
            ))))
        (successors-nodes d xs rest)

  successors-complete :
      (d : ℕ) (xs : List ℕ)
      → IsLevel h d xs
      → (s : Text) (c : ℕ) → walk h.children 0 s ≡ some c
      → length s ≡ suc d
      → Mem c (successors order h xs)
  unfolding walk
  successors-complete d xs level s c at len =
      let (p, r, split, len') = split_last d s len in
      let at' : walk h.children 0 (p ++ r ∷ []) ≡ some c = rw split at at in
      elim (Option-cases (walk h.children 0 p)) [
        | inl e ↦ cc (rw (walk-append h.children 0 p (r ∷ []), e) at at')
        | inr (a, e) ↦
            mem-successors order visits_all h tree a r c xs (level.complete p a e len')
              (child-walk p a r c e at')
      ]

  pub successors-IsLevel :
      (d : ℕ) (xs : List ℕ) → IsLevel h d xs → IsLevel h (suc d) (successors order h xs)
  successors-IsLevel d xs level = record {
    nodes = successors-nodes d xs level.nodes;
    complete = successors-complete d xs level;
    distinct = successors-Nodup order visits_all h tree xs level.distinct;
  }

  root-IsLevel : IsLevel h 0 (0 ∷ [])
  unfolding walk
  root-IsLevel = record {
    nodes = (([], refl, refl), tt);
    complete = root_complete;
    distinct = Nodup-cons.1 (not-mem-nil, Nodup-nil);
  }
    where
      root_complete :
          (s : Text) (a : ℕ) → walk h.children 0 s ≡ some a → length s ≡ 0 → Mem a (0 ∷ [])
      root_complete [] a e len = let z : a ≡ 0 = ground arith in rw z mem-cons_self
      root_complete (x ∷ s) a e len = absurd (omega arith)

  -- The children of the root, in the order of the visit, are the first level.
  pub first-IsLevel : IsLevel h 1 (map (λ e. e.1) (order 0 (h.children 0)))
  unfolding successors
  first-IsLevel = let level = successors-IsLevel 0 (0 ∷ []) root-IsLevel in rw (append-nil) at level

  -- No level is as deep as the trie has nodes.
  pub IsLevel-nil : (d : ℕ) (xs : List ℕ) → h.next ≤ d → IsLevel h d xs → xs ≡ []
  IsLevel-nil d [] deep level = refl
  IsLevel-nil d (a ∷ xs) deep level =
      let (s, at, len) = level.nodes.0 in
      absurd (omega (arith, walk_bound h tree 0 s a tree.positive at))
