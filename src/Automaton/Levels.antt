-- ===== src/Automaton/Levels.antt =====
-- The nodes of the trie by depth: what the queue of `buildFailPointers` holds, level by level.
use mathlib.Core.Logic.Or
use mathlib.Core.Logic.{∥∥₁_elim}
use mathlib.Core.HLevel.{⊥_prop}
use mathlib.Core.List.{
  Mem, Nodup, Nodup-append, Nodup-cons, Nodup-nil, Perm, Disjoint-left, mem-cons, mem-append,
  mem-append_left, mem-append_right, mem-map_of_mem, exists_of_mem-map, mem-cons_self,
  mem-cons_of_mem, not-mem-nil, Mem-prop,
}
use mathlib.Core.List.Perm
use censorhub.Prelude.{ℕ, ◌≡◌, inl, inr, ap, ◌∙◌, some, List, [], ◌∷◌, map, arith, ◌==◌, Bool-cases}
use censorhub.Automaton.{Edge, Heap, child, successors}
use censorhub.Automaton.Trie.{IsTree}

-- A range visits each child of a node once, in an order of its own.
pub record VisitsAll (order : ℕ → List Edge → List Edge) : Type 0 where
  pub visits : (a : ℕ) (es : List Edge) → Perm (order a es) es

child-Mem : (r c : ℕ) (es : List Edge) → child r es ≡ some c → Mem (r, c) es
unfolding child
child-Mem r c [] e = cc
child-Mem r c ((q, d) ∷ es) e = elim (Bool-cases (q == r)) [
  | inl y ↦ let same : ◌≡◌ {A = Edge} (r, c) (q, d) = ground arith in rw same mem-cons_self
  | inr n ↦ mem-cons_of_mem (q, d) (child-Mem r c es (rw n at e))
]

module _ (order : ℕ → List Edge → List Edge) (visits_all : VisitsAll order) (h : Heap)
    (tree : IsTree h) where
  pub visits-child :
      (a : ℕ) (e : Edge) → Mem e (order a (h.children a)) → child e.0 (h.children a) ≡ some e.1
  visits-child a e m = tree.edges a e ((Perm.mem_iff (visits_all.visits a (h.children a))).0 m)

  child-visits :
      (a r c : ℕ)
      → child r (h.children a) ≡ some c
      → Mem c (map (λ e. e.1) (order a (h.children a)))
  child-visits a r c e =
      mem-map_of_mem (λ e. e.1)
        ((Perm.mem_iff (visits_all.visits a (h.children a))).1 (child-Mem r c _ e))

  pub mem-successors :
      (a r c : ℕ) (xs : List ℕ)
      → Mem a xs
      → child r (h.children a) ≡ some c
      → Mem c (successors order h xs)
  unfolding successors
  mem-successors a r c [] m e = absurd (not-mem-nil m)
  mem-successors a r c (x ∷ xs) m e =
      Or.elim Mem-prop (mem-cons.0 m)
        (λ same. mem-append_left (successors order h xs) (rw same at (child-visits a r c e)))
        (λ later.
          mem-append_right (map (λ e. e.1) (order x (h.children x)))
            (mem-successors a r c xs later e))

  -- A node met among the successors has its parent in the list.
  parent-successors :
      (a r c : ℕ) (xs : List ℕ)
      → child r (h.children a) ≡ some c
      → Mem c (successors order h xs)
      → Mem a xs
  unfolding successors
  parent-successors a r c [] e m = absurd (not-mem-nil m)
  parent-successors a r c (x ∷ xs) e m =
      Or.elim Mem-prop (mem-append.0 m)
        (λ here. ∥∥₁_elim (exists_of_mem-map here) Mem-prop (λ (f, visited, same).
          let par : a ≡ x = tree.parent a x r f.0 c e (visits-child x f visited ∙ ap some same) in
          rw par mem-cons_self))
        (λ later. mem-cons_of_mem x (parent-successors a r c xs e later))

  pub successors-Nodup : (xs : List ℕ) → Nodup xs → Nodup (successors order h xs)
  unfolding successors
  successors-Nodup [] d = Nodup-nil
  successors-Nodup (x ∷ xs) d =
      let (out, rest) = Nodup-cons.0 d in
      Nodup-append.1 (
        Perm.nodup (Perm.symm (Perm.map (λ e. e.1) (visits_all.visits x (h.children x))))
            (tree.distinct x),
        successors-Nodup xs rest,
        Disjoint-left.1 (λ c here later.
            ∥∥₁_elim (exists_of_mem-map here) ⊥_prop (λ (f, visited, same).
              out (parent-successors x f.0 c xs (visits-child x f visited ∙ ap some same) later))),
      )
