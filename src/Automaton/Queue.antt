-- ===== src/Automaton/Queue.antt =====
-- The inner loop of `buildFailPointers` over the children of a node, as a step towards a linked level.
use mathlib.Core.List.{
  Mem, Nodup, Nodup-cons, mem-cons_self, mem-cons_of_mem, mem-cons, append-nil, append_assoc,
}
use mathlib.Core.Logic.Or
use mathlib.Core.HLevel.{⊥_prop}
use native.Mathlib.Decide.{ℕ_discrete}
use censorhub.Prelude.{
  ℕ, suc, ◌≤◌, ◌<◌, ◌≡◌, ◌≢◌, ap, ◌∙◌, some, List, [], ◌∷◌, ◌++◌, map, length, All, arith,
  length-append,
}
use censorhub.Text.{Text}
use censorhub.Automaton.{WordMeta, Edge, Heap, child, link_children}
use censorhub.Automaton.Trie.{walk}
use censorhub.Automaton.Link.{FailsTo, IsLinked, SameTrie, IsStore, walk_next}
use censorhub.Automaton.Child.{linked, SetsChild, linked-SetsChild, linked-SameTrie, link_child_lem}

-- In the middle of a level: the nodes down to depth `d` are linked, of those one deeper all but
-- `rest`, and the others hold their own words.
pub record IsPartial (h₀ : Heap) (stored : Text → List WordMeta) (d : ℕ) (rest : List ℕ) (h : Heap)
    : Type 0 where
  pub same : SameTrie h₀ h
  pub done :
      (s : Text) (a : ℕ)
      → walk h₀.children 0 s ≡ some a
      → length s ≤ d
      → IsLinked h₀.children stored h s a
  pub reached :
      (s : Text) (a : ℕ)
      → walk h₀.children 0 s ≡ some a
      → length s ≡ suc d
      → ¬ Mem a rest
      → IsLinked h₀.children stored h s a
  pub pending :
      (s : Text) (a : ℕ)
      → walk h₀.children 0 s ≡ some a
      → length s ≡ suc d
      → Mem a rest
      → h.output a ≡ stored s
  pub later :
      (s : Text) (a : ℕ) → walk h₀.children 0 s ≡ some a → suc d < length s → h.output a ≡ stored s
  pub distinct : Nodup rest

FailsTo-kept :
    (kids : ℕ → List Edge) (h h' : Heap) (s : Text) (a : ℕ)
    → h'.fail a ≡ h.fail a
    → FailsTo kids h a s
    → FailsTo kids h' a s
FailsTo-kept kids h h' [] a e f = e ∙ f
FailsTo-kept kids h h' (x ∷ s) a e (b, f, at) = (b, e ∙ f, at)

module _ (h₀ : Heap) (stored : Text → List WordMeta) (store : IsStore h₀ stored) where
  IsLinked-kept :
      (h h' : Heap) (c : ℕ) (s : Text) (a : ℕ)
      → SetsChild h h' c
      → a ≢ c
      → IsLinked h₀.children stored h s a
      → IsLinked h₀.children stored h' s a
  IsLinked-kept h h' c s a sets ne l = record {
    fails = FailsTo-kept h₀.children h h' s a (sets.fail_kept a ne) l.fails;
    output = sets.output_kept a ne ∙ l.output;
  }

  -- Two nodes whose texts differ in length are different.
  apart :
      (s t : Text) (a c : ℕ)
      → walk h₀.children 0 s ≡ some a
      → walk h₀.children 0 t ≡ some c
      → length s ≢ length t
      → a ≢ c
  apart s t a c at_a at_c ne e = ne (ap length (store.tree.unique s t c (at_a ∙ ap some e) at_c))

  module _ (d : ℕ) (h : Heap) (c q : ℕ) (rest : List ℕ) (w : Text)
      (at_c : walk h₀.children 0 w ≡ some c) (deep : length w ≡ suc d)
      (part : IsPartial h₀ stored d (c ∷ rest) h)
      (new : IsLinked h₀.children stored (linked h c q) w c) where
    reached-linked :
        (s : Text) (a : ℕ)
        → walk h₀.children 0 s ≡ some a
        → length s ≡ suc d
        → ¬ Mem a rest
        → IsLinked h₀.children stored (linked h c q) s a
    reached-linked s a at len out = elim (ℕ_discrete a c) [
      | yes e ↦ let same : s ≡ w = store.tree.unique s w c (at ∙ ap some e) at_c in rw (same, e) new
      | no ne ↦
          IsLinked-kept h (linked h c q) c s a (linked-SetsChild h c q) ne
            (part.reached s a at len (λ m. Or.elim ⊥_prop (mem-cons.0 m) ne out))
    ]

    not-mem_rest : ¬ Mem c rest
    not-mem_rest = (Nodup-cons.0 part.distinct).0

    pub linked-IsPartial : IsPartial h₀ stored d rest (linked h c q)
    linked-IsPartial =
        let sets = linked-SetsChild h c q in
        record {
          same = linked-SameTrie h₀ h c q part.same;
          done = λ s a at len.
              IsLinked-kept h (linked h c q) c s a sets (apart s w a c at at_c (λ e. omega arith))
                (part.done s a at len);
          reached = reached-linked;
          pending = λ s a at len m.
              sets.output_kept a (λ e. not-mem_rest (rw e at m))
              ∙ part.pending s a at len (mem-cons_of_mem c m);
          later = λ s a at len.
              sets.output_kept a (apart s w a c at at_c (λ e. omega arith)) ∙ part.later s a at len;
          distinct = (Nodup-cons.0 part.distinct).1;
        }

  -- All children of a node of depth `d` are linked and appended to the queue.
  pub link_children_lem :
      (x : ℕ) (s : Text) (d : ℕ) (h : Heap) (queue : List ℕ) (a : ℕ) (es : List Edge)
      (rest : List ℕ)
      → length (x ∷ s) ≡ d
      → walk h₀.children 0 (x ∷ s) ≡ some a
      → All (λ (e : Edge). child e.0 (h₀.children a) ≡ some e.1) es
      → IsPartial h₀ stored d (map (λ e. e.1) es ++ rest) h
      → (h' : Heap) × (link_children h queue a es ≡ some (h', queue ++ map (λ e. e.1) es))
        × IsPartial h₀ stored d rest h'
  unfolding link_children
  link_children_lem x s d h queue a [] rest len at edges part = (h, rw append-nil, part)
  link_children_lem x s d h queue a ((r, c) ∷ es) rest len at (edge, edges) part =
      let whole = walk_next h₀ stored store h part.same (x ∷ s) a r c at edge in
      let len' : length (x ∷ (s ++ r ∷ [])) ≡ suc d = omega (arith, length-append s (r ∷ [])) in
      let (q, ran, new) =
        link_child_lem h₀ stored store h part.same d part.done x s a r c len at edge
          (part.pending (x ∷ (s ++ r ∷ [])) c whole len' mem-cons_self) in
      let part' =
        linked-IsPartial d h c q (map (λ (e : Edge). e.1) es ++ rest) (x ∷ (s ++ r ∷ [])) whole len'
          part new in
      let (h', ran', part'') =
        link_children_lem x s d (linked h c q) (queue ++ c ∷ []) a es rest len at edges part' in
      (
        h',
        rw ran (
            ran'
            ∙ ap (λ (l : List ℕ). some (h', l))
                (append_assoc queue (c ∷ []) (map (λ (e : Edge). e.1) es))),
        part'',
      )
