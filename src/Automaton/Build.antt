-- ===== src/Automaton/Build.antt =====
-- `buildFailPointers` ends within its fuel, and links every node of the trie.
use mathlib.Core.Path.{ap₂}
use mathlib.Core.List.{append-nil, append_assoc, not-mem-nil}
use native.Mathlib.Nat.{suc-add}
use native.Mathlib.Decide.{dec_le}
use censorhub.Prelude.{
  ℕ, zero, suc, ◌+◌, ◌≤◌, ◌≡◌, refl, sym, ap, ◌∙◌, some, List, [], ◌∷◌, ◌++◌, map, length, All,
  arith, All-of_mem,
}
use censorhub.Text.{Text}
use censorhub.Automaton.{
  WordMeta, Edge, Heap, child, link_children, link_queue, link_root, successors, queue_total,
  build_fail_pointers,
}
use censorhub.Automaton.Trie.{walk, walk_bound}
use censorhub.Automaton.Levels.{VisitsAll, visits-child}
use censorhub.Automaton.Depth.{AtDepth, IsLevel, successors-IsLevel, first-IsLevel, IsLevel-nil}
use censorhub.Automaton.Link.{IsLinked, SameTrie, IsStore}
use censorhub.Automaton.Root.{link_root-IsPartial}
use censorhub.Automaton.Queue.{IsPartial, link_children_lem}

-- Every node is linked.
pub record IsComplete (h₀ : Heap) (stored : Text → List WordMeta) (h : Heap) : Type 0 where
  pub same : SameTrie h₀ h
  pub links : (s : Text) (a : ℕ) → walk h₀.children 0 s ≡ some a → IsLinked h₀.children stored h s a

module _ (order : ℕ → List Edge → List Edge) where
  link_queue_step :
      (k : ℕ) (h h' : Heap) (a : ℕ) (es : List Edge) (queue queue' : List ℕ)
      → order a (h.children a) ≡ es
      → link_children h queue a es ≡ some (h', queue')
      → link_queue order (suc k) h (a ∷ queue) ≡ link_queue order k h' queue'
  unfolding link_queue
  link_queue_step k h h' a es queue queue' v e = rw (v, e)

  link_queue_end : (k : ℕ) (h : Heap) → link_queue order k h [] ≡ some h
  unfolding link_queue
  link_queue_end zero h = refl
  link_queue_end (suc k) h = refl

module _ (order : ℕ → List Edge → List Edge) (visits_all : VisitsAll order) (h₀ : Heap)
    (stored : Text → List WordMeta) (store : IsStore h₀ stored) where
  -- The rounds for the nodes of one level link the next level.
  level_lem :
      (d : ℕ) (xs ys : List ℕ) (h : Heap) (f : ℕ)
      → All (AtDepth h₀ (suc d)) xs
      → IsPartial h₀ stored (suc d) (successors order h₀ xs) h
      → (h' : Heap) × (link_queue order (length xs + f) h (xs ++ ys)
          ≡ link_queue order f h' (ys ++ successors order h₀ xs))
        × IsPartial h₀ stored (suc d) [] h'
  unfolding successors
  level_lem d [] ys h f at part = (
    h,
    ap₂ (λ (k : ℕ) (l : List ℕ). link_queue order k h l) (omega arith) (sym (append-nil ys)),
    part,
  )
  level_lem d (a ∷ xs) ys h f (([], at, len), rest) part = absurd (omega arith)
  level_lem d (a ∷ xs) ys h f ((x ∷ s, at, len), rest) part =
      let es = order a (h₀.children a) in
      let (h₁, ran, part₁) =
        link_children_lem h₀ stored store x s (suc d) h (xs ++ ys) a es (successors order h₀ xs) len
          at
          (All-of_mem (λ (e : Edge). child e.0 (h₀.children a) ≡ some e.1) es
            (visits-child order visits_all h₀ store.tree a))
          part in
      let (h₂, ran', part₂) = level_lem d xs (ys ++ map (λ (e : Edge). e.1) es) h₁ f rest part₁ in
      (
        h₂,
        rw suc-add (
            link_queue_step order (length xs + f) h h₁ a es (xs ++ ys)
              ((xs ++ ys) ++ map (λ (e : Edge). e.1) es)
              (ap (λ (kids : ℕ → List Edge). order a (kids a)) part.same.children) ran
            ∙ ap (link_queue order (length xs + f) h₁) (append_assoc xs ys _)
            ∙ ran'
            ∙ ap (link_queue order f h₂) (append_assoc ys _ (successors order h₀ xs))),
        part₂,
      )

  -- A finished level is the start of the next.
  next_level :
      (d : ℕ) (ys : List ℕ) (h : Heap)
      → IsLevel h₀ (suc (suc d)) ys
      → IsPartial h₀ stored d [] h
      → IsPartial h₀ stored (suc d) ys h
  next_level d ys h level part = record {
    same = part.same;
    done = λ s a at len. elim (dec_le (length s) d) [
      | yes low ↦ part.done s a at low
      | no high ↦ part.reached s a at (omega arith) not-mem-nil
    ];
    reached = λ s a at len out. absurd (out (level.complete s a at len));
    pending = λ s a at len m. part.later s a at (omega arith);
    later = λ s a at len. part.later s a at (omega arith);
    distinct = level.distinct;
  }

  -- The queue runs dry after as many rounds as there are nodes in the levels.
  queue_lem :
      (k d : ℕ) (xs : List ℕ) (h : Heap)
      → h₀.next ≤ suc d + k
      → IsLevel h₀ (suc d) xs
      → IsPartial h₀ stored (suc d) (successors order h₀ xs) h
      → (h' : Heap) × (link_queue order (queue_total order h₀ k xs) h xs ≡ some h')
        × IsComplete h₀ stored h'
  unfolding queue_total
  queue_lem zero d xs h deep level part = (
    h,
    ap (link_queue order 0 h)
          (IsLevel-nil order visits_all h₀ store.tree (suc d) xs (omega arith) level)
        ∙ link_queue_end order 0 h,
    record {
      same = part.same;
      links = λ s a at.
          part.done s a at (omega (arith, walk_bound h₀ store.tree 0 s a store.tree.positive at));
    },
  )
  queue_lem (suc k) d xs h deep level part =
      let next = successors-IsLevel order visits_all h₀ store.tree (suc d) xs level in
      let more =
        successors-IsLevel order visits_all h₀ store.tree (suc (suc d)) (successors order h₀ xs)
          next in
      let (h₁, ran, part₁) =
        level_lem d xs [] h (queue_total order h₀ k (successors order h₀ xs)) level.nodes part in
      let (h₂, ran', complete) =
        queue_lem k (suc d) (successors order h₀ xs) h₁ (omega arith) next
          (next_level (suc d) (successors order h₀ (successors order h₀ xs)) h₁ more part₁) in
      (
        h₂,
        ap (link_queue order (length xs + queue_total order h₀ k (successors order h₀ xs)) h)
              (sym (append-nil xs))
            ∙ ran
            ∙ ran',
        complete,
      )

-- After the first loop the first level is linked, and the second one is next.
module _ (order : ℕ → List Edge → List Edge) (visits_all : VisitsAll order) (h₀ : Heap)
    (stored : Text → List WordMeta) (store : IsStore h₀ stored) where
  pub build_fail_pointers_lem :
      (h : Heap) × (build_fail_pointers order h₀ ≡ some h) × IsComplete h₀ stored h
  unfolding build_fail_pointers
  build_fail_pointers_lem =
      let level = first-IsLevel order visits_all h₀ store.tree in
      let xs = map (λ (e : Edge). e.1) (order 0 (h₀.children 0)) in
      queue_lem order visits_all h₀ stored store h₀.next 0 xs
        (link_root h₀ (order 0 (h₀.children 0))) (omega arith) level
        (link_root-IsPartial h₀ stored store (order 0 (h₀.children 0)) (successors order h₀ xs)
          level (visits-child order visits_all h₀ store.tree 0)
          (successors-IsLevel order visits_all h₀ store.tree 1 xs level))
