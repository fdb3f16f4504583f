-- ===== src/Automaton/Root.antt =====
-- The first loop of `buildFailPointers`.
use mathlib.Core.List.{Mem, mem-cons, not-mem-nil, append-nil}
use mathlib.Core.Logic.Or
use censorhub.Prelude.{
  ℕ, ◌≤◌, ◌<◌, ◌≡◌, refl, sym, ap, ◌∙◌, none, some, List, [], ◌∷◌, map, length, All, arith, update,
  All-of_mem,
}
use censorhub.Text.{Text}
use censorhub.Automaton.{WordMeta, Edge, Heap, child, link_root}
use censorhub.Automaton.Trie.{walk, read-some}
use censorhub.Automaton.Suffix.{ending, longest}
use censorhub.Automaton.Depth.{IsLevel}
use censorhub.Automaton.Link.{IsLinked, SameTrie, IsStore}
use censorhub.Automaton.Queue.{IsPartial}

-- The first loop: the children of the root fail to the root.
link_root-SameTrie : (h₀ h : Heap) (es : List Edge) → SameTrie h₀ h → SameTrie h₀ (link_root h es)
unfolding link_root
link_root-SameTrie h₀ h [] same = same
link_root-SameTrie h₀ h ((r, c) ∷ es) same =
    link_root-SameTrie h₀ (record h { fail = update h.fail c (some 0) }) es
      (record { next = same.next; children = same.children })

output-link_root : (h : Heap) (es : List Edge) → (link_root h es).output ≡ h.output
unfolding link_root
output-link_root h [] = refl
output-link_root h ((r, c) ∷ es) =
    output-link_root (record h { fail = update h.fail c (some 0) }) es

link_root_kept :
    (h : Heap) (es : List Edge) (b : ℕ) → h.fail b ≡ some 0 → (link_root h es).fail b ≡ some 0
unfolding link_root
link_root_kept h [] b e = e
link_root_kept h ((r, c) ∷ es) b e =
    link_root_kept (record h { fail = update h.fail c (some 0) }) es b (ground arith)

link_root_set :
    (h : Heap) (es : List Edge) (b : ℕ)
    → Mem b (map (λ e. e.1) es)
    → (link_root h es).fail b ≡ some 0
unfolding link_root
link_root_set h [] b m = absurd (not-mem-nil m)
link_root_set h ((r, c) ∷ es) b m =
    let h' = record h { fail = update h.fail c (some 0) } in
    Or.elim (hlevel) (mem-cons.0 m) (λ e. link_root_kept h' es b (ground arith))
      (link_root_set h' es b)

link_root_root :
    (h : Heap) (es : List Edge)
    → All (λ (e : Edge). 0 < e.1) es
    → h.fail 0 ≡ none
    → (link_root h es).fail 0 ≡ none
unfolding link_root
link_root_root h [] pos e = e
link_root_root h ((r, c) ∷ es) (lt, pos) e =
    link_root_root (record h { fail = update h.fail c (some 0) }) es pos (ground arith)

module _ (h₀ : Heap) (stored : Text → List WordMeta) (store : IsStore h₀ stored) where
  output-stored : (s : Text) (a : ℕ) → walk h₀.children 0 s ≡ some a → h₀.output a ≡ stored s
  output-stored s a at = sym (read-some h₀ s a at) ∙ store.reads s

  module _ (es : List Edge) (rest : List ℕ) (level : IsLevel h₀ 1 (map (λ e. e.1) es))
      (edges : (e : Edge) → Mem e es → child e.0 (h₀.children 0) ≡ some e.1)
      (next : IsLevel h₀ 2 rest) where
    output_lem :
        (s : Text) (a : ℕ) → walk h₀.children 0 s ≡ some a → (link_root h₀ es).output a ≡ stored s
    output_lem s a at =
        ap (λ (f : ℕ → List WordMeta). f a) (output-link_root h₀ es) ∙ output-stored s a at

    first-IsLinked :
        (s : Text) (a : ℕ)
        → walk h₀.children 0 s ≡ some a
        → length s ≤ 1
        → IsLinked h₀.children stored (link_root h₀ es) s a
    unfolding walk longest ending
    first-IsLinked [] a at low = record {
      fails =
          let z : 0 ≡ a = ground (arith, at) in
          rw (← z) (
            link_root_root h₀ es
              (All-of_mem (λ (e : Edge). 0 < e.1) es
                (λ e m. (store.tree.bound 0 e.0 e.1 (edges e m)).0))
              store.tree.root_fail);
      output = output_lem [] a at ∙ store.root;
    }
    first-IsLinked (x ∷ []) a at low = record {
      fails = (0, link_root_set h₀ es a (level.complete (x ∷ []) a at refl), refl);
      output = output_lem (x ∷ []) a at ∙ sym (append-nil (stored (x ∷ [])));
    }
    first-IsLinked (x ∷ y ∷ s) a at low = absurd (omega arith)

    pub link_root-IsPartial : IsPartial h₀ stored 1 rest (link_root h₀ es)
    link_root-IsPartial = record {
      same = link_root-SameTrie h₀ h₀ es (record { next = refl; children = refl });
      done = first-IsLinked;
      reached = λ s a at len out. absurd (out (next.complete s a at len));
      pending = λ s a at len m. output_lem s a at;
      later = λ s a at len. output_lem s a at;
      distinct = next.distinct;
    }
