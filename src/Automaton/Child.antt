-- ===== src/Automaton/Child.antt =====
-- `link_child` sets the fail pointer and the output of one child, and nothing else.
use mathlib.Core.Path.{ap₂}
use mathlib.Core.List.{append-nil}
use censorhub.Prelude.{
  ℕ, ◌+◌, ◌≤◌, ◌≡◌, ◌≢◌, inl, inr, refl, ap, ◌∙◌, Option, some, List, [], ◌∷◌, ◌++◌, if◌then◌else◌,
  length, is_empty, update, arith, Bool-cases, length-append,
}
use censorhub.Text.{Text}
use censorhub.Automaton.{WordMeta, Heap, child, climb, fail_target, link_child}
use censorhub.Automaton.Trie.{walk, walk_bound}
use censorhub.Automaton.Suffix.{ending, longest, length-longest, longest-longest, ending-longest}
use censorhub.Automaton.Link.{IsLinked, SameTrie, IsStore, climb_lem, walk_next, stored_none}

-- The heap after one child: `c` now fails to `q`.
pub linked : Heap → ℕ → ℕ → Heap
linked h c q = record h {
  fail = update h.fail c (some q);
  output = if is_empty (h.output q) then h.output else update h.output c (h.output c ++ h.output q);
}

linked-output : (h : Heap) (c q : ℕ) → (linked h c q).output c ≡ h.output c ++ h.output q
unfolding linked
linked-output h c q = go (h.output q) refl
  where
    go :
        (out : List WordMeta)
        → h.output q ≡ out
        → (if is_empty out then h.output else update h.output c (h.output c ++ out)) c
          ≡ h.output c ++ out
    go [] e = rw append-nil
    go (m ∷ out) e = ground arith

linked-output_ne : (h : Heap) (c q b : ℕ) → b ≢ c → (linked h c q).output b ≡ h.output b
unfolding linked
linked-output_ne h c q b ne = elim (Bool-cases (is_empty (h.output q))) [
  | inl y ↦ rw y
  | inr n ↦ rw n (ground arith)
]

pub record SetsChild (h h' : Heap) (c : ℕ) : Type 0 where
  pub fail_kept : (b : ℕ) → b ≢ c → h'.fail b ≡ h.fail b
  pub output_kept : (b : ℕ) → b ≢ c → h'.output b ≡ h.output b

pub linked-SetsChild : (h : Heap) (c q : ℕ) → SetsChild h (linked h c q) c
linked-SetsChild h c q = record {
  fail_kept = λ b ne. unfold linked in ground arith;
  output_kept = linked-output_ne h c q;
}

pub linked-SameTrie : (h₀ h : Heap) (c q : ℕ) → SameTrie h₀ h → SameTrie h₀ (linked h c q)
unfolding linked
linked-SameTrie h₀ h c q same = record { next = same.next; children = same.children }

link_child-linked :
    (h : Heap) (a r c : ℕ) (met : Option ℕ) (q : ℕ)
    → climb h h.next (h.fail a) r ≡ some met
    → fail_target h met r c ≡ some q
    → link_child h a (r, c) ≡ some (linked h c q)
unfolding link_child linked
link_child-linked h a r c met q e f = rw (e, f)

module _ (h₀ : Heap) (stored : Text → List WordMeta) (store : IsStore h₀ stored) (h : Heap)
    (same : SameTrie h₀ h) (d : ℕ)
    (done : (s : Text) (a : ℕ)
      → walk h₀.children 0 s ≡ some a
      → length s ≤ d
      → IsLinked h₀.children stored h s a) where
  -- For the child `c` of a node of depth `d` the round succeeds and links `c`.
  pub link_child_lem :
      (x : ℕ) (s : Text) (a r c : ℕ)
      → length (x ∷ s) ≡ d
      → walk h₀.children 0 (x ∷ s) ≡ some a
      → child r (h₀.children a) ≡ some c
      → h.output c ≡ stored (x ∷ s ++ r ∷ [])
      → (q : ℕ) × (link_child h a (r, c) ≡ some (linked h c q))
        × IsLinked h₀.children stored (linked h c q) (x ∷ (s ++ r ∷ [])) c
  link_child_lem x s a r c depth at edge pending =
      let whole : walk h₀.children 0 (x ∷ (s ++ r ∷ [])) ≡ some c =
        walk_next h₀ stored store h same (x ∷ s) a r c at edge in
      let (b, f, at_b) = (done (x ∷ s) a at (omega arith)).fails in
      let len : length (s ++ r ∷ []) ≡ length s + 1 = length-append s (r ∷ []) in
      let short : length (longest h₀.children s) ≤ length s = length-longest h₀.children s in
      let room = walk_bound h₀ store.tree 0 (x ∷ (s ++ r ∷ [])) c store.tree.positive whole in
      let up =
        climb_lem h₀ stored store h same d done r c (x ∷ (s ++ r ∷ [])) whole (omega arith) h.next
          (longest h₀.children s) b at_b (omega arith) (omega (arith, same.next)) in
      let z = longest h₀.children (s ++ r ∷ []) in
      let at_z : walk h₀.children 0 z ≡ some up.target =
        ap (walk h₀.children 0) (longest-longest h₀.children s r) ∙ up.reaches in
      let short_z : length z ≤ length (s ++ r ∷ []) = length-longest h₀.children (s ++ r ∷ []) in
      let merged : h.output up.target ≡ ending stored (s ++ r ∷ []) =
        (done z up.target at_z (omega arith)).output
        ∙ ending-longest h₀.children stored (stored_none h₀ stored store h same) (s ++ r ∷ []) in
      (
        up.target,
        link_child-linked h a r c up.node up.target
            (ap (λ (o : Option ℕ). climb h h.next o r) f ∙ up.ends) up.points,
        record {
          fails = (up.target, unfold linked in ground arith, at_z);
          output =
              linked-output h c up.target
              ∙ ap₂ (λ (l m : List WordMeta). l ++ m) pending merged
              ∙ unfold ending in refl;
        },
      )
