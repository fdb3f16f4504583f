-- ===== src/Automaton/Link.antt =====
-- One child of `buildFailPointers`: the climb finds the node of the longest proper suffix.
use censorhub.Prelude.{
  ℕ, zero, suc, ◌≤◌, ◌<◌, ◌≡◌, inl, inr, refl, sym, ap, ◌∙◌, Option, none, some, false, List, [],
  ◌∷◌, ◌++◌, ◌==◌, length, arith, Option-cases, Bool-cases, length-append,
}
use censorhub.Text.{Text}
use censorhub.Automaton.{WordMeta, Edge, Heap, child, climb, fail_target}
use censorhub.Automaton.Trie.{walk, walk-append, read, read-none, IsTree}
use censorhub.Automaton.Suffix.{
  ending, longest, longest_node, longest-none, length-longest, longest-longest,
}

-- The fail pointer of the node of a text: nil at the root, else the node of the longest proper
-- suffix that is a node.
abbrev pub FailsTo : (ℕ → List Edge) → Heap → ℕ → Text → Type 0
FailsTo kids h a [] = h.fail a ≡ none
FailsTo kids h a (x ∷ s) = (b : ℕ) × (h.fail a ≡ some b) × (walk kids 0 (longest kids s) ≡ some b)

pub record IsLinked (kids : ℕ → List Edge) (stored : Text → List WordMeta) (h : Heap) (s : Text)
    (a : ℕ) : Type 0 where
  pub fails : FailsTo kids h a s
  pub output : h.output a ≡ ending stored s

-- What stays the same while the pointers are set.
pub record SameTrie (h₀ h : Heap) : Type 0 where
  pub next : h.next ≡ h₀.next
  pub children : h.children ≡ h₀.children

-- The trie before any pointer is set, with what it stores.
pub record IsStore (h₀ : Heap) (stored : Text → List WordMeta) : Type 0 where
  pub tree : IsTree h₀
  pub reads : (s : Text) → read h₀ s ≡ stored s
  pub root : stored [] ≡ []

pub climb_found :
    (h : Heap) (k b r q : ℕ)
    → child r (h.children b) ≡ some q
    → climb h (suc k) (some b) r ≡ some (some b)
unfolding climb
climb_found h k b r q e = rw (e, climb)

pub climb_on :
    (h : Heap) (k b r : ℕ)
    → child r (h.children b) ≡ none
    → climb h (suc k) (some b) r ≡ climb h k (h.fail b) r
unfolding climb
climb_on h k b r e = rw (e, climb)

module _ (h₀ : Heap) (stored : Text → List WordMeta) (store : IsStore h₀ stored) (h : Heap)
    (same : SameTrie h₀ h) where
  pub child_same : (a r : ℕ) → child r (h.children a) ≡ child r (h₀.children a)
  child_same a r = ap (λ (f : ℕ → List Edge). child r (f a)) same.children

  pub stored_none : (s : Text) → walk h₀.children 0 s ≡ none → stored s ≡ []
  stored_none s e = sym (store.reads s) ∙ read-none h₀ s e

  -- The text of a rune after a node: a node itself, or its longest suffix is a shorter one's.
  pub walk_next :
      (t : Text) (b r q : ℕ)
      → walk h₀.children 0 t ≡ some b
      → child r (h₀.children b) ≡ some q
      → walk h₀.children 0 (t ++ r ∷ []) ≡ some q
  unfolding walk
  walk_next t b r q at e = rw (walk-append h₀.children 0 t (r ∷ []), at) (rw e)

  pub longest_next :
      (t : Text) (b r q : ℕ)
      → walk h₀.children 0 t ≡ some b
      → child r (h₀.children b) ≡ some q
      → walk h₀.children 0 (longest h₀.children (t ++ r ∷ [])) ≡ some q
  longest_next t b r q at e =
      let whole = walk_next t b r q at e in
      ap (walk h₀.children 0) (longest_node h₀.children (t ++ r ∷ []) q whole) ∙ whole

  pub longest_stuck :
      (t : Text) (b r : ℕ)
      → walk h₀.children 0 t ≡ some b
      → child r (h₀.children b) ≡ none
      → walk h₀.children 0 (t ++ r ∷ []) ≡ none
  longest_stuck t b r at e = rw (walk-append h₀.children 0 t (r ∷ []), at) (unfold walk in rw e)

  module _ (d : ℕ)
      (done : (s : Text) (a : ℕ)
        → walk h₀.children 0 s ≡ some a
        → length s ≤ d
        → IsLinked h₀.children stored h s a)
      (r c : ℕ) (w : Text) (at_c : walk h₀.children 0 w ≡ some c) (deep : d < length w) where
    other_node :
        (t : Text) (q : ℕ)
        → walk h₀.children 0 (t ++ r ∷ []) ≡ some q
        → length t < d
        → (q == c) ≡ false
    other_node t q at low = elim (Bool-cases (q == c)) [
      | inr n ↦ n
      | inl y ↦
          let met : t ++ r ∷ [] ≡ w =
            store.tree.unique (t ++ r ∷ []) w c (ground (arith, at)) at_c in
          absurd (omega (arith, ap length met, length-append t (r ∷ []), deep))
    ]

    fail_target-some :
        (b q : ℕ)
        → child r (h.children b) ≡ some q
        → (q == c) ≡ false
        → fail_target h (some b) r c ≡ some q
    unfolding fail_target
    fail_target-some b q e n = rw (e, fail_target) (rw n)

    -- A climb that ends, and the node that it gives the new pointer.
    pub record Climbs (k : ℕ) (start : Option ℕ) (t : Text) : Type 0 where
      pub node : Option ℕ
      pub target : ℕ
      pub ends : climb h k start r ≡ some node
      pub points : fail_target h node r c ≡ some target
      pub reaches : walk h₀.children 0 (longest h₀.children (t ++ r ∷ [])) ≡ some target

    -- The climb from the node of `t` ends, at the node of the longest suffix of `t` and the rune.
    Climbs-found :
        (k : ℕ) (t : Text) (b q : ℕ)
        → walk h₀.children 0 t ≡ some b
        → child r (h₀.children b) ≡ some q
        → length t < d
        → Climbs (suc k) (some b) t
    Climbs-found k t b q at e low =
        let here : child r (h.children b) ≡ some q = child_same b r ∙ e in
        record {
          node = some b;
          target = q;
          ends = climb_found h k b r q here;
          points = fail_target-some b q here (other_node t q (walk_next t b r q at e) low);
          reaches = longest_next t b r q at e;
        }

    Climbs-root :
        (k b : ℕ)
        → walk h₀.children 0 [] ≡ some b
        → child r (h₀.children b) ≡ none
        → Climbs (suc (suc k)) (some b) []
    unfolding walk climb fail_target
    Climbs-root k b at e =
        let zero_b : 0 ≡ b = ground (arith, at) in
        let nil : h.fail b ≡ none = rw (← zero_b) (done [] 0 refl (omega arith)).fails in
        record {
          node = none;
          target = 0;
          ends = climb_on h (suc k) b r (child_same b r ∙ e) ∙ rw nil;
          points = refl;
          reaches =
              ap (walk h₀.children 0) (longest-none h₀.children r [] (longest_stuck [] b r at e))
              ∙ unfold longest in refl;
        }

    Climbs-inner :
        (k : ℕ) (y : ℕ) (t : Text) (b b' : ℕ)
        → walk h₀.children 0 (y ∷ t) ≡ some b
        → child r (h₀.children b) ≡ none
        → h.fail b ≡ some b'
        → Climbs k (some b') (longest h₀.children t)
        → Climbs (suc k) (some b) (y ∷ t)
    Climbs-inner k y t b b' at e f up = record {
      node = up.node;
      target = up.target;
      ends =
          climb_on h k b r (child_same b r ∙ e) ∙ ap (λ (o : Option ℕ). climb h k o r) f ∙ up.ends;
      points = up.points;
      reaches =
          ap (walk h₀.children 0) (
            longest-none h₀.children y (t ++ r ∷ []) (longest_stuck (y ∷ t) b r at e)
            ∙ longest-longest h₀.children t r)
          ∙ up.reaches;
    }

    pub climb_lem :
        (k : ℕ) (t : Text) (b : ℕ)
        → walk h₀.children 0 t ≡ some b
        → length t < d
        → suc (length t) < k
        → Climbs k (some b) t
    climb_lem zero t b at low fuel = absurd (omega arith)
    climb_lem (suc zero) t b at low fuel = absurd (omega arith)
    climb_lem (suc (suc k)) [] b at low fuel = elim (Option-cases (child r (h₀.children b))) [
      | inr (q, e) ↦ Climbs-found (suc k) [] b q at e low
      | inl e ↦ Climbs-root k b at e
    ]
    climb_lem (suc (suc k)) (y ∷ t) b at low fuel = elim (Option-cases (child r (h₀.children b))) [
      | inr (q, e) ↦ Climbs-found (suc k) (y ∷ t) b q at e low
      | inl e ↦
          let (b', f, at') = (done (y ∷ t) b at (omega arith)).fails in
          let short : length (longest h₀.children t) ≤ length t = length-longest h₀.children t in
          Climbs-inner (suc k) y t b b' at e f
            (climb_lem (suc k) (longest h₀.children t) b' at' (omega arith) (omega arith))
    ]
