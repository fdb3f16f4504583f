-- ===== src/Automaton/Insert.antt =====
-- `insert` keeps the trie, and adds the word at the end of the output of its node.
use mathlib.Core.List.{append_assoc, append-nil, foldl, Nodup-nil, not-mem-nil}
use censorhub.Prelude.{
  ℕ, ◌+◌, ◌<◌, ◌≡◌, inl, inr, refl, sym, ap, ◌∙◌, Bool, true, false, not, ◌&&◌, some, List, [], ◌∷◌,
  ◌++◌, if◌then◌else◌, length, is_empty, arith, Option-cases, Bool-cases, update, ◌==◌,
}
use censorhub.Text.{Text, Unicode, normalize, text_eq, text_eq_refl, text_eq_sound}
use censorhub.Automaton.{
  WordMeta, WordEntry, Heap, AhoCorasick, child, empty_heap, enter, descend, insert,
}
use censorhub.Automaton.Trie.{
  walk, walk-append, walk_bound, read, read-some, read-none, IsTree, add_child-IsTree,
  read-add_child, walk-add_child_new,
}

-- The specification: the words of a list that normalize to a text, in order.
unfoldable pub meta_of : Unicode → WordEntry → WordMeta
meta_of u e = record {
  text = e.text;
  length = length (normalize u e.text);
  category = e.category;
  level = e.level;
}

unfoldable pub stores : Unicode → WordEntry → Text → Bool
stores u e s = not (is_empty (normalize u e.text)) && text_eq (normalize u e.text) s

unfoldable pub own : Unicode → List WordEntry → Text → List WordMeta
own u [] s = []
own u (e ∷ es) s = if stores u e s then meta_of u e ∷ own u es s else own u es s

unfoldable pub count_words : Unicode → List WordEntry → ℕ
count_words u [] = 0
count_words u (e ∷ es) =
    if is_empty (normalize u e.text) then count_words u es else count_words u es + 1

pub record Reached (h h' : Heap) (s : Text) (c : ℕ) : Type 0 where
  pub tree : IsTree h'
  pub at_node : walk h'.children 0 s ≡ some c
  pub kept : (t : Text) → read h' t ≡ read h t

pub record IsTrieOf (u : Unicode) (es : List WordEntry) (ac : AhoCorasick) : Type 0 where
  pub tree : IsTree ac.heap
  pub stored : (s : Text) → read ac.heap s ≡ own u es s
  pub counted : ac.word_count ≡ count_words u es

enter-Reached :
    (h : Heap) (a r : ℕ) (s : Text)
    → IsTree h
    → walk h.children 0 s ≡ some a
    → Reached h (enter h a r).0 (s ++ r ∷ []) (enter h a r).1
unfolding enter walk
enter-Reached h a r s tree at = elim (Option-cases (child r (h.children a))) [
  | inl e ↦
      let inside : a < h.next = (walk_bound h tree 0 s a tree.positive at).1 in
      rw (e, enter)
        (record {
          tree = add_child-IsTree h tree a r inside e;
          at_node = walk-add_child_new h tree a r inside e s at;
          kept = read-add_child h tree a r inside e;
        })
  | inr (c, e) ↦
      rw (e, enter)
        (record {
          tree = tree;
          at_node = rw (walk-append h.children 0 s (r ∷ []), at) (rw (e, walk));
          kept = λ t. refl;
        })
]

pub descend-Reached :
    (h : Heap) (a : ℕ) (s rs : Text)
    → IsTree h
    → walk h.children 0 s ≡ some a
    → Reached h (descend h a rs).0 (s ++ rs) (descend h a rs).1
unfolding descend
descend-Reached h a s [] tree at = record {
  tree = tree;
  at_node = rw append-nil at;
  kept = λ t. refl;
}
descend-Reached h a s (r ∷ rs) tree at =
    let one = enter-Reached h a r s tree at in
    let more =
      descend-Reached (enter h a r).0 (enter h a r).1 (s ++ r ∷ []) rs one.tree one.at_node in
    record {
      tree = more.tree;
      at_node = rw (append_assoc s (r ∷ []) rs) at more.at_node;
      kept = λ t. more.kept t ∙ one.kept t;
    }

own-append :
    (u : Unicode) (es : List WordEntry) (e : WordEntry) (s : Text)
    → own u (es ++ e ∷ []) s ≡ own u es s ++ (if stores u e s then meta_of u e ∷ [] else [])
unfolding own
own-append u [] e s = refl
own-append u (d ∷ es) e s = elim (Bool-cases (stores u d s)) [
  | inl y ↦ rw y (ap (◌∷◌ (meta_of u d)) (own-append u es e s))
  | inr n ↦ rw n (own-append u es e s)
]

count_words-append :
    (u : Unicode) (es : List WordEntry) (e : WordEntry)
    → count_words u (es ++ e ∷ [])
      ≡ (if is_empty (normalize u e.text) then count_words u es else count_words u es + 1)
unfolding count_words
count_words-append u [] e = refl
count_words-append u (d ∷ es) e = ground (arith, count_words-append u es e)

abbrev add_output : Heap → ℕ → WordMeta → Heap
add_output h a m = record h { output = update h.output a (h.output a ++ m ∷ []) }

add_output-IsTree : (h : Heap) (a : ℕ) (m : WordMeta) → IsTree h → IsTree (add_output h a m)
add_output-IsTree h a m tree = record {
  positive = tree.positive;
  bound = tree.bound;
  fresh = tree.fresh;
  edges = tree.edges;
  parent = tree.parent;
  root_fail = tree.root_fail;
  distinct = tree.distinct;
  unique = tree.unique;
}

-- The word is added to what is stored for its text, and to nothing else.
read-add_output :
    (h : Heap) (tree : IsTree h) (w : Text) (a : ℕ) (m : WordMeta)
    → walk h.children 0 w ≡ some a
    → (s : Text) → read (add_output h a m) s ≡ read h s ++ (if text_eq w s then m ∷ [] else [])
read-add_output h tree w a m at s = elim (Bool-cases (text_eq w s)) [
  | inl y ↦
      let same : w ≡ s = text_eq_sound w s y in
      let here : walk h.children 0 s ≡ some a = rw (← same) at in
      rw (y, read-some h s a here, read-some (add_output h a m) s a here) (ground arith)
  | inr n ↦ elim (Option-cases (walk h.children 0 s)) [
    | inl e ↦ rw (n, read-none h s e, read-none (add_output h a m) s e)
    | inr (b, e) ↦ elim (Bool-cases (b == a)) [
      | inl same ↦
          let here : walk h.children 0 s ≡ some a = ground (arith, e) in
          cc (rw (tree.unique w s a at here, text_eq_refl s) at n)
      | inr other ↦
          rw (n, read-some h s b e, read-some (add_output h a m) s b e, other, append-nil) refl
    ]
  ]
]

own_skipped :
    (u : Unicode) (es : List WordEntry) (e : WordEntry) (s : Text)
    → is_empty (normalize u e.text) ≡ true
    → own u (es ++ e ∷ []) s ≡ own u es s
unfolding stores
own_skipped u es e s y = own-append u es e s ∙ rw (y, append-nil)

own_stored :
    (u : Unicode) (es : List WordEntry) (e : WordEntry) (s : Text)
    → is_empty (normalize u e.text) ≡ false
    → own u (es ++ e ∷ []) s
      ≡ own u es s ++ (if text_eq (normalize u e.text) s then meta_of u e ∷ [] else [])
unfolding stores
own_stored u es e s n = own-append u es e s ∙ rw n

pub insert-IsTrieOf :
    (u : Unicode) (es : List WordEntry) (ac : AhoCorasick) (e : WordEntry)
    → IsTrieOf u es ac
    → IsTrieOf u (es ++ e ∷ []) (insert u ac e)
unfolding insert meta_of
insert-IsTrieOf u es ac e trie = elim (Bool-cases (is_empty (normalize u e.text))) [
  | inl y ↦
      rw (y, insert)
        (record {
          tree = trie.tree;
          stored = λ s. trie.stored s ∙ sym (own_skipped u es e s y);
          counted = rw (count_words-append u es e, y) trie.counted;
        })
  | inr n ↦
      rw (n, insert)
        (record {
          tree = add_output-IsTree _ _ _ reached.tree;
          stored = λ s.
              read-add_output _ reached.tree (normalize u e.text) _ (meta_of u e) reached.at_node s
              ∙ ap
                  (λ (l : List WordMeta).
                    l ++ (if text_eq (normalize u e.text) s then meta_of u e ∷ [] else []))
                  (reached.kept s ∙ trie.stored s)
              ∙ sym (own_stored u es e s n);
          counted = rw (count_words-append u es e, n) (ap (λ (k : ℕ). k + 1) trie.counted);
        })
]
  where
    reached :
        Reached ac.heap
          (descend ac.heap 0 (normalize u e.text)).0
          (normalize u e.text)
          (descend ac.heap 0 (normalize u e.text)).1
    reached = descend-Reached ac.heap 0 [] (normalize u e.text) trie.tree (unfold walk in refl)

never_nil : (w : Text) → (not (is_empty w) && text_eq w []) ≡ false
unfolding text_eq
never_nil [] = refl
never_nil (x ∷ w) = refl

pub own-nil : (u : Unicode) (es : List WordEntry) → own u es [] ≡ []
unfolding own stores
own-nil u [] = refl
own-nil u (e ∷ es) = rw (never_nil (normalize u e.text)) (own-nil u es)

own_none : (u : Unicode) (s : Text) → own u [] s ≡ []
unfolding own
own_none u s = refl

empty-children : (a : ℕ) → empty_heap.children a ≡ []
unfolding empty_heap
empty-children a = ground arith

walk-empty : (s : Text) (a : ℕ) → walk empty_heap.children 0 s ≡ some a → s ≡ []
unfolding walk child
walk-empty [] a e = refl
walk-empty (r ∷ s) a e = cc (rw (empty-children 0) at e)

-- The heap with the root alone.
empty-IsTrieOf : (u : Unicode) → IsTrieOf u [] (record { heap = empty_heap; word_count = 0 })
unfolding empty_heap child own count_words
empty-IsTrieOf u = record {
  tree = record {
    positive = omega arith;
    bound = λ a r c e. ground arith;
    fresh = λ a le. ground arith;
    edges = λ a e m. absurd (not-mem-nil (rw (empty-children a) at m));
    parent = λ a b r q c e f. ground arith;
    root_fail = refl;
    distinct = λ a. rw (empty-children a) Nodup-nil;
    unique = λ s t a e f. walk-empty s a e ∙ sym (walk-empty t a f);
  };
  stored = λ s. elim (Option-cases (walk empty_heap.children 0 s)) [
    | inl e ↦ read-none empty_heap s e
    | inr (a, e) ↦ read-some empty_heap s a e ∙ ground arith
  ];
  counted = refl;
}

pub foldl-IsTrieOf :
    (u : Unicode) (es fs : List WordEntry) (ac : AhoCorasick)
    → IsTrieOf u es ac
    → IsTrieOf u (es ++ fs) (foldl (insert u) ac fs)
foldl-IsTrieOf u es [] ac trie = rw append-nil trie
foldl-IsTrieOf u es (f ∷ fs) ac trie =
    rw (append_assoc es (f ∷ []) fs) at
      (foldl-IsTrieOf u (es ++ f ∷ []) fs (insert u ac f) (insert-IsTrieOf u es ac f trie))

-- After all insertions the heap is the trie of the words.
pub inserted-IsTrieOf :
    (u : Unicode) (es : List WordEntry)
    → IsTrieOf u es (foldl (insert u) (record { heap = empty_heap; word_count = 0 }) es)
inserted-IsTrieOf u es = foldl-IsTrieOf u [] es _ (empty-IsTrieOf u)
