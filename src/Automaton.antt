-- ===== src/Automaton.antt =====
-- internal/infrastructure/algorithm/ac_automaton.go: the Aho-Corasick automaton.
-- The heap of nodes is kept field by field, addressed by the order of allocation; the root is
-- address 0. `none` in a result is a nil dereference or a loop that outruns its fuel.
pub mod Trie
pub mod Insert
pub mod Suffix
pub mod Levels
pub mod Link
pub mod Child
pub mod Depth
pub mod Queue
pub mod Root
pub mod Build
pub mod Search
pub mod Correct
pub mod Occurrences
pub mod Places
pub mod Finds
use mathlib.Core.List.{foldl}
use censorhub.Prelude.{
  ℕ, zero, suc, ℤ, ◌+◌, ◌-◌, Option, none, some, List, [], ◌∷◌, ◌++◌, map, ◌==◌, if◌then◌else◌,
  ◌>>=◌, length, is_empty, update,
}
use censorhub.Text.{Text, Unicode, normalize}
use censorhub.Domain.{MatchItem}

pub record WordMeta : Type 0 where
  pub text : Text
  pub length : ℕ
  pub category : Text
  pub level : ℤ

pub record WordEntry : Type 0 where
  pub text : Text
  pub category : Text
  pub level : ℤ

-- An edge of the trie: a rune and the address of the child.
abbrev pub Edge : Type 0
Edge = ℕ × ℕ

pub record Heap : Type 0 where
  pub next : ℕ
  pub children : ℕ → List Edge
  pub fail : ℕ → Option ℕ
  pub output : ℕ → List WordMeta

pub record AhoCorasick : Type 0 where
  pub heap : Heap
  pub word_count : ℕ

-- `node.children[r]`
unfoldable pub child : ℕ → List Edge → Option ℕ
child r [] = none
child r ((q, c) ∷ es) = if q == r then some c else child r es

-- `newACNode`: the node at the next address.
unfoldable pub new_node : Heap → Heap
new_node h = record h {
  next = suc h.next;
  children = update h.children h.next [];
  fail = update h.fail h.next none;
  output = update h.output h.next [];
}

unfoldable pub empty_heap : Heap
unfolding new_node
empty_heap = new_node (record { next = 0; children = λ a. []; fail = λ a. none; output = λ a. [] })

-- `curr.children[r] = newACNode()`
unfoldable pub add_child : Heap → ℕ → ℕ → Heap
unfolding new_node
add_child h a r =
    let h' = new_node h in
    record h' { children = update h'.children a ((r, h.next) ∷ h'.children a) }

-- One round of the loop of `insert`: the child is made if it is missing, and entered.
unfoldable pub enter : Heap → ℕ → ℕ → Heap × ℕ
unfolding child add_child
enter h a r = elim (child r (h.children a)) [ none ↦ (add_child h a r, h.next) | some c ↦ (h, c) ]

unfoldable pub descend : Heap → ℕ → Text → Heap × ℕ
unfolding enter
descend h a [] = (h, a)
descend h a (r ∷ rs) = let (h', c) = enter h a r in descend h' c rs

unfoldable pub insert : Unicode → AhoCorasick → WordEntry → AhoCorasick
unfolding descend
insert u ac entry =
    let normalized = normalize u entry.text in
    let (h, a) = descend ac.heap 0 normalized in
    let meta : WordMeta = record {
      text = entry.text;
      length = length normalized;
      category = entry.category;
      level = entry.level;
    } in
    if is_empty normalized then ac else record {
      heap = record h { output = update h.output a (h.output a ++ meta ∷ []) };
      word_count = ac.word_count + 1;
    }

-- `for failNode != nil && failNode.children[r] == nil { failNode = failNode.fail }`
unfoldable pub climb : Heap → ℕ → Option ℕ → ℕ → Option (Option ℕ)
unfolding child
climb h zero start r = none
climb h (suc k) none r = some none
climb h (suc k) (some f) r = elim (child r (h.children f)) [
  | none ↦ climb h k (h.fail f) r
  | some c ↦ some (some f)
]

-- The fail pointer of the child `c` under `r`: the root if the climb ended at nil or at `c` itself.
unfoldable pub fail_target : Heap → Option ℕ → ℕ → ℕ → Option ℕ
unfolding child
fail_target h none r c = some 0
fail_target h (some f) r c = elim (child r (h.children f)) [
  | none ↦ none
  | some t ↦ some (if t == c then 0 else t)
]

-- One round of the inner loop of `buildFailPointers`, for the child `c` of `curr` under `r`.
unfoldable pub link_child : Heap → ℕ → Edge → Option Heap
unfolding climb fail_target
link_child h curr (r, c) = do
  node ← climb h h.next (h.fail curr) r
  t ← fail_target h node r c
  some (record h {
    fail = update h.fail c (some t);
    output =
        if is_empty (h.output t) then h.output else update h.output c (h.output c ++ h.output t);
  })

unfoldable pub link_children : Heap → List ℕ → ℕ → List Edge → Option (Heap × List ℕ)
unfolding link_child
link_children h queue curr [] = some (h, queue)
link_children h queue curr (e ∷ es) = do
  h' ← link_child h curr e
  link_children h' (queue ++ e.1 ∷ []) curr es

-- The first loop of `buildFailPointers`: the children of the root fail to the root.
unfoldable pub link_root : Heap → List Edge → Heap
link_root h [] = h
link_root h ((r, c) ∷ es) = link_root (record h { fail = update h.fail c (some 0) }) es

-- The order in which `range` visits the children of a node is the runtime's choice.
module _ (order : ℕ → List Edge → List Edge) where
  -- `for len(queue) > 0`
  unfoldable pub link_queue : ℕ → Heap → List ℕ → Option Heap
  unfolding link_children
  link_queue zero h [] = some h
  link_queue zero h (a ∷ queue) = none
  link_queue (suc k) h [] = some h
  link_queue (suc k) h (a ∷ queue) = do
    (h', queue') ← link_children h queue a (order a (h.children a))
    link_queue k h' queue'

  -- The children of the nodes of a list, in the order of the visits.
  unfoldable pub successors : Heap → List ℕ → List ℕ
  successors h [] = []
  successors h (a ∷ rest) = map (λ e. e.1) (order a (h.children a)) ++ successors h rest

  -- How many nodes the queue ever holds, by levels: one round of the loop for each.
  unfoldable pub queue_total : Heap → ℕ → List ℕ → ℕ
  unfolding successors
  queue_total h zero level = 0
  queue_total h (suc k) level = length level + queue_total h k (successors h level)

  unfoldable pub build_fail_pointers : Heap → Option Heap
  unfolding link_queue queue_total link_root
  build_fail_pointers h =
      let es = order 0 (h.children 0) in
      let queue = map (λ e. e.1) es in
      link_queue (queue_total h h.next queue) (link_root h es) queue

  unfoldable pub new_aho_corasick : Unicode → List WordEntry → Option AhoCorasick
  unfolding insert empty_heap build_fail_pointers
  new_aho_corasick u words =
      let ac = foldl (insert u) (record { heap = empty_heap; word_count = 0 }) words in
      do h ← build_fail_pointers ac.heap; some (record ac { heap = h })

-- `for curr != ac.root && curr.children[r] == nil { curr = curr.fail }`
unfoldable pub fall_back : Heap → ℕ → ℕ → ℕ → Option ℕ
unfolding child
fall_back h zero a r = none
fall_back h (suc k) zero r = some 0
fall_back h (suc k) (suc a) r = elim (child r (h.children (suc a))) [
  | none ↦ elim (h.fail (suc a)) [ none ↦ none | some f ↦ fall_back h k f r ]
  | some c ↦ some (suc a)
]

-- `if next, ok := curr.children[r]; ok { curr = next }`
unfoldable pub advance : Heap → ℕ → ℕ → ℕ
unfolding child
advance h a r = elim (child r (h.children a)) [ none ↦ a | some c ↦ c ]

-- The match that ends with the rune at index `i`. That `i + 1` is at least the length is a theorem.
unfoldable pub match_at : ℕ → WordMeta → MatchItem
match_at i meta = record {
  word = meta.text;
  position = i + 1 - meta.length;
  end_pos = i + 1;
  category = meta.category;
  level = meta.level;
}

unfoldable pub search_from : Heap → ℕ → ℕ → Text → Option (List MatchItem)
unfolding fall_back advance match_at
search_from h i curr [] = some []
search_from h i curr (r ∷ rs) = do
  a ← fall_back h h.next curr r
  let b = advance h a r
  rest ← search_from h (suc i) b rs
  some (map (match_at i) (h.output b) ++ rest)

unfoldable pub search_normalized : AhoCorasick → Text → Option (List MatchItem)
unfolding search_from
search_normalized ac normalized =
    if ac.word_count == 0 then some [] else search_from ac.heap 0 0 normalized

unfoldable pub search : Unicode → AhoCorasick → Text → Option (List MatchItem)
unfolding search_normalized
search u ac text = search_normalized ac (normalize u text)
