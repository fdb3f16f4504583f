-- ===== src/Service/Race/Labels.antt =====
-- What the version in a cache key says of the automaton behind the entry.
use censorhub.Prelude.{ℕ, suc, ◌+◌, ◌≤◌, ◌≡◌, refl, List, [], ◌∷◌, ◌++◌, All, arith}
use censorhub.Service.Race.{
  Flight, keyed, matched, Source, own, other, Shared, Step, stores, counts, reads, hits, matches,
  ends, arrives, loses, Steps, done, then, at_start,
}

-- A version that was read, and the automaton behind it; of other processes nothing is known.
abbrev pub Between : ℕ → ℕ × Source → Type 0
Between limit (v, own g) = (v ≤ g) × (g ≤ limit)
Between limit (v, other) = Unit

abbrev pub IsTimely : Shared → Flight → Type 0
IsTimely s (keyed v) = v ≤ s.version
IsTimely s (matched v g) = Between s.stored (v, own g)

pub record IsOrdered (s : Shared) : Type 0 where
  pub numbered : s.stored ≡ s.version + s.pending
  pub alone : s.pending ≤ 1
  pub timely : All (IsTimely s) s.flights
  pub kept : All (Between s.stored) s.entries
  pub given : All (Between s.stored) s.answers

All-middle :
    {A : Type 0} (P : A → Type 0) (xs : List A) (x : A) (ys : List A)
    → All P (xs ++ x ∷ ys)
    → P x × All P (xs ++ ys)
All-middle P [] x ys h = h
All-middle P (z ∷ xs) x ys (p, h) = let (q, r) = All-middle P xs x ys h in (q, (p, r))

All-put :
    {A : Type 0} (P : A → Type 0) (xs : List A) (x : A) (ys : List A)
    → P x
    → All P (xs ++ ys)
    → All P (xs ++ x ∷ ys)
All-put P [] x ys p h = (p, h)
All-put P (z ∷ xs) x ys p (q, h) = (q, All-put P xs x ys p h)

All-imp :
    {A : Type 0} (P Q : A → Type 0) (xs : List A) → ((x : A) → P x → Q x) → All P xs → All Q xs
All-imp P Q [] f h = tt
All-imp P Q (x ∷ xs) f (p, h) = (f x p, All-imp P Q xs f h)

Between-suc : (n : ℕ) (p : ℕ × Source) → Between n p → Between (suc n) p
Between-suc n (v, own g) (a, b) = (a, omega arith)
Between-suc n (v, other) h = tt

IsTimely-stores :
    (s : Shared) (f : Flight)
    → IsTimely s f
    → IsTimely (record s { stored = suc s.stored; pending = 1 }) f
IsTimely-stores s (keyed v) h = h
IsTimely-stores s (matched v g) h = Between-suc s.stored (v, own g) h

IsTimely-counts :
    (s : Shared) (n : ℕ) (f : Flight)
    → IsTimely s f
    → IsTimely (record s { version = suc s.version; pending = n }) f
IsTimely-counts s n (keyed v) h = omega arith
IsTimely-counts s n (matched v g) h = h

Step-IsOrdered : {s t : Shared} → Step s t → IsOrdered s → IsOrdered t
Step-IsOrdered (stores s e) o = record {
  numbered = let n = o.numbered in omega arith;
  alone = omega arith;
  timely =
      All-imp (IsTimely s) (IsTimely (record s { stored = suc s.stored; pending = 1 })) s.flights
        (IsTimely-stores s) o.timely;
  kept =
      All-imp (Between s.stored) (Between (suc s.stored)) s.entries (Between-suc s.stored) o.kept;
  given =
      All-imp (Between s.stored) (Between (suc s.stored)) s.answers (Between-suc s.stored) o.given;
}
Step-IsOrdered (counts s n e) o = record {
  numbered = let m = o.numbered in omega arith;
  alone = let m = o.alone in omega arith;
  timely =
      All-imp (IsTimely s) (IsTimely (record s { version = suc s.version; pending = n })) s.flights
        (IsTimely-counts s n) o.timely;
  kept = o.kept;
  given = o.given;
}
Step-IsOrdered (reads s) o = record {
  numbered = o.numbered;
  alone = o.alone;
  timely = (omega arith, o.timely);
  kept = o.kept;
  given = o.given;
}
Step-IsOrdered (hits s fs gs es ds v g f e) o =
    let (_, rest) = All-middle (IsTimely s) fs (keyed v) gs (rw (f) at o.timely) in
    let (here, _) = All-middle (Between s.stored) es (v, g) ds (rw (e) at o.kept) in
    record {
      numbered = o.numbered;
      alone = o.alone;
      timely = rest;
      kept = o.kept;
      given = (here, o.given);
    }
Step-IsOrdered (matches s fs gs v f) o =
    let (early, rest) = All-middle (IsTimely s) fs (keyed v) gs (rw (f) at o.timely) in
    let n = o.numbered in
    let now : Between s.stored (v, own s.stored) = (omega arith, omega arith) in
    record {
      numbered = n;
      alone = o.alone;
      timely = All-put (IsTimely s) fs (matched v s.stored) gs now rest;
      kept = o.kept;
      given = o.given;
    }
Step-IsOrdered (ends s fs gs v g f) o =
    let (here, rest) = All-middle (IsTimely s) fs (matched v g) gs (rw (f) at o.timely) in
    record {
      numbered = o.numbered;
      alone = o.alone;
      timely = rest;
      kept = (here, o.kept);
      given = (here, o.given);
    }
Step-IsOrdered (arrives s v) o = record {
  numbered = o.numbered;
  alone = o.alone;
  timely = o.timely;
  kept = (tt, o.kept);
  given = o.given;
}
Step-IsOrdered (loses s es ds e same) o =
    let (_, rest) = All-middle (Between s.stored) es e ds (rw (same) at o.kept) in
    record {
      numbered = o.numbered;
      alone = o.alone;
      timely = o.timely;
      kept = rest;
      given = o.given;
    }

Steps-kept : {s t : Shared} → Steps s t → IsOrdered s → IsOrdered t
Steps-kept (done s) o = o
Steps-kept (then step steps) o = Steps-kept steps (Step-IsOrdered step o)

-- In every interleaving of calls of `Filter` and `Rebuild` from the start, with any entries that other
-- processes put into Redis meanwhile, at most one rebuild is between its two atomics, the automata
-- stored are the version and that one, and every cache entry and every answer of this process, from
-- the cache or not, comes from an automaton that is there and no older than the version that its call
-- read, if it does not come from another process.
pub Steps-IsOrdered : {s : Shared} → Steps at_start s → IsOrdered s
Steps-IsOrdered steps =
    Steps-kept steps
      (record { numbered = refl; alone = omega arith; timely = tt; kept = tt; given = tt })

-- From every state with no rebuild between its two atomics, a rebuild between the two loads of a call
-- leaves an entry whose key names the version before it and whose answer comes from the automaton
-- after it.
pub Steps-mislabelled :
    (s : Shared)
    → s.pending ≡ 0
    → (t : Shared) × Steps s t
      × ((es : List (ℕ × Source)) × (t.entries ≡ (s.version, own (suc s.stored)) ∷ es))
      × (t.version ≡ suc s.version)
      × (t.pending ≡ 0)
Steps-mislabelled s idle =
    let s1 : Shared = record s { flights = keyed s.version ∷ s.flights } in
    let s2 : Shared = record s1 { stored = suc s.stored; pending = 1 } in
    let s3 : Shared = record s2 { flights = matched s.version (suc s.stored) ∷ s.flights } in
    let s4 : Shared = record s3 { version = suc s.version; pending = 0 } in
    (
      record s4 {
        flights = s.flights;
        entries = (s.version, own (suc s.stored)) ∷ s.entries;
        answers = (s.version, own (suc s.stored)) ∷ s.answers;
      },
      then (reads s) (
          then (stores s1 idle) (
            then (matches s2 [] s.flights s.version refl) (
              then (counts s3 0 refl)
                (then (ends s4 [] s.flights s.version (suc s.stored) refl) (done _))))),
      (s.entries, refl),
      refl,
      refl,
    )
