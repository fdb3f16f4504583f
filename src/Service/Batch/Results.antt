-- ===== src/Service/Batch/Results.antt =====
-- The slice of results of `BatchDetect`: which places are still open, and how many hits it holds.
use mathlib.Core.List.{
  Mem, Mem-prop, Nodup, Nodup-nil, Nodup-cons, mem-cons, mem-cons_self, mem-cons_of_mem,
  not-mem-nil,
}
use mathlib.Core.Logic.Or
use native.Mathlib.Bridge.{le_prop}
use mathlib.Core.Path.{subst}
use censorhub.Prelude.{
  ℕ, zero, suc, ◌+◌, ◌-◌, ◌≤◌, ◌≡◌, ◌≢◌, ◌↔◌, refl, sym, ap, Option, none, some, List, [], ◌∷◌, map,
  if◌then◌else◌, length, get_elem?, arith,
}
use censorhub.Text.{Text}
use censorhub.Service.Filter.{FilterResponse}
use censorhub.Service.Batch.{BatchJob, jobs_from, no_results, set_result}

-- The results that are hits.
unfoldable pub hits_of : List (Option FilterResponse) → ℕ
hits_of [] = 0
hits_of (none ∷ rs) = hits_of rs
hits_of (some r ∷ rs) = if r.is_hit then suc (hits_of rs) else hits_of rs

-- Writing into an open place.
pub record Written (i : ℕ) (r : FilterResponse) (xs ys : List (Option FilterResponse))
    : Type 0 where
  pub here : get_elem? ys i ≡ some (some r)
  pub elsewhere : (j : ℕ) → j ≢ i → get_elem? ys j ≡ get_elem? xs j
  pub kept : length ys ≡ length xs
  pub hits : hits_of ys ≡ (if r.is_hit then suc (hits_of xs) else hits_of xs)

next_place :
    (j : ℕ)
    → j ≢ 0
    → (r : FilterResponse) (xs : List (Option FilterResponse))
    → get_elem? (some r ∷ xs) j ≡ get_elem? (none ∷ xs) j
next_place zero other r xs = absurd (other refl)
next_place (suc j) other r xs = refl

later_place :
    (i : ℕ) (x : Option FilterResponse) (xs ys : List (Option FilterResponse))
    → ((j : ℕ) → j ≢ i → get_elem? ys j ≡ get_elem? xs j)
    → (j : ℕ) → j ≢ suc i
    → get_elem? (x ∷ ys) j ≡ get_elem? (x ∷ xs) j
later_place i x xs ys same zero other = refl
later_place i x xs ys same (suc j) other = same j (λ e. other (ap suc e))

hits_later :
    (r : FilterResponse) (x : Option FilterResponse) (xs ys : List (Option FilterResponse))
    → hits_of ys ≡ (if r.is_hit then suc (hits_of xs) else hits_of xs)
    → hits_of (x ∷ ys) ≡ (if r.is_hit then suc (hits_of (x ∷ xs)) else hits_of (x ∷ xs))
unfolding hits_of
hits_later r none xs ys h = h
hits_later r (some a) xs ys h = ground arith

pub set_result-Written :
    (i : ℕ) (r : FilterResponse) (xs : List (Option FilterResponse))
    → get_elem? xs i ≡ some none
    → (ys : List (Option FilterResponse)) × (set_result i r xs ≡ some ys) × Written i r xs ys
unfolding set_result hits_of
set_result-Written i r [] vacant = absurd (ground arith)
set_result-Written zero r (none ∷ xs) vacant = (
  some r ∷ xs,
  refl,
  record { here = refl; elsewhere = λ j other. next_place j other r xs; kept = refl; hits = refl },
)
set_result-Written zero r (some a ∷ xs) vacant = absurd (ground arith)
set_result-Written (suc i) r (x ∷ xs) vacant =
    let (ys, e, w) = set_result-Written i r xs vacant in
    (
      x ∷ ys,
      rw e refl,
      record {
        here = w.here;
        elsewhere = later_place i x xs ys w.elsewhere;
        kept = ap suc w.kept;
        hits = hits_later r x xs ys w.hits;
      },
    )

pub Mem-rest : (a b : ℕ) (xs : List ℕ) → Mem a (b ∷ xs) → a ≢ b → Mem a xs
Mem-rest a b xs m other = Or.elim Mem-prop (mem-cons.0 m) (λ e. absurd (other e)) (λ h. h)

-- The places before any job ran are those of the jobs.
no_results-open :
    (k i : ℕ) (texts : List Text)
    → (get_elem? (no_results texts) i ≡ some none)
      ↔ Mem (k + i) (map (λ (j : BatchJob). j.idx) (jobs_from k texts))
unfolding jobs_from
no_results-open k i [] = (λ h. absurd (ground arith), λ m. absurd (not-mem-nil m))
no_results-open k zero (t ∷ ts) =
    let same : k + 0 ≡ k = omega arith in (λ h. rw same mem-cons_self, λ m. refl)
no_results-open k (suc i) (t ∷ ts) =
    let rest = no_results-open (suc k) i ts in
    let same : suc k + i ≡ k + suc i = omega arith in
    (
      λ h. rw (sym same) (mem-cons_of_mem k (rest.0 h)),
      λ m. rest.1 (rw same (Mem-rest (k + suc i) k _ m (λ e. absurd (omega arith)))),
    )

jobs_from-bound :
    (k i : ℕ) (texts : List Text)
    → Mem i (map (λ (j : BatchJob). j.idx) (jobs_from k texts))
    → k ≤ i
unfolding jobs_from
jobs_from-bound k i [] m = absurd (not-mem-nil m)
jobs_from-bound k i (t ∷ ts) m =
    Or.elim (hlevel le_prop) (mem-cons.0 m) (λ e. omega arith)
      (λ h. let low = jobs_from-bound (suc k) i ts h in omega arith)

pub jobs_from-Nodup :
    (k : ℕ) (texts : List Text) → Nodup (map (λ (j : BatchJob). j.idx) (jobs_from k texts))
unfolding jobs_from
jobs_from-Nodup k [] = Nodup-nil
jobs_from-Nodup k (t ∷ ts) = Nodup-cons.1 (
  λ m. let low = jobs_from-bound (suc k) k ts m in absurd (omega arith),
  jobs_from-Nodup (suc k) ts,
)

pub no_results-Mem :
    (i : ℕ) (texts : List Text)
    → (get_elem? (no_results texts) i ≡ some none)
      ↔ Mem i (map (λ (j : BatchJob). j.idx) (jobs_from 0 texts))
no_results-Mem i texts =
    let first : 0 + i ≡ i = omega arith in
    subst
      (λ k.
        (get_elem? (no_results texts) i ≡ some none)
        ↔ Mem k (map (λ (j : BatchJob). j.idx) (jobs_from 0 texts)))
      first (no_results-open 0 i texts)

-- A job carries the text at its place.
job_text_from :
    (k : ℕ) (texts : List Text) (job : BatchJob)
    → Mem job (jobs_from k texts)
    → (k ≤ job.idx) × (get_elem? texts (job.idx - k) ≡ some job.text)
unfolding jobs_from
job_text_from k [] job m = absurd (not-mem-nil m)
job_text_from k (t ∷ ts) job m =
    Or.elim (hlevel le_prop) (mem-cons.0 m)
      (λ e. rw e (omega arith, let zero_off : k - k ≡ 0 = omega arith in rw zero_off refl))
      (λ h.
        let (low, same) = job_text_from (suc k) ts job h in
        let off : job.idx - k ≡ suc (job.idx - suc k) = omega arith in (omega arith, rw off same))

pub no_results-length : (texts : List Text) → length (no_results texts) ≡ length texts
no_results-length [] = refl
no_results-length (t ∷ ts) = ap suc (no_results-length ts)

pub no_results-hits : (texts : List Text) → hits_of (no_results texts) ≡ 0
unfolding hits_of
no_results-hits [] = refl
no_results-hits (t ∷ ts) = no_results-hits ts

pub no_results-vacant :
    (i : ℕ) (r : FilterResponse) (texts : List Text)
    → get_elem? (no_results texts) i ≢ some (some r)
no_results-vacant i r [] h = ground arith
no_results-vacant zero r (t ∷ ts) h = ground arith
no_results-vacant (suc i) r (t ∷ ts) h = no_results-vacant i r ts h

-- A list of the length of the texts has a place for every text.
pub place_of_text :
    (xs : List (Option FilterResponse)) (texts : List Text) (i : ℕ) (text : Text)
    → length xs ≡ length texts
    → get_elem? texts i ≡ some text
    → (x : Option FilterResponse) × (get_elem? xs i ≡ some x)
place_of_text xs [] i text same e = absurd (ground arith)
place_of_text [] (t ∷ ts) i text same e = absurd (ground arith)
place_of_text (x ∷ xs) (t ∷ ts) zero text same e = (x, refl)
place_of_text (x ∷ xs) (t ∷ ts) (suc i) text same e = place_of_text xs ts i text (ground arith) e

pub job_text :
    (texts : List Text) (job : BatchJob)
    → Mem job (jobs_from 0 texts)
    → get_elem? texts job.idx ≡ some job.text
job_text texts job m =
    let (low, same) = job_text_from 0 texts job m in
    let whole : job.idx ≡ job.idx - 0 = omega arith in rw whole same
