-- ===== src/Service/Batch/Progress.antt =====
-- The turns of `BatchDetect`: which places still wait for an answer, and what the others hold.
use mathlib.Core.List.{
  Mem, Nodup, Nodup-cons, Perm, mem-cons_self, mem-cons_of_mem, not-mem-nil, mem-map_of_mem,
}
use mathlib.Core.List.Perm
use mathlib.Core.Option.{some-injective}
use mathlib.Core.Path.{subst}
use censorhub.Prelude.{
  ℕ, suc, ◌≡◌, ◌≢◌, ◌↔◌, refl, sym, ◌∙◌, true, false, none, some, List, [], ◌∷◌, map, if◌then◌else◌,
  length, get_elem?, arith, All, is_empty, ◌==◌, ==_iff, Bool-cases, Option-cases, inl, inr,
}
use censorhub.Text.{Text, Unicode}
use censorhub.Domain.{MatchItem, strategy_detect}
use censorhub.Service.Filter.{FilterResponse, Timing, FilterAppService, Json, filter_text}
use censorhub.Service.Batch.{
  BatchFilterResponse, BatchJob, Turn, Batch, jobs_from, no_results, run_turn, run_turns,
  batch_detect,
}
use censorhub.Service.Batch.Results.{
  hits_of, set_result-Written, no_results-Mem, no_results-length, no_results-hits,
  no_results-vacant, place_of_text, jobs_from-Nodup, job_text, Mem-rest,
}

-- The places of the jobs of some turns.
abbrev places_of : List Turn → List ℕ
places_of turns = map (λ (j : BatchJob). j.idx) (map (λ (t : Turn). t.job) turns)

empty-length : (texts : List Text) → is_empty texts ≡ true → length texts ≡ 0
empty-length [] e = refl
empty-length (t ∷ ts) e = ground arith

empty-vacant :
    (texts : List Text) (i : ℕ) (text : Text)
    → is_empty texts ≡ true
    → get_elem? texts i ≢ some text
empty-vacant [] i text e h = ground arith
empty-vacant (t ∷ ts) i text e h = ground arith

-- A batch of texts was answered: every text has an answer at its place, and the hits are counted.
pub record IsBatch (P : Text → FilterResponse → Type 0) (texts : List Text)
    (resp : BatchFilterResponse) : Type 0 where
  pub total : resp.total ≡ length texts
  pub sized : length resp.results ≡ length texts
  pub answered :
      (i : ℕ) (text : Text)
      → get_elem? texts i ≡ some text
      → (r : FilterResponse) × (get_elem? resp.results i ≡ some (some r)) × P text r
  pub counted : resp.hit_num ≡ hits_of resp.results

module _ (sort : List MatchItem → List MatchItem) (u : Unicode) (json : Json) (strategy : Text)
    (texts : List Text) (P : Text → FilterResponse → Type 0) (Inv : FilterAppService → Type 0)
    (answers : (t : Timing) (text : Text) (s : FilterAppService)
      → Inv s
      → (r : FilterResponse) × (s' : FilterAppService) × (filter_text sort u json t
            (record { text = text; strategy = strategy })
            s
          ≡ some (r, s'))
        × Inv s'
        × P text r) where
  -- The open places are those of the turns to come, the others hold an answer.
  record Progress (turns : List Turn) (b : Batch) : Type 0 where
    awaited : (i : ℕ) → (get_elem? b.results i ≡ some none) ↔ Mem i (places_of turns)
    distinct : Nodup (places_of turns)
    texts_kept : (t : Turn) → Mem t turns → get_elem? texts t.job.idx ≡ some t.job.text
    answered :
        (i : ℕ) (r : FilterResponse)
        → get_elem? b.results i ≡ some (some r)
        → (text : Text) × (get_elem? texts i ≡ some text) × P text r
    counted : b.hit_num ≡ hits_of b.results
    sized : length b.results ≡ length texts
    kept : Inv b.service

  run_turn-Progress :
      (turn : Turn) (turns : List Turn) (b : Batch)
      → turn.cancelled ≡ false
      → Progress (turn ∷ turns) b
      → (b' : Batch) × (run_turn sort u json strategy turn b ≡ some b') × Progress turns b'
  unfolding run_turn
  run_turn-Progress turn turns b going p =
      let (r, s, called, inv, good) = answers turn.timing turn.job.text b.service p.kept in
      let (ys, stored, w) =
        set_result-Written turn.job.idx r b.results ((p.awaited turn.job.idx).1 mem-cons_self) in
      let (fresh, distinct) = Nodup-cons.0 p.distinct in
      (
        record {
          service = s;
          results = ys;
          hit_num = if r.is_hit then suc b.hit_num else b.hit_num;
        },
        rw (run_turn, going, called, stored) refl,
        record {
          awaited = λ i. elim (Bool-cases (i == turn.job.idx)) [
            | inl e ↦
                let same : i ≡ turn.job.idx = (==_iff i turn.job.idx).0 e in
                (
                  λ h.
                      absurd (
                        let taken : get_elem? ys i ≡ some (some r) = rw same w.here in
                        ground arith),
                  λ m. absurd (fresh (subst (λ k. Mem k (places_of turns)) same m)),
                )
            | inr e ↦
                let other : i ≢ turn.job.idx = λ same. ground arith in
                let alike = w.elsewhere i other in
                (
                  λ h.
                      Mem-rest i turn.job.idx (places_of turns) ((p.awaited i).0 (sym alike ∙ h))
                        other,
                  λ m. alike ∙ (p.awaited i).1 (mem-cons_of_mem turn.job.idx m),
                )
          ];
          distinct = distinct;
          texts_kept = λ t m. p.texts_kept t (mem-cons_of_mem turn m);
          answered = λ i a h. elim (Bool-cases (i == turn.job.idx)) [
            | inl e ↦
                let same : i ≡ turn.job.idx = (==_iff i turn.job.idx).0 e in
                let taken : get_elem? ys i ≡ some (some r) = rw same w.here in
                (
                  turn.job.text,
                  rw same (p.texts_kept turn mem-cons_self),
                  subst (λ x. P turn.job.text x)
                      (some-injective r a (some-injective (some r) (some a) (sym taken ∙ h))) good,
                )
            | inr e ↦
                let other : i ≢ turn.job.idx = λ same. ground arith in
                p.answered i a (sym (w.elsewhere i other) ∙ h)
          ];
          counted = rw (p.counted) (sym w.hits);
          sized = w.kept ∙ p.sized;
          kept = inv;
        },
      )

  run_turns-Progress :
      (turns : List Turn) (b : Batch)
      → All (λ (t : Turn). t.cancelled ≡ false) turns
      → Progress turns b
      → (b' : Batch) × (run_turns sort u json strategy turns b ≡ some b') × Progress [] b'
  unfolding run_turns
  run_turns-Progress [] b going p = (b, refl, p)
  run_turns-Progress (turn ∷ turns) b going p =
      let (b', first, q) = run_turn-Progress turn turns b going.0 p in
      let (b'', rest, last) = run_turns-Progress turns b' going.1 q in
      (b'', rw (run_turns, first) rest, last)

  start-Progress :
      (turns : List Turn) (s : FilterAppService)
      → Perm (map (λ (t : Turn). t.job) turns) (jobs_from 0 texts)
      → Inv s
      → Progress turns (record { service = s; results = no_results texts; hit_num = 0 })
  start-Progress turns s perm inv =
      let places = Perm.map (λ (j : BatchJob). j.idx) perm in
      record {
        awaited = λ i. (
          λ h. (Perm.mem_iff places).1 ((no_results-Mem i texts).0 h),
          λ m. (no_results-Mem i texts).1 ((Perm.mem_iff places).0 m),
        );
        distinct = Perm.nodup (Perm.symm places) (jobs_from-Nodup 0 texts);
        texts_kept = λ t m.
            job_text texts t.job ((Perm.mem_iff perm).0 (mem-map_of_mem (λ (x : Turn). x.job) m));
        answered = λ i r h. absurd (no_results-vacant i r texts h);
        counted = sym (no_results-hits texts);
        sized = no_results-length texts;
        kept = inv;
      }

  end-IsBatch :
      (b : Batch)
      → Progress [] b
      → IsBatch P texts (record { results = b.results; total = length texts; hit_num = b.hit_num })
  end-IsBatch b p = record {
    total = refl;
    sized = p.sized;
    answered = λ i text e.
        let (x, at_place) = place_of_text b.results texts i text p.sized e in
        elim (Option-cases x) [
          | inl vacant ↦ absurd (not-mem-nil ((p.awaited i).0 (rw (vacant) at at_place)))
          | inr (r, full) ↦
              let stored : get_elem? b.results i ≡ some (some r) = rw (full) at at_place in
              let (text', e', good) = p.answered i r stored in
              (r, stored, subst (λ y. P y r) (some-injective text' text (sym e' ∙ e)) good)
        ];
    counted = p.counted;
  }

  -- A batch whose context is not done is answered, with the answers that `Filter` gives.
  pub batch_detect-IsBatch :
      (turns : List Turn) (name : Text) (s : FilterAppService)
      → (if is_empty name then strategy_detect else name) ≡ strategy
      → All (λ (t : Turn). t.cancelled ≡ false) turns
      → Perm (map (λ (t : Turn). t.job) turns) (jobs_from 0 texts)
      → Inv s
      → (resp : BatchFilterResponse) × (s' : FilterAppService) × (batch_detect sort u json turns
            false
            (record { texts = texts; strategy = name })
            s
          ≡ some (some resp, s'))
        × IsBatch P texts resp
        × Inv s'
  unfolding batch_detect hits_of
  batch_detect-IsBatch turns name s named going perm inv = elim (Bool-cases (is_empty texts)) [
    | inl e ↦ (
      record { results = []; total = 0; hit_num = 0 },
      s,
      rw (batch_detect, e) refl,
      record {
        total = sym (empty-length texts e);
        sized = sym (empty-length texts e);
        answered = λ i text h. absurd (empty-vacant texts i text e h);
        counted = refl;
      },
      inv,
    )
    | inr e ↦
        let (b, ran, last) =
          run_turns-Progress turns (record { service = s; results = no_results texts; hit_num = 0 })
            going (start-Progress turns s perm inv) in
        (
          record { results = b.results; total = length texts; hit_num = b.hit_num },
          b.service,
          rw (batch_detect, e, named, ran) refl,
          end-IsBatch b last,
          last.kept,
        )
  ]
