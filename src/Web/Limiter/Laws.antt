-- ===== src/Web/Limiter/Laws.antt =====
-- What the limiters promise to a client, whatever the others do.
use mathlib.Core.Path.{subst}
use censorhub.Prelude.{
  ℕ, ◌+◌, ◌-◌, ◌≤◌, ℤ, ◌≡◌, refl, sym, ap, ◌∙◌, Bool, false, Option, none, some, List, [], ◌∷◌, ltb,
  if◌then◌else◌, arith, Bool-cases, Option-cases, inl, inr,
}
use censorhub.Text.{Text, text_eq, text_eq_refl, text_eq_sound}
use censorhub.Web.Limiter.{
  Buckets, ClientEntry, PerClientLimiter, new_per_client_limiter, put_client, idle_limit, clean_up,
  Event, asks, sweeps, get_limiter, allow_client, run_events,
}

-- The answers to one client.
unfoldable pub answers_to : Text → List (Text × Bool) → List Bool
unfolding text_eq
answers_to key [] = []
answers_to key ((k, allowed) ∷ rest_of) =
    let rest = answers_to key rest_of in if text_eq k key then allowed ∷ rest else rest

-- The times at which one client asks.
unfoldable pub times_of : Text → List Event → List ℕ
unfolding text_eq
times_of key [] = []
times_of key (asks k now ∷ es) =
    let rest = times_of key es in if text_eq k key then now ∷ rest else rest
times_of key (sweeps now ∷ es) = times_of key es

-- No sweep finds the client idle for more than ten minutes since it asked last.
unfoldable pub StaysBusy : Text → Option ℕ → List Event → Type 0
unfolding text_eq
StaysBusy key last [] = Unit
StaysBusy key last (asks k now ∷ es) = StaysBusy key (if text_eq k key then some now else last) es
StaysBusy key none (sweeps now ∷ es) = StaysBusy key none es
StaysBusy key (some t) (sweeps now ∷ es) = (now ≤ t + idle_limit) × StaysBusy key (some t) es

module _ {L : Type 0} (buckets : Buckets L) where
  -- One token bucket that is asked at some times.
  unfoldable pub ask_bucket : List ℕ → L → List Bool
  ask_bucket [] b = []
  ask_bucket (now ∷ ts) b = let (allowed, b') = buckets.allow now b in allowed ∷ ask_bucket ts b'

  abbrev seen : Option (ClientEntry L) → Option ℕ
  seen none = none
  seen (some e) = some e.last_seen

  abbrev bucket : ℤ → ℤ → Option (ClientEntry L) → L
  bucket rps burst none = buckets.new_limiter rps burst
  bucket rps burst (some e) = e.limiter

  clean_up-kept :
      (key : Text) (now : ℕ) (es : List Event) (l : PerClientLimiter L)
      → StaysBusy key (seen (l.limiters key)) (sweeps now ∷ es)
      → ((clean_up now l).limiters key ≡ l.limiters key) × StaysBusy key (seen (l.limiters key)) es
  unfolding clean_up StaysBusy
  clean_up-kept key now es l busy = elim (Option-cases (l.limiters key)) [
    | inl e ↦ (rw (e) refl, let b = rw (e) at busy in rw e b)
    | inr (entry, e) ↦
        let b = rw (e) at busy in
        let early : ltb entry.last_seen (now - idle_limit) ≡ false = ground arith in
        (rw (e, early) refl, rw e b.1)
  ]

  abbrev own_bucket : Text → PerClientLimiter L → L
  own_bucket key l = bucket l.rps l.burst (l.limiters key)

  -- A request asks the client's bucket, a new one if there is none, and leaves it in the table.
  allow_client_lem :
      (now : ℕ) (key : Text) (l : PerClientLimiter L)
      → allow_client buckets now key l ≡ (
        (buckets.allow now (own_bucket key l)).0,
        put_client key
            (record { limiter = (buckets.allow now (own_bucket key l)).1; last_seen = now })
            (put_client key (record { limiter = own_bucket key l; last_seen = now }) l),
      )
  unfolding allow_client get_limiter
  allow_client_lem now key l = elim (Option-cases (l.limiters key)) [
    | inl e ↦ rw (allow_client, get_limiter, e) refl
    | inr (entry, e) ↦ rw (allow_client, get_limiter, e) refl
  ]

  clean_up-own :
      (key : Text) (now : ℕ) (l : PerClientLimiter L)
      → (clean_up now l).limiters key ≡ l.limiters key
      → own_bucket key (clean_up now l) ≡ own_bucket key l
  unfolding clean_up
  clean_up-own key now l same = ap (bucket l.rps l.burst) same

  abbrev SameAnswer : Text → ℕ → PerClientLimiter L → Text → Type 0
  SameAnswer key now l k =
      ((allow_client buckets now k l).0 ≡ (buckets.allow now (own_bucket key l)).0)
      × (seen ((allow_client buckets now k l).1.limiters key) ≡ some now)
      × (own_bucket key (allow_client buckets now k l).1 ≡ (buckets.allow now (own_bucket key l)).1)

  allow_client-same : (key : Text) (now : ℕ) (l : PerClientLimiter L) → SameAnswer key now l key
  unfolding put_client
  allow_client-same key now l =
      let own = text_eq_refl key in
      let whole = allow_client_lem now key l in
      (rw (whole) refl, rw (whole, own) refl, rw (whole, own) refl)

  allow_client-other :
      (k key : Text) (now : ℕ) (l : PerClientLimiter L)
      → text_eq k key ≡ false
      → (seen ((allow_client buckets now k l).1.limiters key) ≡ seen (l.limiters key))
        × (own_bucket key (allow_client buckets now k l).1 ≡ own_bucket key l)
  unfolding put_client
  allow_client-other k key now l apart =
      let whole = allow_client_lem now k l in (rw (whole, apart) refl, rw (whole, apart) refl)

  run_events-from :
      (key : Text) (es : List Event) (l : PerClientLimiter L)
      → StaysBusy key (seen (l.limiters key)) es
      → answers_to key (run_events buckets es l) ≡ ask_bucket (times_of key es) (own_bucket key l)
  unfolding run_events answers_to times_of ask_bucket StaysBusy
  run_events-from key [] l busy = refl
  run_events-from key (sweeps now ∷ es) l busy =
      let (same, busy') = clean_up-kept key now es l busy in
      run_events-from key es (clean_up now l) (rw (same) busy')
      ∙ ap (ask_bucket (times_of key es)) (clean_up-own key now l same)
  run_events-from key (asks k now ∷ es) l busy = elim (Bool-cases (text_eq k key)) [
    | inl y ↦
        let (first, same, own) = allow_client-same key now l in
        let h : StaysBusy key (some now) es = rw (y) at busy in
        let (first', same', own') =
          subst (SameAnswer key now l) (sym (text_eq_sound k key y)) (first, same, own) in
        let rest =
          run_events-from key es (allow_client buckets now k l).1 (rw (same') h)
          ∙ ap (ask_bucket (times_of key es)) own' in
        rw (y) (λ i. first' i ∷ rest i)
    | inr n ↦
        let (same, own) = allow_client-other k key now l n in
        let h : StaysBusy key (seen (l.limiters key)) es = rw (n) at busy in
        rw (n) (
          run_events-from key es (allow_client buckets now k l).1 (rw (same) h)
          ∙ ap (ask_bucket (times_of key es)) own)
  ]

  -- Whatever the other clients ask, a client that no sweep finds idle for more than ten minutes is
  -- answered as by one token bucket of its own that was new at its first request.
  pub run_events-own :
      (rps burst : ℤ) (key : Text) (es : List Event)
      → StaysBusy key none es
      → answers_to key (run_events buckets es (new_per_client_limiter rps burst))
        ≡ ask_bucket (times_of key es) (buckets.new_limiter rps burst)
  unfolding new_per_client_limiter
  run_events-own rps burst key es busy =
      run_events-from key es (new_per_client_limiter rps burst) busy
