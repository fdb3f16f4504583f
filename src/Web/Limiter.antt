-- ===== src/Web/Limiter.antt =====
-- internal/interfaces/middleware/ratelimit.go: the limiter of each client. The token bucket of
-- golang.org/x/time/rate is a parameter. The look-up of a request and its `Allow` are one step, and a
-- round of `cleanup` is another; times are in nanoseconds.
pub mod Laws
use censorhub.Prelude.{
  ℕ, ◌+◌, ◌-◌, ℤ, Bool, true, false, Option, none, some, List, [], ◌∷◌, ltb, if◌then◌else◌,
}
use censorhub.Text.{Text, text_eq}

-- What golang.org/x/time/rate supplies: `NewLimiter`, and `Allow` at a time.
pub record Buckets (L : Type 0) : Type 0 where
  pub new_limiter : ℤ → ℤ → L
  pub allow : ℕ → L → Bool × L

pub record ClientEntry (L : Type 0) : Type 0 where
  pub limiter : L
  pub last_seen : ℕ

pub record PerClientLimiter (L : Type 0) : Type 0 where
  pub limiters : Text → Option (ClientEntry L)
  pub rps : ℤ
  pub burst : ℤ

unfoldable pub new_per_client_limiter : {L : Type 0} → ℤ → ℤ → PerClientLimiter L
new_per_client_limiter rps burst = record { limiters = λ k. none; rps = rps; burst = burst }

-- `limiters.Store`, or the change of an entry.
unfoldable pub put_client :
    {L : Type 0} → Text → ClientEntry L → PerClientLimiter L → PerClientLimiter L
unfolding text_eq
put_client key e l = record l { limiters = λ k. if text_eq key k then some e else l.limiters k }

abbrev pub idle_limit : ℕ
idle_limit = 600000000000

-- One round of `cleanup`.
unfoldable pub clean_up : {L : Type 0} → ℕ → PerClientLimiter L → PerClientLimiter L
clean_up now l =
    let cutoff = now - idle_limit in
    record l {
      limiters = λ k. elim (l.limiters k) [
        | none ↦ none
        | some e ↦ if ltb e.last_seen cutoff then none else some e
      ];
    }

pub data Event : Type 0 where
  asks : Text → ℕ → Event
  sweeps : ℕ → Event

module _ {L : Type 0} (buckets : Buckets L) where
  unfoldable pub get_limiter : ℕ → Text → PerClientLimiter L → L × PerClientLimiter L
  unfolding put_client
  get_limiter now key l = elim (l.limiters key) [
    | some e ↦ (e.limiter, put_client key (record e { last_seen = now }) l)
    | none ↦
        let limiter = buckets.new_limiter l.rps l.burst in
        (limiter, put_client key (record { limiter = limiter; last_seen = now }) l)
  ]

  -- `getLimiter(key).Allow()`: the bucket is shared, so that its change is in the table.
  unfoldable pub allow_client : ℕ → Text → PerClientLimiter L → Bool × PerClientLimiter L
  unfolding get_limiter put_client
  allow_client now key l =
      let (limiter, l') = get_limiter now key l in
      let (allowed, limiter') = buckets.allow now limiter in
      (allowed, put_client key (record { limiter = limiter'; last_seen = now }) l')

  -- The answers to the requests, with their clients.
  unfoldable pub run_events : List Event → PerClientLimiter L → List (Text × Bool)
  unfolding allow_client clean_up
  run_events [] l = []
  run_events (asks key now ∷ es) l =
      let (allowed, l') = allow_client now key l in (key, allowed) ∷ run_events es l'
  run_events (sweeps now ∷ es) l = run_events es (clean_up now l)
