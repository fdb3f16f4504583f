-- ===== src/Service/Key.antt =====
-- `filterCacheKey` of internal/application/service/filter_app_service.go.
pub mod Laws
use censorhub.Prelude.{ℕ, zero, suc, ◌+◌, ◌-◌, ◌/◌, ◌%◌, [], ◌∷◌, ◌++◌, ltb, if◌then◌else◌}
use censorhub.Text.{Text, runes}
use censorhub.Cache.Hash.{sum64a}

unfoldable pub digit36 : ℕ → ℕ
digit36 d = if ltb d 10 then 48 + d else 97 + (d - 10)

-- `strconv.FormatUint(n, 36)`, on as many digits as the first argument allows.
unfoldable pub format_digits : ℕ → ℕ → Text → Text
unfolding digit36
format_digits zero n acc = acc
format_digits (suc k) n acc =
    let rest = format_digits k (n / 36) (digit36 (n % 36) ∷ acc) in
    if ltb n 36 then digit36 n ∷ acc else rest

-- A number below 2^64 has at most 13 digits.
unfoldable pub format_uint36 : ℕ → Text
unfolding format_digits
format_uint36 n = format_digits 13 n []

unfoldable pub filter_cache_key : Text → Text → ℕ → Text
unfolding format_uint36
filter_cache_key text strategy engine_version =
    runes "filter:"
    ++ (strategy
        ++ (runes ":v"
            ++ (format_uint36 engine_version ++ (runes ":" ++ format_uint36 (sum64a text)))))
