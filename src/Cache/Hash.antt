-- ===== src/Cache/Hash.antt =====
-- hash/fnv over the UTF-8 bytes of a string, as internal/infrastructure/cache/local_cache.go and
-- internal/application/service/filter_app_service.go use it.
use Prim.Native.Nat.{bit_xor}
use censorhub.Prelude.{ℕ, ◌+◌, ◌*◌, ◌/◌, ◌%◌, ◌^◌, List, [], ◌∷◌, ◌++◌, ltb, if◌then◌else◌}
use censorhub.Text.{Text}

-- `[]byte(text)`
unfoldable pub utf8_rune : ℕ → List ℕ
utf8_rune r =
    if ltb r 128
    then r ∷ []
    else if ltb r 2048
    then (192 + r / 64) ∷ (128 + r % 64) ∷ []
    else if ltb r 65536
    then (224 + r / 4096) ∷ (128 + r / 64 % 64) ∷ (128 + r % 64) ∷ []
    else (240 + r / 262144) ∷ (128 + r / 4096 % 64) ∷ (128 + r / 64 % 64) ∷ (128 + r % 64) ∷ []

unfoldable pub utf8 : Text → List ℕ
unfolding utf8_rune
utf8 [] = []
utf8 (r ∷ rs) = utf8_rune r ++ utf8 rs

-- FNV-1a: each byte is xored in, then the hash is multiplied by the prime, on `bits` bits.
unfoldable pub fnv1a : ℕ → ℕ → ℕ → List ℕ → ℕ
fnv1a bits prime h [] = h
fnv1a bits prime h (b ∷ bs) = fnv1a bits prime (bit_xor h b * prime % 2 ^ bits) bs

unfoldable pub sum32a : Text → ℕ
unfolding fnv1a utf8
sum32a text = fnv1a 32 16777619 2166136261 (utf8 text)

unfoldable pub sum64a : Text → ℕ
unfolding fnv1a utf8
sum64a text = fnv1a 64 1099511628211 14695981039346656037 (utf8 text)
