-- ===== src/Config/Paths.antt =====
-- The path of the configuration of an environment, with `filepath.Ext` and `strings.TrimSuffix`.
use censorhub.Prelude.{
  Bool, false, ◌||◌, ◌&&◌, not, Option, none, some, [], ◌∷◌, ◌++◌, ◌==◌, if◌then◌else◌,
}
use censorhub.Text.{Text, runes}

has_slash : Text → Bool
has_slash [] = false
has_slash (r ∷ rs) = r == 0x2F || has_slash rs

-- The path before its extension, and the extension, from the last point of the last element; none
-- where that has no point.
split_ext : Text → Option (Text × Text)
unfolding has_slash
split_ext [] = none
split_ext (r ∷ rs) = elim (split_ext rs) [
  | some (base, ext) ↦ some (r ∷ base, ext)
  | none ↦ if r == 0x2E && not (has_slash rs) then some ([], r ∷ rs) else none
]

unfoldable pub env_config_path : Text → Text → Text
unfolding split_ext
env_config_path base_path env = elim (split_ext base_path) [
  | none ↦ base_path ++ runes "." ++ env
  | some (base, ext) ↦ base ++ runes "." ++ env ++ ext
]
