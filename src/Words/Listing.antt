-- ===== src/Words/Listing.antt =====
-- `List` of internal/application/service/word_app_service.go and of
-- internal/infrastructure/persistence/mysql/word_repo.go. The rows stand with the newest first, which
-- is `ORDER BY id DESC`; `like` is the LIKE of the database, with the keyword between two `%`.
pub mod Pages
use censorhub.Prelude.{
  ℕ, suc, ◌+◌, ◌-◌, ◌*◌, ◌%◌, ◌^◌, ℤ, pos, negsuc, ltbℤ, eqℤ, Bool, true, false, ◌&&◌, Option, none,
  some, List, [], ◌∷◌, ltb, if◌then◌else◌, length, take, drop, is_empty, map,
}
use censorhub.Text.{Text, text_eq}
use censorhub.Domain.Word.{SensitiveWord}
use censorhub.Words.Manage.{WordResponse, entity_to_dto}

pub record WordQuery : Type 0 where
  pub category : Option Text
  pub level : Option ℤ
  pub status : Option ℤ
  pub keyword : Text
  pub page : ℤ
  pub page_size : ℤ

pub record WordListRequest : Type 0 where
  pub category : Text
  pub level : ℤ
  pub status : ℤ
  pub keyword : Text
  pub page : ℤ
  pub page_size : ℤ

pub record WordListResponse : Type 0 where
  pub items : List WordResponse
  pub total : ℕ
  pub page : ℤ
  pub page_size : ℤ

-- A column against a condition that may be missing.
unfoldable pub admits {ℓ} : {A : Type ℓ} → (A → A → Bool) → Option A → A → Bool
admits eq none x = true
admits eq (some wanted) x = eq wanted x

unfoldable pub positive_part : ℤ → ℕ
positive_part (pos n) = n
positive_part (negsuc n) = 0

unfoldable pub page_number : ℤ → ℕ
unfolding positive_part
page_number page = if ltb (positive_part page) 1 then 1 else positive_part page

unfoldable pub page_length : ℤ → ℕ
unfolding positive_part
page_length size =
    if ltb (positive_part size) 1
    then 20
    else if ltb 100 (positive_part size)
    then 100
    else positive_part size

-- `(page - 1) * pageSize` in 64 bits; gorm writes no OFFSET that is not above 0.
unfoldable pub page_offset : ℤ → ℤ → ℕ
unfolding page_number page_length
page_offset page size =
    let m = (page_number page - 1) * page_length size % 2 ^ 64 in if ltb m (2 ^ 63) then m else 0

-- The collation of the columns says which texts are the same.
module _ (same like : Text → Text → Bool) where
  unfoldable pub is_wanted : WordQuery → SensitiveWord → Bool
  unfolding admits
  is_wanted q w =
      admits same q.category w.category
      && admits eqℤ q.level w.level
      && admits eqℤ q.status w.status
      && (if is_empty q.keyword then true else like q.keyword w.text)

  unfoldable pub select_rows : WordQuery → List SensitiveWord → List SensitiveWord
  unfolding is_wanted
  select_rows q [] = []
  select_rows q (w ∷ ws) = let rest = select_rows q ws in if is_wanted q w then w ∷ rest else rest

  -- The page of rows, and how many rows there are.
  unfoldable pub list_rows : WordQuery → List SensitiveWord → List SensitiveWord × ℕ
  unfolding select_rows page_length page_offset
  list_rows q rows =
      let found = select_rows q rows in
      let offset = page_offset q.page q.page_size in
      (take (page_length q.page_size) (drop offset found), length found)

  unfoldable pub query_of : WordListRequest → WordQuery
  query_of req = record {
    category = if is_empty req.category then none else some req.category;
    level = if ltbℤ (pos 0) req.level then some req.level else none;
    status = none;
    keyword = req.keyword;
    page = req.page;
    page_size = req.page_size;
  }

  unfoldable pub list_words : WordListRequest → List SensitiveWord → WordListResponse
  unfolding query_of list_rows
  list_words req rows =
      let (words, total) = list_rows (query_of req) rows in
      record {
        items = map entity_to_dto words;
        total = total;
        page = req.page;
        page_size = req.page_size;
      }
