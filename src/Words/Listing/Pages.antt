-- ===== src/Words/Listing/Pages.antt =====
-- The pages of a listing.
use censorhub.Prelude.{
  ℕ, zero, suc, ◌-◌, ◌*◌, ◌≤◌, ◌≡◌, refl, ap, ◌∙◌, ◌<◌, ◌%◌, ◌^◌, ltb, ℤ, pos, List, [], ◌∷◌, ◌++◌,
  Bool, if◌then◌else◌, arith,
}
use censorhub.Text.{Text}
use censorhub.Domain.Word.{SensitiveWord}
use censorhub.Words.Listing.{
  WordQuery, page_number, page_length, page_offset, select_rows, is_wanted, list_rows,
}

page_number-suc : (n : ℕ) → page_number (pos (suc n)) - 1 ≡ n
unfolding page_number
page_number-suc n = ground arith

small_offset : (m : ℕ) → m < 2 ^ 63 → (if ltb (m % 2 ^ 64) (2 ^ 63) then m % 2 ^ 64 else 0) ≡ m
small_offset m h = ground arith

-- A number of 64 bits with the sign below 0 is no offset.
large_offset :
    (m : ℕ) → 2 ^ 63 ≤ m → m < 2 ^ 64 → (if ltb (m % 2 ^ 64) (2 ^ 63) then m % 2 ^ 64 else 0) ≡ 0
large_offset m low high = ground arith

page_offset-suc :
    (n : ℕ) (size : ℤ)
    → n * page_length size < 2 ^ 63
    → page_offset (pos (suc n)) size ≡ n * page_length size
unfolding page_offset
page_offset-suc n size small = rw (page_number-suc n) (small_offset (n * page_length size) small)

page_offset-first : (size : ℤ) → page_offset (pos 1) size ≡ 0
page_offset-first size =
    let e : 0 * page_length size ≡ 0 = omega arith in page_offset-suc 0 size (omega arith) ∙ e

page_offset-wraps :
    (n : ℕ) (size : ℤ)
    → 2 ^ 63 ≤ n * page_length size
    → n * page_length size < 2 ^ 64
    → page_offset (pos (suc n)) size ≡ 0
unfolding page_offset
page_offset-wraps n size low high =
    rw (page_number-suc n) (large_offset (n * page_length size) low high)

module _ (same like : Text → Text → Bool) where
  select_rows-page :
      (q : WordQuery) (page : ℤ) (rows : List SensitiveWord)
      → select_rows same like (record q { page = page }) rows ≡ select_rows same like q rows
  unfolding select_rows is_wanted
  select_rows-page q page [] = refl
  select_rows-page q page (w ∷ ws) =
      ap (λ rest. if is_wanted same like q w then w ∷ rest else rest) (select_rows-page q page ws)

  -- The first pages of a query, one after the other.
  unfoldable pub first_pages : ℕ → WordQuery → List SensitiveWord → List SensitiveWord
  unfolding list_rows
  first_pages zero q rows = []
  first_pages (suc n) q rows =
      first_pages n q rows ++ (list_rows same like (record q { page = pos (suc n) }) rows).0

  -- A page whose offset is at least 2^63 and below 2^64 is the first page again.
  pub list_rows-wraps :
      (n : ℕ) (q : WordQuery) (rows : List SensitiveWord)
      → 2 ^ 63 ≤ n * page_length q.page_size
      → n * page_length q.page_size < 2 ^ 64
      → list_rows same like (record q { page = pos (suc n) }) rows
        ≡ list_rows same like (record q { page = pos 1 }) rows
  unfolding list_rows
  list_rows-wraps n q rows low high =
      rw
        (
          page_offset-wraps n q.page_size low high,
          select_rows-page q (pos (suc n)) rows,
          select_rows-page q (pos 1) rows,
          page_offset-first q.page_size,
        )
        refl
