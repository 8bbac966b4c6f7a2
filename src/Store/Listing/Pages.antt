-- ===== src/Store/Listing/Pages.antt =====
-- The pages of `ListManga`, one after the other.
use mathlib.Core.Path.{ap₂}
use manga_hub.Prelude.{
  ℕ, zero, suc, ◌+◌, ◌-◌, ◌*◌, ◌%◌, ◌<◌, ltb, List, [], ◌++◌, take, skip, ◌≡◌, ap, ◌∙◌, sym, arith,
  take-append, if◌then◌else◌,
}
use manga_hub.Models.{Manga}
use manga_hub.Store.Listing.{manga_offset, page_rows}

-- the rows of the pages 1 to `count`
abbrev pub pages : ℕ → ℕ → List Manga → List Manga
unfolding page_rows
pages limit zero rows = []
pages limit (suc count) rows = pages limit count rows ++ page_rows limit (suc count) rows

int_offset : ℕ → ℕ
int_offset p =
    if ltb (p % 18446744073709551616) 9223372036854775808 then p % 18446744073709551616 else 0

int_offset-small : (p : ℕ) → p < 9223372036854775808 → int_offset p ≡ p
unfolding int_offset
int_offset-small p fits = ground arith

before : (count : ℕ) → suc count - 1 ≡ count
before count = omega arith

next_offset :
    (limit count : ℕ)
    → count * limit < 9223372036854775808
    → manga_offset limit (suc count) ≡ count * limit
unfolding manga_offset int_offset
next_offset limit count fits =
    ap (λ k. int_offset (k * limit)) (before count) ∙ int_offset-small (count * limit) fits

none_of : (limit : ℕ) → zero * limit ≡ zero
none_of limit = omega arith

one_more : (limit count : ℕ) → suc count * limit ≡ count * limit + limit
one_more limit count = omega arith

fits_before :
    (limit count : ℕ)
    → suc count * limit < 9223372036854775808
    → count * limit < 9223372036854775808
fits_before limit count fits = omega (arith, one_more limit count)

-- Page after page, the listing goes through the rows in their order, each of them once, as long as
-- the offset is an `int`.
pub pages-take :
    (limit count : ℕ) (rows : List Manga)
    → count * limit < 9223372036854775808
    → pages limit count rows ≡ take (count * limit) rows
unfolding page_rows
pages-take limit zero rows fits = ap (λ k. take k rows) (sym (none_of limit))
pages-take limit (suc count) rows fits =
    ap₂ ◌++◌ (pages-take limit count rows (fits_before limit count fits))
      (ap (λ k. take limit (skip k rows)) (next_offset limit count (fits_before limit count fits)))
    ∙ (sym (take-append (count * limit) limit rows)
        ∙ ap (λ k. take k rows) (sym (one_more limit count)))
