-- ===== src/Collector/Sources/Paging.antt =====
-- How many pages of Jikan a limit takes, and how many manga come of them.
use mathlib.Core.Path.{subst}
use manga_hub.Prelude.{
  ℕ, zero, suc, ◌+◌, ◌*◌, ◌≤◌, ◌<◌, ℤ, pos, pos_part, le_ℤ, List, [], ◌∷◌, ◌++◌, if◌then◌else◌,
  Result, ok, err, length, take, length-take, length-append, Unicode, ◌≡◌, refl, arith,
}
use manga_hub.Models.{Manga}
use manga_hub.Collector.Sources.{
  World, JikanItem, jikan_results, jikan_pages, page_count, first, fetch_jikan_batch, map_result,
}

page_count_bounds :
    (total : ℕ) → (total ≤ page_count total * 25) × (page_count total * 25 < total + 25)
unfolding page_count
page_count_bounds total = (ground arith, ground arith)

first-length : (total : ℕ) (items : List Manga) → length (first total items) ≤ total
first-length total items = ground (arith, length-take total items)

length-take_all : (n : ℕ) (items : List Manga) → n ≤ length items → length (take n items) ≡ n
length-take_all zero items h = omega arith
length-take_all (suc n) [] h = omega arith
length-take_all (suc n) (x ∷ xs) h = omega (arith, length-take_all n xs (omega arith))

first-exact :
    (total : ℕ) (items : List Manga) → total ≤ length items → length (first total items) ≡ total
first-exact total items h = ground (arith, length-take_all total items h)

same : (xs ys : List Manga) → ok xs ≡ ok ys → xs ≡ ys
same xs ys h = ground arith

abbrev pub wanted : ℤ → ℕ
wanted limit = if le_ℤ limit (pos 0) then 100 else pos_part limit

module _ ⦃u : Unicode⦄ (w : World) where
  -- every page from `page` on has 25 manga with a title
  abbrev pub Full : Type 0
  Full =
      (page : ℕ)
      → (items : List JikanItem) × (w.jikan page 25 ≡ ok items)
        × (length (jikan_results w items) ≡ 25)

  jikan_pages-full :
      Full
      → (count page : ℕ)
      → (items : List Manga) × (jikan_pages w count page ≡ ok items) × (length items ≡ count * 25)
  unfolding jikan_pages
  jikan_pages-full full zero page = ([], refl, omega arith)
  jikan_pages-full full (suc count) page =
      let (got, answered, long) = full page in
      let (rest, more, length_rest) = jikan_pages-full full count (suc page) in
      (
        jikan_results w got ++ rest,
        rw (answered, more) refl,
        omega (arith, length-append (jikan_results w got) rest, long, length_rest),
      )

  bounded :
      (total : ℕ) (r : Result (List Manga)) (items : List Manga)
      → map_result (first total) r ≡ ok items
      → length items ≤ total
  bounded total (ok xs) items h =
      subst (λ l. length l ≤ total) (same (first total xs) items h) (first-length total xs)
  bounded total (err e) items h = ground arith

  -- A batch of Jikan has at most the manga that were asked for.
  pub fetch_jikan_batch_bounds :
      (limit : ℤ) (items : List Manga)
      → fetch_jikan_batch w limit ≡ ok items
      → length items ≤ wanted limit
  unfolding fetch_jikan_batch
  fetch_jikan_batch_bounds limit items h =
      bounded (wanted limit) (jikan_pages w (page_count (wanted limit)) 1) items h

  -- Where every page of Jikan is full, a batch succeeds with just as many manga as were asked for.
  pub fetch_jikan_batch-full :
      (limit : ℤ)
      → Full
      → (items : List Manga) × (fetch_jikan_batch w limit ≡ ok items)
        × (length items ≡ wanted limit)
  unfolding fetch_jikan_batch
  fetch_jikan_batch-full limit full =
      let (all, answered, long) = jikan_pages-full full (page_count (wanted limit)) 1 in
      (
        first (wanted limit) all,
        rw (answered, map_result) refl,
        first-exact (wanted limit) all (omega (arith, long, (page_count_bounds (wanted limit)).0)),
      )
