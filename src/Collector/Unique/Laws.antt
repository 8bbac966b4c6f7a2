-- ===== src/Collector/Unique/Laws.antt =====
-- What the loops that keep the first of each kind leave.
use manga_hub.Prelude.{
  String, List, [], ◌∷◌, ◌++◌, Bool, true, false, ◌==◌, ◌≡◌, refl, find, any, All, Unicode,
  trim_space, inl, inr, Bool-cases, arith, eq_iff, eq_refl, ap,
}
use manga_hub.Prelude.Text.Laws.{trim_space-trim_space}
use manga_hub.Models.{Manga}
use manga_hub.Store.Sql.Keys.{Distinct, string_eq}
use manga_hub.Collector.Unique.{
  seen_key, tag_key, unique_from, unique_non_empty, title_key, dedupe_from, merge_and_dedupe,
}

module _ ⦃u : Unicode⦄ where
  -- the manga whose title has this key
  abbrev pub at : String → Manga → Bool
  at key m = title_key m == key

  pub find-dedupe_from :
      (key : String) (seen : List String) (ms : List Manga)
      → (key == "") ≡ false
      → seen_key key seen ≡ false
      → find (at key) (dedupe_from seen ms) ≡ find (at key) ms
  unfolding find dedupe_from seen_key any
  find-dedupe_from key seen [] solid fresh = refl
  find-dedupe_from key seen (m ∷ ms) solid fresh = ground (
    arith,
    find-dedupe_from key seen ms,
    find-dedupe_from key (title_key m ∷ seen) ms,
    eq_iff (title_key m) key,
    eq_iff (title_key m) "",
    eq_iff key "",
  )

  pub any-dedupe_from :
      (key : String) (seen : List String) (ms : List Manga)
      → seen_key key seen ≡ true
      → any (at key) (dedupe_from seen ms) ≡ false
  unfolding any dedupe_from seen_key
  any-dedupe_from key seen [] h = refl
  any-dedupe_from key seen (m ∷ ms) h = ground (
    arith,
    any-dedupe_from key seen ms h,
    any-dedupe_from key (title_key m ∷ seen) ms,
    eq_iff (title_key m) key,
  )

  head_seen : (key : String) (seen : List String) → seen_key key (key ∷ seen) ≡ true
  unfolding seen_key any
  head_seen key seen = ground (arith, eq_refl key)

  pub dedupe_from-Distinct :
      (seen : List String) (ms : List Manga) → Distinct title_key (dedupe_from seen ms)
  unfolding dedupe_from seen_key any
  dedupe_from-Distinct seen [] = tt
  dedupe_from-Distinct seen (m ∷ ms) = elim (Bool-cases (title_key m == "")) [
    | inl blank ↦ rw blank (dedupe_from-Distinct seen ms)
    | inr solid ↦ elim (Bool-cases (seen_key (title_key m) seen)) [
      | inl old ↦ rw (solid, old) (dedupe_from-Distinct seen ms)
      | inr new ↦
          rw (solid, new)
            (
              any-dedupe_from (title_key m) (title_key m ∷ seen) ms (head_seen (title_key m) seen),
              dedupe_from-Distinct (title_key m ∷ seen) ms,
            )
    ]
  ]

  module _ (P : Manga → Type 0) where
    pub dedupe_from-All :
        (seen : List String) (ms : List Manga) → All P ms → All P (dedupe_from seen ms)
    unfolding dedupe_from
    dedupe_from-All seen [] h = tt
    dedupe_from-All seen (m ∷ ms) h = elim (Bool-cases (title_key m == "")) [
      | inl blank ↦ rw blank (dedupe_from-All seen ms h.1)
      | inr solid ↦ elim (Bool-cases (seen_key (title_key m) seen)) [
        | inl old ↦ rw (solid, old) (dedupe_from-All seen ms h.1)
        | inr new ↦ rw (solid, new) (h.0, dedupe_from-All (title_key m ∷ seen) ms h.1)
      ]
    ]

  any-seen_key :
      (key : String) (seen : List String)
      → ◌≡◌ {A = Bool} (any (λ k. k == key) seen) (seen_key key seen)
  unfolding seen_key
  any-seen_key key seen = refl

  -- Of each title that is not blank, up to case and spaces around it, the merged list has one manga,
  -- and that is the first of the two lists one after the other.
  pub merge_and_dedupe-first :
      (existing fetched : List Manga) (key : String)
      → (key == "") ≡ false
      → (find (at key) (merge_and_dedupe existing fetched) ≡ find (at key) (existing ++ fetched))
        × Distinct title_key (merge_and_dedupe existing fetched)
  unfolding merge_and_dedupe seen_key any
  merge_and_dedupe-first existing fetched key solid = (
    find-dedupe_from key [] (existing ++ fetched) solid refl,
    dedupe_from-Distinct [] (existing ++ fetched),
  )

  -- what was taken is trimmed, and its key stays
  unique_from-twice :
      (seen items : List String)
      → unique_from seen (unique_from seen items) ≡ unique_from seen items
  unfolding unique_from
  unique_from-twice seen [] = refl
  unique_from-twice seen (item ∷ items) = elim (Bool-cases (trim_space item == "")) [
    | inl blank ↦ rw blank (unique_from-twice seen items)
    | inr solid ↦ elim (Bool-cases (seen_key (tag_key item) seen)) [
      | inl old ↦ rw (solid, old) (unique_from-twice seen items)
      | inr new ↦
          rw (solid, new)
            (rw (trim_space-trim_space item) (
              rw (solid, new)
                (ap (◌∷◌ (trim_space item)) (unique_from-twice (tag_key item ∷ seen) items))))
    ]
  ]

  pub unique_non_empty-twice :
      (items : List String) → unique_non_empty (unique_non_empty items) ≡ unique_non_empty items
  unfolding unique_non_empty
  unique_non_empty-twice items = unique_from-twice [] items
