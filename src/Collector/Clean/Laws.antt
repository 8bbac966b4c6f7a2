-- ===== src/Collector/Clean/Laws.antt =====
-- What a cleaned manga is like, and that cleaning it again changes nothing.
use mathlib.Core.Path.{subst}
use manga_hub.Prelude.{
  ℤ, pos, lt_ℤ, String, List, [], ◌∷◌, Bool, true, false, ◌==◌, ◌||◌, ◌≡◌, refl, ap, sym,
  if◌then◌else◌, All, Option, none, some, Unicode, trim_space, to_lower, is_nil, inl, inr,
  Bool-cases, Option-cases, arith, eq_iff,
}
use manga_hub.Prelude.Text.Laws.{trim_space-trim_space}
use manga_hub.Models.{Manga}
use manga_hub.Collector.Unique.Laws.{unique_non_empty-twice}
use manga_hub.Collector.Clean.{normal_status, cleaned, normalize_manga, sanitize_manga_list}

abbrev pub is_known_status : String → Bool
is_known_status s = s == "ongoing" || (s == "completed" || (s == "hiatus" || s == "cancelled"))

module _ ⦃u : Unicode⦄ where
  -- what the collector asks of a manga
  pub record Normalised (m : Manga) : Type 0 where
    pub titled : (m.title == "") ≡ false
    pub trimmed : trim_space m.title ≡ m.title
    pub authored : (m.author == "") ≡ false
    pub described : (m.description == "") ≡ false
    pub tagged : is_nil m.genres ≡ false
    pub counted : lt_ℤ m.total_chapters (pos 0) ≡ false
    pub known : is_known_status m.status ≡ true
    pub settled : cleaned m ≡ m

  normal_status-known : (s : String) → is_known_status (normal_status s) ≡ true
  unfolding normal_status
  normal_status-known s = elim (Bool-cases (is_known_status (to_lower (trim_space s)))) [
    | inl known ↦ rw known known
    | inr other ↦ rw other refl
  ]

  kept_literal : (s t : String) → (s == t) ≡ true → normal_status t ≡ t → normal_status s ≡ s
  kept_literal s t same h = subst (λ x. normal_status x ≡ x) (sym ((eq_iff s t).0 same)) h

  ongoing_kept : normal_status "ongoing" ≡ "ongoing"
  unfolding normal_status trim_space to_lower
  ongoing_kept = refl

  completed_kept : normal_status "completed" ≡ "completed"
  unfolding normal_status trim_space to_lower
  completed_kept = refl

  hiatus_kept : normal_status "hiatus" ≡ "hiatus"
  unfolding normal_status trim_space to_lower
  hiatus_kept = refl

  cancelled_kept : normal_status "cancelled" ≡ "cancelled"
  unfolding normal_status trim_space to_lower
  cancelled_kept = refl

  normal_status-kept : (s : String) → is_known_status s ≡ true → normal_status s ≡ s
  normal_status-kept s h = elim (Bool-cases (s == "ongoing")) [
    | inl a ↦ kept_literal s "ongoing" a ongoing_kept
    | inr na ↦ elim (Bool-cases (s == "completed")) [
      | inl b ↦ kept_literal s "completed" b completed_kept
      | inr nb ↦ elim (Bool-cases (s == "hiatus")) [
        | inl c ↦ kept_literal s "hiatus" c hiatus_kept
        | inr nc ↦ kept_literal s "cancelled" (ground arith) cancelled_kept
      ]
    ]
  ]

  count_kept : (n : ℤ) → lt_ℤ (if lt_ℤ n (pos 0) then pos 0 else n) (pos 0) ≡ false
  count_kept n = ground arith

  count_twice :
      (n : ℤ) → lt_ℤ n (pos 0) ≡ false → ◌≡◌ {A = ℤ} (if lt_ℤ n (pos 0) then pos 0 else n) n
  count_twice n h = rw h refl

  manga_path :
      (m : Manga) {title author description cover_url status : String} {genres : List String}
      {total : ℤ}
      → title ≡ m.title
      → author ≡ m.author
      → description ≡ m.description
      → cover_url ≡ m.cover_url
      → genres ≡ m.genres
      → total ≡ m.total_chapters
      → status ≡ m.status
      → (record m {
        title = title;
        author = author;
        description = description;
        cover_url = cover_url;
        genres = genres;
        total_chapters = total;
        status = status;
      })
        ≡ m
  manga_path m a b c d e f g i = record m {
    title = a i;
    author = b i;
    description = c i;
    cover_url = d i;
    genres = e i;
    total_chapters = f i;
    status = g i;
  }

  cleaned-cleaned : (m : Manga) → cleaned (cleaned m) ≡ cleaned m
  unfolding cleaned
  cleaned-cleaned m =
      manga_path (cleaned m) (trim_space-trim_space m.title) (trim_space-trim_space m.author)
        (trim_space-trim_space m.description) (trim_space-trim_space m.cover_url)
        (unique_non_empty-twice m.genres)
        (count_twice (cleaned m).total_chapters (count_kept m.total_chapters))
        (normal_status-kept (cleaned m).status (normal_status-known m.status))

  -- a cleaned manga without a blank field
  cleaned-Normalised :
      (m : Manga)
      → ((cleaned m).title == "" || ((cleaned m).author == "" || (cleaned m).description == ""))
        ≡ false
      → is_nil (cleaned m).genres ≡ false
      → Normalised (cleaned m)
  cleaned-Normalised m filled tagged = record {
    titled = ground arith;
    trimmed = unfold cleaned in trim_space-trim_space m.title;
    authored = ground arith;
    described = ground arith;
    tagged = tagged;
    counted = unfold cleaned in count_kept m.total_chapters;
    known = unfold cleaned in normal_status-known m.status;
    settled = cleaned-cleaned m;
  }

  guarded :
      (a b : Bool) (c n : Manga)
      → ◌≡◌ {A = Option Manga} (if a then none else if b then none else some c) (some n)
      → (a ≡ false) × (b ≡ false) × (c ≡ n)
  guarded true b c n h = ground arith
  guarded false true c n h = ground arith
  guarded false false c n h = (refl, refl, ground arith)

  abbrev blank_text : Manga → Bool
  blank_text m = m.title == "" || (m.author == "" || m.description == "")

  pub normalize_manga-Normalised : (m n : Manga) → normalize_manga m ≡ some n → Normalised n
  unfolding normalize_manga
  normalize_manga-Normalised m n h =
      let g = guarded (blank_text (cleaned m)) (is_nil (cleaned m).genres) (cleaned m) n h in
      subst Normalised g.2 (cleaned-Normalised m g.0 g.1)

  -- a manga that is clean already is taken as it is
  pub Normalised-normalize_manga : (m : Manga) → Normalised m → normalize_manga m ≡ some m
  unfolding normalize_manga
  Normalised-normalize_manga m n =
      rw
        (
          ap (λ c. c.title == "") n.settled,
          ap (λ c. c.author == "") n.settled,
          ap (λ c. c.description == "") n.settled,
          ap (λ c. is_nil c.genres) n.settled,
          n.titled,
          n.authored,
          n.described,
          n.tagged,
        )
        (ap some n.settled)

  pub sanitize_manga_list-Normalised : (ms : List Manga) → All Normalised (sanitize_manga_list ms)
  unfolding sanitize_manga_list
  sanitize_manga_list-Normalised [] = tt
  sanitize_manga_list-Normalised (m ∷ ms) = elim (Option-cases (normalize_manga m)) [
    | inl dropped ↦ rw (dropped, All, sanitize_manga_list) (sanitize_manga_list-Normalised ms)
    | inr (n, taken) ↦
        rw (taken, All, sanitize_manga_list)
          (normalize_manga-Normalised m n taken, sanitize_manga_list-Normalised ms)
  ]

  pub Normalised-sanitize_manga_list :
      (ms : List Manga) → All Normalised ms → sanitize_manga_list ms ≡ ms
  unfolding sanitize_manga_list
  Normalised-sanitize_manga_list [] all = refl
  Normalised-sanitize_manga_list (m ∷ ms) all =
      rw (Normalised-normalize_manga m all.0, sanitize_manga_list)
        (ap (◌∷◌ m) (Normalised-sanitize_manga_list ms all.1))
