-- ===== src/User/Guards.antt =====
-- The guards of `UpdateProgress`, as a specification.
use manga_hub.Prelude.{ℤ, pos, ◌≤ℤ◌, ◌<ℤ◌, false, ◌≡◌, ok, arith, lt_ℤ, if◌then◌else◌}
use manga_hub.Models.{Manga, LibraryEntry, UpdateProgressRequest}
use manga_hub.User.{check_total, check_behind, new_volume}

-- An update stays within the manga's chapters, if their number is known, and unless it is forced
-- takes neither the chapter nor a given volume back.
pub record Allowed (manga : Manga) (old : LibraryEntry) (req : UpdateProgressRequest) : Type 0 where
  pub within : pos 0 <ℤ manga.total_chapters → req.current_chapter ≤ℤ manga.total_chapters
  pub chapter : req.force ≡ false → old.current_chapter ≤ℤ req.current_chapter
  pub volume :
      req.force ≡ false → pos 0 <ℤ req.current_volume → old.current_volume ≤ℤ req.current_volume

-- a volume is given if it is positive
abbrev pub next_volume : LibraryEntry → UpdateProgressRequest → ℤ
next_volume old req =
    if lt_ℤ (pos 0) req.current_volume then req.current_volume else old.current_volume

module _ (manga : Manga) (old : LibraryEntry) (req : UpdateProgressRequest) where
  pub guards_sound :
      (v : ℤ)
      → check_total manga req ≡ ok tt
      → check_behind old req ≡ ok tt
      → new_volume old req ≡ ok v
      → Allowed manga old req × (v ≡ next_volume old req)
  unfolding check_total check_behind new_volume
  guards_sound v total behind volume = (
    record {
      within = λ h. ground arith;
      chapter = λ h. ground arith;
      volume = λ h k. ground arith;
    },
    ground arith,
  )

  total_complete : Allowed manga old req → check_total manga req ≡ ok tt
  unfolding check_total
  total_complete h = grind (arith, h.within)

  behind_complete : Allowed manga old req → check_behind old req ≡ ok tt
  unfolding check_behind
  behind_complete h = grind (arith, h.chapter)

  volume_complete : Allowed manga old req → new_volume old req ≡ ok (next_volume old req)
  unfolding new_volume
  volume_complete h = grind (arith, h.volume)

  pub guards_complete :
      Allowed manga old req
      → (check_total manga req ≡ ok tt)
        × (check_behind old req ≡ ok tt)
        × (new_volume old req ≡ ok (next_volume old req))
  guards_complete h = (total_complete h, behind_complete h, volume_complete h)
