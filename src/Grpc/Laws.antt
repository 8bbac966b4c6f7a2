-- ===== src/Grpc/Laws.antt =====
-- The conversions to `int32`, and the progress that both interfaces make.
use manga_hub.Prelude.{
  ℕ, ◌-◌, ◌%◌, ◌<◌, ltb, ℤ, pos, negsuc, ◌≤ℤ◌, le_ℤ, String, Bool, true, false, ◌==◌, ◌||◌, ◌≡◌,
  refl, ap, sym, ◌∙◌, arith, Unicode, trim_space, inl, inr, Bool-cases, ok, err, Result, Error,
}
use manga_hub.Models.{Time}
use manga_hub.Cache.{Redis, Service}
use manga_hub.User
use manga_hub.Http.Requests.{Request, current_user_id}
use manga_hub.Http.Members
use manga_hub.Grpc.{
  int32, signed32, Reply, ProgressRequest, progress_request, map_progress_result, respond,
  update_progress,
}

signed32_bounds :
    (n : ℕ) → n < 4294967296 → (negsuc 2147483647 ≤ℤ signed32 n) × (signed32 n ≤ℤ pos 2147483647)
signed32_bounds n h = elim (Bool-cases (ltb n 2147483648)) [
  | inl low ↦ rw low (omega arith, ground arith)
  | inr high ↦ rw high (ground arith, omega arith)
]

signed32-low : (n m : ℕ) → n ≡ m → m < 2147483648 → signed32 n ≡ pos m
signed32-low n m same h = let low : ltb n 2147483648 ≡ true = ground arith in rw low (ap pos same)

signed32-high : (n m : ℕ) → n ≡ 4294967295 - m → m < 2147483648 → signed32 n ≡ negsuc m
signed32-high n m same h =
    let high : ltb n 2147483648 ≡ false = ground arith in
    rw high (ap negsuc (omega (arith, same, h)))

-- every result of a conversion is an `int32`
pub int32_range : (n : ℤ) → (negsuc 2147483647 ≤ℤ int32 n) × (int32 n ≤ℤ pos 2147483647)
unfolding int32
int32_range (pos n) = signed32_bounds (n % 4294967296) (omega arith)
int32_range (negsuc n) = signed32_bounds (4294967295 - n % 4294967296) (omega arith)

-- A number that an `int32` can hold is converted to itself.
pub int32-exact : (n : ℤ) → negsuc 2147483647 ≤ℤ n → n ≤ℤ pos 2147483647 → int32 n ≡ n
unfolding int32
int32-exact (pos n) low high =
    signed32-low (n % 4294967296) n (omega (arith, high)) (omega (arith, high))
int32-exact (negsuc n) low high =
    signed32-high (4294967295 - n % 4294967296) n (omega (arith, low)) (omega (arith, low))

respond-state :
    {A B S : Type 0} (shown : A → B) (failed : Error → Reply B) (x : Result A × S)
    → (respond shown failed x).1 ≡ x.1
respond-state shown failed (ok a, s) = refl
respond-state shown failed (err e, s) = refl

module _ (quote : String → String) ⦃u : Unicode⦄ (r : Redis) where
  -- A progress that the gRPC service accepts changes the store and the cache as the HTTP handler does
  -- for the same user and the same manga, chapter, volume, notes and force, with no status: both ids
  -- are trimmed first.
  pub update_progress-agrees :
      (req : ProgressRequest) (broadcaster : Bool) (now : Time) (c : Request) (s : Service r)
      → (trim_space req.user_id == ""
          || (trim_space req.manga_id == "" || le_ℤ req.chapter (pos 0)))
        ≡ false
      → current_user_id c ≡ trim_space req.user_id
      → (update_progress quote r req s).1
        ≡ (Members.update_progress quote r broadcaster now c
            (ok (record {
              manga_id = trim_space req.manga_id;
              current_chapter = req.chapter;
              current_volume = req.volume;
              status = "";
              notes = req.notes;
              force = req.force;
            }))
            s).2
  unfolding update_progress Members.update_progress progress_request
  update_progress-agrees req broadcaster now c s given same = rw given (
      respond-state map_progress_result _
        (User.update_progress r (trim_space req.user_id) (progress_request req) s)
      ∙ ap (λ id. (User.update_progress r id (progress_request req) s).1) (sym same))
