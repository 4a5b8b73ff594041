-- ===== src/State/Page/Window.antt =====
-- What a page holds.
use hambone.Base.{
  ℕ, zero, suc, ◌-◌, ◌^◌, ◌≤◌, ◌<◌, min, ◌≡◌, refl, ◌∙◌, ap, List, [], ◌∷◌, ◌++◌, length, take,
  drop, leb, ◌&&◌, if◌then◌else◌, arith,
}
use hambone.Base.Int.{ℤ, pos, negsuc, leb_ℤ, int32_pos}
use hambone.Go.{ok, panicked}
use hambone.Pb.{GetOptions}
use hambone.Helpers.{convert_start_stop_to_slice_indexes}
use hambone.State.Page.{slice, page}

-- The elements before the page: `Start` counts from 1, and 0 or less means 1.
abbrev pub skipped : ℤ → ℕ
skipped (pos n) = n - 1
skipped (negsuc n) = 0

-- The elements up to the end of the page: `Stop` is clamped to the length, and 0 means no limit.
abbrev pub reached : ℕ → ℕ → ℕ
reached zero l = l
reached (suc t) l = min (suc t) l

reached-le : (t l : ℕ) → reached t l ≤ l
reached-le zero l = omega arith
reached-le (suc t) l = omega arith

reached_all : (t l : ℕ) → l ≤ t → 0 < l → reached t l ≡ l
reached_all zero l h p = refl
reached_all (suc t) l h p = omega arith

convert_lem :
    (start : ℤ) (t l : ℕ)
    → convert_start_stop_to_slice_indexes start (pos t) (pos l)
      ≡ (pos (skipped start), pos (min t l))
unfolding convert_start_stop_to_slice_indexes
convert_lem (pos n) t l = ground arith
convert_lem (negsuc n) t l = ground arith

module _ {A : Type 0} where
  slice_lem :
      (xs : List A) (a b : ℕ)
      → b ≤ length xs
      → slice xs (pos a) (pos b)
        ≡ (if leb a b then ok (take (b - a) (drop a xs)) else panicked "slice bounds out of range")
  unfolding slice
  slice_lem xs a b h = ground arith

  page_at :
      (xs : List A) (a t l : ℕ)
      → length xs ≡ l
      → (if leb_ℤ (pos (min t l)) (pos 0) && leb_ℤ (pos 0) (pos (min t l))
          then slice xs (pos a) (pos l)
          else slice xs (pos a) (pos (min t l)))
        ≡ slice xs (pos a) (pos (reached t l))
  page_at xs a zero l e = ground arith
  page_at xs a (suc t) l e = ground arith

  -- For a `Stop` that is not negative and a list shorter than 2³¹, the page is the elements from
  -- `Start`, counted from 1, to `Stop`: 0 or less for `Start` means 1, and for `Stop` 0 and
  -- anything beyond the end mean the end. If the elements before `Start` are more than those up to
  -- that end, the request panics.
  pub page-window :
      (options : GetOptions) (xs : List A) (t : ℕ)
      → length xs < 2 ^ 31
      → options.stop ≡ pos t
      → page options xs ≡ (
          if leb (skipped options.start) (reached t (length xs))
          then ok (
              take
                (reached t (length xs) - skipped options.start)
                (drop (skipped options.start) xs))
          else panicked "slice bounds out of range")
  unfolding page
  page-window options xs t small e =
      rw (e, int32_pos (length xs) small, convert_lem)
        (page_at xs (skipped options.start) t (length xs) refl
          ∙ slice_lem xs (skipped options.start) (reached t (length xs)) (reached-le t (length xs)))

  pub take_all : (n : ℕ) (xs : List A) → length xs ≤ n → take n xs ≡ xs
  take_all zero [] h = refl
  take_all zero (x ∷ xs) h = absurd (omega arith)
  take_all (suc n) [] h = refl
  take_all (suc n) (x ∷ xs) h = ap (λ ys. x ∷ ys) (take_all n xs (omega arith))

  take-append-drop : (n : ℕ) (xs : List A) → take n xs ++ drop n xs ≡ xs
  take-append-drop zero xs = refl
  take-append-drop (suc n) [] = refl
  take-append-drop (suc n) (x ∷ xs) = rw (take-append-drop n xs)

  length-drop : (n : ℕ) (xs : List A) → length (drop n xs) ≡ length xs - n
  length-drop zero xs = omega arith
  length-drop (suc n) [] = omega arith
  length-drop (suc n) (x ∷ xs) = omega (arith, length-drop n xs)

  first_page :
      (options : GetOptions) (xs : List A) (k : ℕ)
      → suc k ≤ length xs
      → options.start ≡ pos 1
      → (if leb (skipped options.start) (reached (suc k) (length xs))
          then ok (
              take
                (reached (suc k) (length xs) - skipped options.start)
                (drop (skipped options.start) xs))
          else panicked "slice bounds out of range")
        ≡ ok (take (suc k) xs)
  first_page options xs k h e =
      let q : min (suc k) (length xs) ≡ suc k = omega arith in rw (e, q) (ground arith)

  last_page :
      (options : GetOptions) (xs : List A) (k m : ℕ)
      → suc k ≤ length xs
      → length xs ≤ m
      → options.start ≡ pos (suc (suc k))
      → (if leb (skipped options.start) (reached m (length xs))
          then ok (
              take
                (reached m (length xs) - skipped options.start)
                (drop (skipped options.start) xs))
          else panicked "slice bounds out of range")
        ≡ ok (drop (suc k) xs)
  last_page options xs k m h l e =
      let q : reached m (length xs) ≡ length xs = reached_all m (length xs) l (omega arith) in
      let s : suc (suc k) - 1 ≡ suc k = omega arith in
      let t : take (length xs - suc k) (drop (suc k) xs) ≡ drop (suc k) xs =
        take_all (length xs - suc k) (drop (suc k) xs) (omega (arith, length-drop (suc k) xs)) in
      rw (e, q, s, t) (ground arith)

  -- For a list of at most `m` elements, and of fewer than 2³¹, and a page of at least one element
  -- that lies within the list: the page from 1 to its end and the page from behind it to `m` are
  -- both returned, and hold, one after the other, the whole list.
  page-append :
      (first second : GetOptions) (xs : List A) (k m : ℕ)
      → length xs < 2 ^ 31
      → suc k ≤ length xs
      → length xs ≤ m
      → first.start ≡ pos 1
      → first.stop ≡ pos (suc k)
      → second.start ≡ pos (suc (suc k))
      → second.stop ≡ pos m
      → (ys zs : List A) × (page first xs ≡ ok ys) × (page second xs ≡ ok zs) × (ys ++ zs ≡ xs)
  page-append first second xs k m small inside enough e₁ e₂ e₃ e₄ = (
    take (suc k) xs,
    drop (suc k) xs,
    page-window first xs (suc k) small e₂ ∙ first_page first xs k inside e₁,
    page-window second xs m small e₄ ∙ last_page second xs k m inside enough e₃,
    take-append-drop (suc k) xs,
  )
