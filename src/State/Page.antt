-- ===== src/State/Page.antt =====
-- The window of a list that `Start` and `Stop` of a request choose. Both getters end in this code.
pub mod Window
use hambone.Base.{◌-◌, List, length, take, drop, if◌then◌else◌, ◌||◌, ◌&&◌}
use hambone.Base.Int.{ℤ, pos, int32, ltb_ℤ, leb_ℤ, pos_part}
use hambone.Go.{Result, ok, panicked}
use hambone.Helpers.{convert_start_stop_to_slice_indexes}
use hambone.Pb.{GetOptions}

module _ {A : Type 0} where
  -- `xs[lo:hi]` for `hi` up to the length. The runtime panics on bounds out of order.
  unfoldable pub slice : List A → ℤ → ℤ → Result (List A)
  slice xs lo hi =
      if ltb_ℤ lo (pos 0) || ltb_ℤ hi lo || ltb_ℤ (pos (length xs)) hi
      then panicked "slice bounds out of range"
      else ok (take (pos_part hi - pos_part lo) (drop (pos_part lo) xs))

  unfoldable pub page : GetOptions → List A → Result (List A)
  page options xs =
      let (lo, hi) =
        convert_start_stop_to_slice_indexes options.start options.stop (int32 (length xs)) in
      if leb_ℤ hi (pos 0) && leb_ℤ (pos 0) hi then slice xs lo (pos (length xs)) else slice xs lo hi
