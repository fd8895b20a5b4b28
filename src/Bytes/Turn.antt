-- ===== src/Bytes/Turn.antt =====
-- Writing into a ring, seen from the place where reading starts.
use yifei.Prelude.{
  ℕ, ◌+◌, ◌-◌, ◌≤◌, ◌≡◌, sym, ap, ap₂, ◌∙◌, max, List, ◌++◌, arith, length, take, drop, length-drop,
}
use yifei.Bytes.{over, turn}
use yifei.Bytes.Over.{
  drop-over, take-over, over-append_left, over-append_right, take-over_self, drop-over_self,
}

module _ {ℓ} {A : Type ℓ} (area : List A) (r : ℕ) (rin : r ≤ length area) where
  -- A write between the reading place and the end.
  pub turn-over_left :
      (w : ℕ) (xs : List A)
      → r ≤ w
      → w + length xs ≤ length area
      → turn r (over area w xs) ≡ over (turn r area) (w - r) xs
  turn-over_left w xs p q =
      let e : r + (w - r) ≡ w = omega arith in
      ap (λ k. turn r (over area k xs)) (sym e)
      ∙ ap₂ ◌++◌ (drop-over r area (w - r) xs rin)
          (take-over_self r area (r + (w - r)) xs (omega arith) (omega arith))
      ∙ sym (
          over-append_left (drop r area) (take r area) (w - r) xs
            (omega (arith, length-drop r area)))

  -- A write before the reading place.
  pub turn-over_right :
      (w : ℕ) (xs : List A)
      → w + length xs ≤ r
      → turn r (over area w xs) ≡ over (turn r area) (length area - r + w) xs
  turn-over_right w xs p =
      let m : max r (w + length xs) ≡ r = omega arith in
      ap₂ ◌++◌ (drop-over_self r area w xs p (omega arith))
        (ap (λ k. take k (over area w xs)) (sym m) ∙ take-over r area w xs (omega arith) rin)
      ∙ sym (over-append_right (drop r area) (take r area) w xs)
      ∙ ap (λ k. over (turn r area) (k + w) xs) (length-drop r area)
