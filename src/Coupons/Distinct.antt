-- ===== src/Coupons/Distinct.antt =====
-- The size of a set against the length of the list that it is made from.
use bet_advise.Base.{
  ◌+◌, ◌≤◌, ◌≡◌, ◌↔◌, false, List, [], ◌∷◌, length, All, arith, Bool-cases, inl, inr,
}
use bet_advise.Base.Text.{Text, text_eq_iff, member, Distinct}
use bet_advise.Coupons.{set_from, has_repeats}

abbrev Apart : List Text → List Text → Type 0
Apart seen xs = All (λ x. member x seen ≡ false) xs

Apart-cons :
    (x : Text) (seen xs : List Text) → Apart (x ∷ seen) xs ↔ ((member x xs ≡ false) × Apart seen xs)
unfolding member
Apart-cons x seen [] = ground arith
Apart-cons x seen (y ∷ ys) = ground (arith, Apart-cons x seen ys, text_eq_iff x y, text_eq_iff y x)

length-set_from_le : (seen xs : List Text) → length (set_from seen xs) ≤ length seen + length xs
unfolding set_from
length-set_from_le seen [] = ground arith
length-set_from_le seen (x ∷ xs) =
    ground (arith, length-set_from_le seen xs, length-set_from_le (x ∷ seen) xs)

length-set_from_iff :
    (seen xs : List Text)
    → (length (set_from seen xs) ≡ length seen + length xs) ↔ (Distinct xs × Apart seen xs)
unfolding set_from
length-set_from_iff seen [] = ground arith
length-set_from_iff seen (x ∷ xs) = elim (Bool-cases (member x seen)) [
  | inl old ↦ ground (arith, length-set_from_le seen xs)
  | inr new ↦ ground (arith, length-set_from_iff (x ∷ seen) xs, Apart-cons x seen xs)
]

Apart-nil : (xs : List Text) → Apart [] xs
unfolding member
Apart-nil [] = ground arith
Apart-nil (x ∷ xs) = ground (arith, Apart-nil xs)

-- The size test finds a repetition exactly where there is one.
pub has_repeats_iff : (xs : List Text) → (has_repeats xs ≡ false) ↔ Distinct xs
unfolding has_repeats
has_repeats_iff xs = ground (arith, length-set_from_iff [] xs, Apart-nil xs)
