-- ===== src/Base/Keyed.antt =====
-- Rows of a table that have a key: what occurs, and what a distinct key decides.
use mathlib.Core.Path.{◌≡◌, refl, sym, ap, ◌∙◌, subst}
use mathlib.Core.Logic.{inl, inr}
use mathlib.Core.Bool.{Bool, true, false}
use mathlib.Core.Option.{some}
use mathlib.Core.List.{List, [], ◌∷◌, ◌++◌, map}
use Prim.Native.Nat.{ℕ, zero, suc, ◌+◌, ◌≤◌}
use native.Mathlib.Omega.{arith}
use bet_advise.Base.Cond.{Bool-cases}
use bet_advise.Base.Lists.{Occurs, All, take, filter, find, length}
use bet_advise.Base.Text.{Text, text_eq, text_eq_iff, member, Distinct}

pub Occurs-take : {A : Type 0} (n : ℕ) (x : A) (xs : List A) → Occurs x (take n xs) → Occurs x xs
Occurs-take zero x xs h = absurd h
Occurs-take (suc n) x [] h = h
Occurs-take (suc n) x (y ∷ ys) h = ground (arith, Occurs-take n x ys)

pub Occurs-map :
    {A B : Type 0} (f : A → B) (x : A) (xs : List A) → Occurs x xs → Occurs (f x) (map f xs)
Occurs-map f x [] h = h
Occurs-map f x (y ∷ ys) (inl e) = inl (ap f e)
Occurs-map f x (y ∷ ys) (inr h) = inr (Occurs-map f x ys h)

pub map-Occurs :
    {A B : Type 0} (f : A → B) (y : B) (xs : List A)
    → Occurs y (map f xs)
    → (x : A) × Occurs x xs × (y ≡ f x)
map-Occurs f y [] h = absurd h
map-Occurs f y (x ∷ xs) (inl e) = (x, inl refl, e)
map-Occurs f y (x ∷ xs) (inr h) = let (z, inside, e) = map-Occurs f y xs h in (z, inr inside, e)

pub All-Occurs {κ} :
    {A : Type 0} (P : A → Type κ) (xs : List A) → ((x : A) → Occurs x xs → P x) → All P xs
All-Occurs P [] h = tt
All-Occurs P (x ∷ xs) h = (h x (inl refl), All-Occurs P xs (λ y o. h y (inr o)))

pub Occurs-All {κ} :
    {A : Type 0} (P : A → Type κ) (x : A) (xs : List A) → All P xs → Occurs x xs → P x
Occurs-All P x [] h o = absurd o
Occurs-All P x (y ∷ ys) (p, h) (inl e) = subst P (sym e) p
Occurs-All P x (y ∷ ys) (p, h) (inr o) = Occurs-All P x ys h o

pub Occurs-append_left : {A : Type 0} (x : A) (xs ys : List A) → Occurs x xs → Occurs x (xs ++ ys)
Occurs-append_left x [] ys h = absurd h
Occurs-append_left x (z ∷ xs) ys (inl e) = inl e
Occurs-append_left x (z ∷ xs) ys (inr h) = inr (Occurs-append_left x xs ys h)

pub Occurs-append_last : {A : Type 0} (x : A) (xs : List A) → Occurs x (xs ++ x ∷ [])
Occurs-append_last x [] = inl refl
Occurs-append_last x (z ∷ xs) = inr (Occurs-append_last x xs)

pub find-Occurs :
    {A : Type 0} (p : A → Bool) (xs : List A) (x : A)
    → find p xs ≡ some x
    → Occurs x xs × (p x ≡ true)
find-Occurs p [] x h = ground arith
find-Occurs p (y ∷ xs) x h = ground (arith, find-Occurs p xs x)

module _ {A : Type 0} (key : A → Text) where
  pub member-key :
      (k : Text) (xs : List A) → member k (map key xs) ≡ true → (x : A) × Occurs x xs × (key x ≡ k)
  unfolding member
  member-key k [] h = cc
  member-key k (x ∷ xs) h = elim (Bool-cases (text_eq (key x) k)) [
    | inl same ↦ (x, inl refl, (text_eq_iff (key x) k).0 same)
    | inr other ↦ let (y, inside, e) = member-key k xs (ground arith) in (y, inr inside, e)
  ]

  pub key-member : (x : A) (xs : List A) → Occurs x xs → member (key x) (map key xs) ≡ true
  unfolding member
  key-member x [] h = absurd h
  key-member x (y ∷ ys) (inl e) = ground (arith, text_eq_iff (key y) (key x), ap key e)
  key-member x (y ∷ ys) (inr h) = ground (arith, key-member x ys h)

  -- Two rows of a table with distinct keys that share a key are one.
  pub Distinct-key :
      (xs : List A) (x y : A)
      → Distinct (map key xs)
      → Occurs x xs
      → Occurs y xs
      → key x ≡ key y
      → x ≡ y
  Distinct-key [] x y d hx hy e = absurd hx
  Distinct-key (z ∷ zs) x y (new, d) (inl p) (inl q) e = p ∙ sym q
  Distinct-key (z ∷ zs) x y (new, d) (inl p) (inr q) e =
      absurd (clash zs z y new q (sym (ap key p) ∙ e))
    where
      clash :
          (zs : List A) (z y : A)
          → member (key z) (map key zs) ≡ false
          → Occurs y zs
          → key z ≡ key y
          → ⊥
      clash zs z y new q e = let old = key-member y zs q in ground arith
  Distinct-key (z ∷ zs) x y (new, d) (inr p) (inl q) e =
      absurd (clash zs z x new p (sym (ap key q) ∙ sym e))
    where
      clash :
          (zs : List A) (z y : A)
          → member (key z) (map key zs) ≡ false
          → Occurs y zs
          → key z ≡ key y
          → ⊥
      clash zs z y new q e = let old = key-member y zs q in ground arith
  Distinct-key (z ∷ zs) x y (new, d) (inr p) (inr q) e = Distinct-key zs x y d p q e

  length-filter-key :
      (k : Text) (xs : List A)
      → Distinct (map key xs)
      → length (filter (λ x. text_eq k (key x)) xs) ≤ 1
  unfolding member
  length-filter-key k [] d = omega arith
  length-filter-key k (x ∷ xs) (new, d) = elim (Bool-cases (text_eq k (key x))) [
    | inl same ↦
        rw same (ground (arith, none_left xs (rw (← (text_eq_iff k (key x)).0 same) at new)))
    | inr other ↦ rw other (length-filter-key k xs d)
  ]
    where
      none_left :
          (ys : List A)
          → member k (map key ys) ≡ false
          → length (filter (λ x. text_eq k (key x)) ys) ≡ 0
      none_left [] h = refl
      none_left (y ∷ ys) h =
          ground (arith, none_left ys, text_eq_iff k (key y), text_eq_iff (key y) k)

  length-filter-cons :
      (k : Text) (ks : List Text) (xs : List A)
      → length (filter (λ x. member (key x) (k ∷ ks)) xs)
        ≤ length (filter (λ x. text_eq k (key x)) xs) + length (filter (λ x. member (key x) ks) xs)
  unfolding member
  length-filter-cons k ks [] = omega arith
  length-filter-cons k ks (x ∷ xs) = ground (arith, length-filter-cons k ks xs)

  filter-member_nil : (xs : List A) → filter (λ x. member (key x) []) xs ≡ []
  unfolding member
  filter-member_nil [] = refl
  filter-member_nil (x ∷ xs) = filter-member_nil xs

  -- A list of keys picks no more rows than it has keys.
  pub length-filter-member_le :
      (ks : List Text) (xs : List A)
      → Distinct (map key xs)
      → length (filter (λ x. member (key x) ks) xs) ≤ length ks
  length-filter-member_le [] xs d = rw (filter-member_nil xs) (omega arith)
  length-filter-member_le (k ∷ ks) xs d =
      omega (
        arith,
        length-filter-key k xs d,
        length-filter-cons k ks xs,
        length-filter-member_le ks xs d,
      )
