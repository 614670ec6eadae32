-- ===== src/Coupons/Tally.antt =====
-- The counts that `reduce` collects in an object, against the number of occurrences.
use bet_advise.Base.{
  ℕ, suc, ◌+◌, ◌<◌, ◌≡◌, ◌↔◌, true, false, Option, none, some, List, [], ◌∷◌, any, ltb, arith,
  Bool-cases, inl, inr, if◌then◌else◌,
}
use bet_advise.Base.Text.{Text, codes, text_eq, text_eq_iff, text_eq_refl, member}
use bet_advise.Coupons.{
  Slot, number, string, Counts, inherited, lookup, put, next, bump, tally, over_three, concentrated,
}

-- How often a text occurs in a list.
abbrev pub count_of : Text → List Text → ℕ
count_of s [] = 0
count_of s (x ∷ xs) = if text_eq x s then suc (count_of s xs) else count_of s xs

-- A name that an object does not inherit.
abbrev pub IsPlain : Text → Type 0
IsPlain s = member s inherited ≡ false

lookup-put :
    (s k : Text) (v : Slot) (m : Counts)
    → lookup s (put k v m) ≡ (if text_eq k s then some v else lookup s m)
unfolding lookup put
lookup-put s k v [] = ground arith
lookup-put s k v ((j, w) ∷ m) =
    ground (arith, lookup-put s k v m, text_eq_iff k s, text_eq_iff j k, text_eq_iff j s)

-- No key stands twice.
abbrev IsTable : Counts → Type 0
IsTable [] = Unit
IsTable ((k, v) ∷ m) = (lookup k m ≡ none) × IsTable m

put-IsTable : (s : Text) (v : Slot) (m : Counts) → IsTable m → IsTable (put s v m)
unfolding lookup put
put-IsTable s v [] h = ground arith
put-IsTable s v ((k, w) ∷ m) h =
    ground (arith, put-IsTable s v m h.1, lookup-put k s v m, text_eq_iff k s, text_eq_iff s k)

tally-IsTable : (acc : Counts) (xs : List Text) → IsTable acc → IsTable (tally acc xs)
unfolding tally
tally-IsTable acc [] h = h
tally-IsTable acc (x ∷ xs) h = tally-IsTable (bump acc x) xs (step acc x h)
  where
    step : (acc : Counts) (x : Text) → IsTable acc → IsTable (bump acc x)
    step acc x h = ground (arith, put-IsTable x (next x (lookup x acc)) acc h)

-- The count that a slot holds.
abbrev held : Option Slot → ℕ
held (some (number k)) = k
held (some string) = 0
held none = 0

-- Only the names that an object inherits get a string.
abbrev IsNumeric : Option Slot → Type 0
IsNumeric (some string) = ⊥
IsNumeric _ = Unit

proto_inherited : (s : Text) → IsPlain s → text_eq s (codes "__proto__") ≡ false
unfolding member
proto_inherited s h =
    ground (arith, text_eq_iff s (codes "__proto__"), text_eq_iff (codes "__proto__") s)

held-bump :
    (s x : Text) (acc : Counts)
    → IsPlain s
    → IsNumeric (lookup s acc)
    → (held (lookup s (bump acc x)) ≡ held (lookup s acc) + (if text_eq x s then 1 else 0))
      × IsNumeric (lookup s (bump acc x))
unfolding bump
held-bump s x acc p h = elim (Bool-cases (text_eq x s)) [
  | inl same ↦ rw ((text_eq_iff x s).0 same) (
      ground
        (arith, lookup-put s s (next s (lookup s acc)) acc, text_eq_refl s, proto_inherited s p))
  | inr other ↦ ground (arith, lookup-put s x (next x (lookup x acc)) acc)
]

-- For a plain name `reduce` counts the occurrences.
held-tally :
    (s : Text) (acc : Counts) (xs : List Text)
    → IsPlain s
    → IsNumeric (lookup s acc)
    → held (lookup s (tally acc xs)) ≡ held (lookup s acc) + count_of s xs
unfolding tally
held-tally s acc [] p h = ground arith
held-tally s acc (x ∷ xs) p h =
    let (count, numeric) = held-bump s x acc p h in
    ground (arith, held-tally s (bump acc x) xs p numeric)

-- For an inherited name it holds no count at all.
abbrev IsNoCount : Option Slot → Type 0
IsNoCount (some (number k)) = ⊥
IsNoCount _ = Unit

bump-IsNoCount :
    (s x : Text) (acc : Counts)
    → member s inherited ≡ true
    → IsNoCount (lookup s acc)
    → IsNoCount (lookup s (bump acc x))
unfolding bump
bump-IsNoCount s x acc p h = elim (Bool-cases (text_eq x s)) [
  | inl same ↦
      rw ((text_eq_iff x s).0 same)
        (ground (arith, lookup-put s s (next s (lookup s acc)) acc, text_eq_refl s))
  | inr other ↦ ground (arith, lookup-put s x (next x (lookup x acc)) acc)
]

tally-IsNoCount :
    (s : Text) (acc : Counts) (xs : List Text)
    → member s inherited ≡ true
    → IsNoCount (lookup s acc)
    → IsNoCount (lookup s (tally acc xs))
unfolding tally
tally-IsNoCount s acc [] p h = h
tally-IsNoCount s acc (x ∷ xs) p h =
    tally-IsNoCount s (bump acc x) xs p (bump-IsNoCount s x acc p h)

any-lookup :
    (m : Counts)
    → IsTable m
    → any over_three m ≡ true
    → (s : Text) × (k : ℕ) × (lookup s m ≡ some (number k)) × (3 < k)
unfolding lookup
any-lookup [] h e = cc
any-lookup ((s, number k) ∷ m) (new, h) e = elim (Bool-cases (ltb 3 k)) [
  | inl big ↦ (s, k, rw (text_eq_refl s), ground arith)
  | inr small ↦
      let (t, j, found, big) = any-lookup m h (ground arith) in
      (t, j, ground (arith, text_eq_iff s t), big)
]
any-lookup ((s, string) ∷ m) (new, h) e =
    let (t, j, found, big) = any-lookup m h e in (t, j, ground (arith, text_eq_iff s t), big)

lookup-any :
    (m : Counts) (s : Text) (k : ℕ) → lookup s m ≡ some (number k) → 3 < k → any over_three m ≡ true
unfolding lookup
lookup-any [] s k e h = cc
lookup-any ((t, v) ∷ m) s k e h = ground (arith, lookup-any m s k)

pub concentrated-count :
    (xs : List Text) → concentrated xs ≡ true → (s : Text) × IsPlain s × (3 < count_of s xs)
unfolding concentrated lookup
concentrated-count xs h =
    let (s, k, found, big) = any-lookup (tally [] xs) (tally-IsTable [] xs tt) h in
    elim (Bool-cases (member s inherited)) [
      | inl odd ↦ absurd (ground (arith, tally-IsNoCount s [] xs odd tt))
      | inr plain ↦ (s, plain, ground (arith, held-tally s [] xs plain tt))
    ]

pub count-concentrated :
    (xs : List Text) (s : Text) → IsPlain s → 3 < count_of s xs → concentrated xs ≡ true
unfolding concentrated lookup
count-concentrated xs s p h =
    lookup-any (tally [] xs) s (count_of s xs) (ground (arith, held-tally s [] xs p tt)) h

-- The test for concentration finds a name exactly where some name that objects do not inherit
-- occurs more than three times.
pub concentrated_iff :
    (xs : List Text) → (concentrated xs ≡ true) ↔ ((s : Text) × IsPlain s × (3 < count_of s xs))
concentrated_iff xs = (concentrated-count xs, λ (s, p, h). count-concentrated xs s p h)
