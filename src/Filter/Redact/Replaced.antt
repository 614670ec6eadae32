-- ===== src/Filter/Redact/Replaced.antt =====
-- What a probe finds in a text in which the matches of a pattern were replaced.
use bet_advise.Base.{
  ◌≡◌, ◌≢◌, refl, sym, ◌∙◌, inl, inr, ℕ, zero, suc, ◌-◌, Bool, true, false, ◌&&◌, ◌||◌, &&_eq_true,
  Bool-cases, Option, none, some, Option-cases, [], ◌∷◌, ◌++◌, All, ◌==◌, ==_iff, if◌then◌else◌,
  arith,
}
use bet_advise.Base.Text.{Text}
use bet_advise.Tenancy.{is_space}
use bet_advise.Filter.Redact.{fold, is_word, is_token, replace_from}

-- Whether a text goes on with a literal, and after it as `base` says.
unfoldable pub followed : (Text → Bool) → Text → Text → Bool
followed base [] s = base s
followed base (a ∷ p) [] = false
followed base (a ∷ p) (c ∷ s) = fold c == a && followed base p s

unfoldable pub word_next : Text → Bool
word_next [] = false
word_next (c ∷ s) = is_word c

unfoldable pub token_next : Text → Bool
token_next [] = false
token_next (c ∷ s) = let later = token_next s in if is_space c then later else is_token c

unfoldable pub space_next : Text → Bool
unfolding token_next
space_next [] = false
space_next (c ∷ s) = is_space c && token_next s

-- A probe holds somewhere.
unfoldable pub anywhere : (Text → Bool) → Text → Bool
anywhere probe [] = false
anywhere probe (c ∷ s) = probe (c ∷ s) || anywhere probe s

-- Where nothing is replaced, the probe fails.
unfoldable pub IsCovered : (Text → Option ℕ) → (Text → Bool) → Text → Type 0
IsCovered match_at probe [] = Unit
IsCovered match_at probe (c ∷ s) =
    (match_at (c ∷ s) ≡ none → probe (c ∷ s) ≡ false) × IsCovered match_at probe s

-- A first letter of a literal: it is part of words and tokens, and no space.
pub record IsName (l : ℕ) : Type 0 where
  pub word : (c : ℕ) → fold c ≡ l → is_word c ≡ true
  pub token : (c : ℕ) → fold c ≡ l → is_token c ≡ true
  pub no_space : (c : ℕ) → fold c ≡ l → is_space c ≡ false

pub p-IsName : IsName b'p'
p-IsName = record {
  word = λ c h. ground (arith, h);
  token = λ c h. ground (arith, h);
  no_space = λ c h. ground (arith, h);
}

pub b-IsName : IsName b'b'
b-IsName = record {
  word = λ c h. ground (arith, h);
  token = λ c h. ground (arith, h);
  no_space = λ c h. ground (arith, h);
}

-- A replacement whose matches and whose new text begin with the same letter.
module _ (match_at : Text → Option ℕ) (b : ℕ) (block : Text)
    (heads : (c : ℕ) (s : Text) (n : ℕ) → match_at (c ∷ s) ≡ some n → fold c ≡ fold b)
    (named : IsName (fold b)) where
  abbrev replaced : ℕ → Text → Text
  replaced n s = replace_from match_at (b ∷ block) n s

  pub word_next-replaced : (s : Text) → word_next (replaced 0 s) ≡ true → word_next s ≡ true
  unfolding word_next replace_from
  word_next-replaced [] h = h
  word_next-replaced (c ∷ s) h = elim (Option-cases (match_at (c ∷ s))) [
    | inl kept ↦ rw (kept, replace_from) at h
    | inr (n, hit) ↦ named.word c (heads c s n hit)
  ]

  token_next-replaced : (s : Text) → token_next (replaced 0 s) ≡ true → token_next s ≡ true
  unfolding token_next replace_from
  token_next-replaced [] h = h
  token_next-replaced (c ∷ s) h = elim (Option-cases (match_at (c ∷ s))) [
    | inr (n, hit) ↦ rw (named.no_space c (heads c s n hit)) (named.token c (heads c s n hit))
    | inl kept ↦
        let h' = rw (kept, replace_from) at h in
        elim (Bool-cases (is_space c)) [
          | inl space ↦ rw space (token_next-replaced s (rw space at h'))
          | inr other ↦ rw other (rw other at h')
        ]
  ]

  pub space_next-replaced : (s : Text) → space_next (replaced 0 s) ≡ true → space_next s ≡ true
  unfolding space_next replace_from
  space_next-replaced [] h = h
  space_next-replaced (c ∷ s) h = elim (Option-cases (match_at (c ∷ s))) [
    | inr (n, hit) ↦
        let (space, next) = &&_eq_true (is_space b) _ (rw (hit, replace_from) at h) in
        ground (arith, space, named.no_space b refl)
    | inl kept ↦
        let (space, next) = &&_eq_true (is_space c) _ (rw (kept, replace_from) at h) in
        rw space (token_next-replaced s next)
  ]

  followed-replaced :
      (base : Text → Bool) (p s : Text)
      → ((s : Text) → base (replaced 0 s) ≡ true → base s ≡ true)
      → All (λ a. a ≢ fold b) p
      → followed base p (replaced 0 s) ≡ true
      → followed base p s ≡ true
  unfolding followed replace_from
  followed-replaced base [] s kept other h = kept s h
  followed-replaced base (a ∷ p) [] kept other h = h
  followed-replaced base (a ∷ p) (c ∷ s) kept (differ, other) h =
      elim (Option-cases (match_at (c ∷ s))) [
        | inr (n, hit) ↦
            let (same, next) = &&_eq_true (fold b == a) _ (rw (hit, replace_from) at h) in
            absurd (differ (sym ((==_iff (fold b) a).0 same)))
        | inl copied ↦
            let (same, next) = &&_eq_true (fold c == a) _ (rw (copied, replace_from) at h) in
            rw same (followed-replaced base p s kept other next)
      ]

  pub anywhere-replaced :
      (base : Text → Bool) (a : ℕ) (p : Text)
      → ((s : Text) → base (replaced 0 s) ≡ true → base s ≡ true)
      → All (λ a. a ≢ fold b) p
      → ((rest : Text)
          → anywhere (followed base (a ∷ p)) ((b ∷ block) ++ rest)
            ≡ anywhere (followed base (a ∷ p)) rest)
      → (n : ℕ) (s : Text) → IsCovered match_at (followed base (a ∷ p)) s
      → anywhere (followed base (a ∷ p)) (replaced n s) ≡ false
  unfolding anywhere followed replace_from IsCovered
  anywhere-replaced base a p kept other clean n [] covered = refl
  anywhere-replaced base a p kept other clean (suc n) (c ∷ s) (here, covered) =
      anywhere-replaced base a p kept other clean n s covered
  anywhere-replaced base a p kept other clean zero (c ∷ s) (here, covered) =
      elim (Option-cases (match_at (c ∷ s))) [
        | inr (n, hit) ↦
            rw (hit, replace_from)
              (clean (replaced (n - 1) s)
                ∙ anywhere-replaced base a p kept other clean (n - 1) s covered)
        | inl copied ↦
            rw (copied, replace_from)
              (ground (
                arith,
                followed-replaced base p s kept other,
                here copied,
                anywhere-replaced base a p kept other clean 0 s covered,
              ))
      ]
