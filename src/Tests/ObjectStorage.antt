-- ===== src/Tests/ObjectStorage.antt =====
-- A key with slashes to strip and a backslash.
use bet_advise.Base.{◌≡◌, refl, ◌∷◌}
use bet_advise.Base.Exec.{ok}
use bet_advise.Base.Text.{Text, codes, starts_with, includes}
use bet_advise.ObjectStorage.{validate_and_normalize_key}
use bet_advise.ObjectStorage.Keys.{IsClean, validate_and_normalize_key-IsClean}

-- `//odds\home.json`
abbrev untidy : Text
untidy = b'/' ∷ b'/' ∷ b'o' ∷ b'd' ∷ b'd' ∷ b's' ∷ 92 ∷ codes "home.json"

untidy_normalized : validate_and_normalize_key untidy ≡ ok (codes "odds/home.json")
unfolding validate_and_normalize_key includes starts_with
untidy_normalized = refl

validate_and_normalize_key-IsClean_example :
    IsClean (codes "odds/home.json")
    × (validate_and_normalize_key (codes "odds/home.json") ≡ ok (codes "odds/home.json"))
validate_and_normalize_key-IsClean_example =
    validate_and_normalize_key-IsClean untidy (codes "odds/home.json") untidy_normalized

-- A last segment `..` passes.
parent_accepted : validate_and_normalize_key (codes "odds/..") ≡ ok (codes "odds/..")
unfolding validate_and_normalize_key includes starts_with
parent_accepted = refl
