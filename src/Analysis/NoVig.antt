-- ===== src/Analysis/NoVig.antt =====
-- The no-vig calculator: src/analysis/application/no-vig-calculator.ts.
use bet_advise.Base.{◌≡◌, ◌||◌, List, [], ◌∷◌, map, any, if◌then◌else◌, arith}
use bet_advise.Base.Exec.{Exec, ok, throw}
use bet_advise.Base.Number.{Arithmetic}

pub record NoVigResult (Num : Type 0) : Type 0 where
  pub no_vig_probabilities : List Num
  pub margin : Num

pub data NoVigError : Type 0 where
  odds_not_above_one : NoVigError

module _ (n : Arithmetic) where
  open n use {Num, decimal, le, add, sub, div}

  unfoldable pub calculate_two_way : Num → Num → Exec NoVigError (NoVigResult Num)
  calculate_two_way o1 o2 =
      if le o1 (decimal 1 0) || le o2 (decimal 1 0)
      then throw odds_not_above_one
      else let impl1 = div (decimal 1 0) o1 in
        let impl2 = div (decimal 1 0) o2 in
        let sum = add impl1 impl2 in
        ok (record {
          no_vig_probabilities = div impl1 sum ∷ div impl2 sum ∷ [];
          margin = sub sum (decimal 1 0);
        })

  unfoldable pub calculate_three_way : Num → Num → Num → Exec NoVigError (NoVigResult Num)
  calculate_three_way o1 o2 o3 =
      if le o1 (decimal 1 0) || le o2 (decimal 1 0) || le o3 (decimal 1 0)
      then throw odds_not_above_one
      else let impl1 = div (decimal 1 0) o1 in
        let impl2 = div (decimal 1 0) o2 in
        let impl3 = div (decimal 1 0) o3 in
        let sum = add (add impl1 impl2) impl3 in
        ok (record {
          no_vig_probabilities = div impl1 sum ∷ div impl2 sum ∷ div impl3 sum ∷ [];
          margin = sub sum (decimal 1 0);
        })

  -- The same for a market of any size, its first outcome apart: refuse if an odds value is not
  -- above 1; else the implied probabilities, each over their sum.
  sum_from : Num → List Num → Num
  sum_from acc [] = acc
  sum_from acc (x ∷ xs) = sum_from (add acc x) xs

  pub no_vig : Num → List Num → Exec NoVigError (NoVigResult Num)
  unfolding sum_from
  no_vig o os =
      let implied = λ (x : Num). div (decimal 1 0) x in
      let sum = sum_from (implied o) (map implied os) in
      if any (λ x. le x (decimal 1 0)) (o ∷ os)
      then throw odds_not_above_one
      else ok (record {
        no_vig_probabilities = map (λ x. div (implied x) sum) (o ∷ os);
        margin = sub sum (decimal 1 0);
      })

  -- The two-way and the three-way calculation are one: they are the calculation for a market of
  -- any size, at two and at three outcomes, in what they refuse and in what they return.
  pub calculate-no_vig :
      (o1 o2 o3 : Num)
      → (calculate_two_way o1 o2 ≡ no_vig o1 (o2 ∷ []))
        × (calculate_three_way o1 o2 o3 ≡ no_vig o1 (o2 ∷ o3 ∷ []))
  unfolding calculate_two_way calculate_three_way no_vig
  calculate-no_vig o1 o2 o3 = (ground arith, ground arith)
