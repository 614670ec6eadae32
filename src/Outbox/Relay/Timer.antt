-- ===== src/Outbox/Relay/Timer.antt =====
-- The start and the stop of the relay: `onModuleInit` and `onModuleDestroy`.
use bet_advise.Base.{
  ◌≡◌, refl, inl, inr, Bool-cases, ℕ, Bool, true, not, ◌&&◌, Option, none, some, List, [], ◌∷◌,
  filter, ◌==◌, if◌then◌else◌, arith,
}
use bet_advise.Base.Text.{Text, is_empty}

-- `enabled` and `queueUrl` of the constructor.
pub record TimerConfig : Type 0 where
  pub enabled : Bool
  pub queue_url : Text

-- `intervalId`, and the timers that are active.
pub record RelayTimer : Type 0 where
  pub interval_id : Option ℕ
  pub timers : List ℕ

unfoldable pub on_module_init : TimerConfig → ℕ → RelayTimer → RelayTimer
on_module_init c timer s =
    if c.enabled && not (is_empty c.queue_url)
    then record { interval_id = some timer; timers = timer ∷ s.timers }
    else s

stopped : Option ℕ → List ℕ → RelayTimer
stopped none timers = record { interval_id = none; timers = timers }
stopped (some id) timers = record {
  interval_id = none;
  timers = filter (λ t. not (t == id)) timers;
}

unfoldable pub on_module_destroy : RelayTimer → RelayTimer
unfolding stopped
on_module_destroy s = stopped s.interval_id s.timers

-- A relay that is started once and stopped leaves no timer, whether it was enabled or not.
pub on_module_destroy-on_module_init :
    (c : TimerConfig) (timer : ℕ)
    → on_module_destroy (on_module_init c timer (record { interval_id = none; timers = [] }))
      ≡ record { interval_id = none; timers = [] }
unfolding on_module_destroy on_module_init stopped
on_module_destroy-on_module_init c timer =
    elim (Bool-cases (c.enabled && not (is_empty c.queue_url))) [
      | inr unwanted ↦ rw unwanted refl
      | inl wanted ↦ let same : (timer == timer) ≡ true = ground arith in rw wanted (rw same refl)
    ]
