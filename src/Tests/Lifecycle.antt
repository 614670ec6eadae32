-- ===== src/Tests/Lifecycle.antt =====
-- A consumer that is started, polls, and is stopped.
use bet_advise.Base.{ℕ, true, false, refl}
use bet_advise.Base.Text.{codes}
use bet_advise.Consumer.{poll_loop}
use bet_advise.Consumer.Lifecycle.{
  ConsumerConfig, Service, on_module_init, on_module_destroy, new_service, init, destroy, poll, Run,
  here, then_step, IsTidy, Run-IsTidy,
}
use bet_advise.Tests.Consumer.{saving, parse, fresh, responses}

abbrev config : ConsumerConfig
config = record { queue_url = codes "q"; consumer_enabled = true }

abbrev started : Service ℕ
started = on_module_init config 5 100 false (new_service fresh)

abbrev polled : Service ℕ
polled = record started { world = poll_loop parse saving responses started.world }

stopped : Run parse saving config (new_service fresh) (on_module_destroy polled)
unfolding on_module_init
stopped =
    then_step polled (on_module_destroy polled)
      (then_step started polled
        (then_step (new_service fresh) started here (init 5 100 false (new_service fresh) refl))
        (poll responses started refl))
      (destroy polled)

Run-IsTidy_example : IsTidy config fresh (on_module_destroy polled)
Run-IsTidy_example = Run-IsTidy parse saving config fresh (on_module_destroy polled) stopped
