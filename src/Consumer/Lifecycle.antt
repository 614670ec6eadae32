-- ===== src/Consumer/Lifecycle.antt =====
-- The start and the stop of the consumer: `onModuleInit` and `onModuleDestroy`.
use bet_advise.Base.{
  ◌≡◌, refl, ◌⊎◌, inl, inr, ℕ, Bool, true, false, not, ◌&&◌, Bool-cases, Option, none, some, List,
  [], ◌∷◌, filter, ◌==◌, if◌then◌else◌, arith,
}
use bet_advise.Base.Text.{Text, is_empty}
use bet_advise.Consumer.{World, SqsMessage, Body, Delivery, prune, poll_loop}
use bet_advise.Consumer.Inbox.{Save}

-- What the constructor reads, as far as it decides on the start.
pub record ConsumerConfig : Type 0 where
  pub queue_url : Text
  pub consumer_enabled : Bool

-- The fields of the service, the timers that are active, and what it works on. The loop runs as
-- long as `running` says so.
pub record Service (Json : Type 0) : Type 0 where
  pub running : Bool
  pub polling : Bool
  pub cleanup_interval_id : Option ℕ
  pub timers : List ℕ
  pub world : World Json

abbrev pub is_wanted : ConsumerConfig → Bool
is_wanted c = c.consumer_enabled && not (is_empty c.queue_url)

-- `clearInterval`
abbrev pub clear : ℕ → List ℕ → List ℕ
clear id timers = filter (λ t. not (t == id)) timers

clear_option : Option ℕ → List ℕ → List ℕ
clear_option none timers = timers
clear_option (some id) timers = clear id timers

module _ {Json : Type 0} where
  -- `onModuleInit`, with the id of the new timer, the clock, and whether the pruning of the inbox
  -- that it begins with fails.
  unfoldable pub on_module_init : ConsumerConfig → ℕ → ℕ → Bool → Service Json → Service Json
  unfolding prune
  on_module_init c timer now fails s =
      if is_wanted c
      then record {
        running = true;
        polling = true;
        cleanup_interval_id = some timer;
        timers = timer ∷ s.timers;
        world = if fails then s.world else record (s.world) { inbox = prune now s.world.inbox };
      }
      else s

  -- `onModuleDestroy`: it waits for the loop to end.
  unfoldable pub on_module_destroy : Service Json → Service Json
  unfolding clear_option
  on_module_destroy s = record s {
    running = false;
    cleanup_interval_id = none;
    timers = clear_option s.cleanup_interval_id s.timers;
  }

  -- What happens to a consumer: NestJS starts it when it does not run, and stops it; while it runs,
  -- SQS answers, and the timer prunes.
  pub data Step (parse : Text → Option (Body Json)) (save : Save) (c : ConsumerConfig)
      : Service Json → Service Json → Type 0 where
    init :
        (timer now : ℕ) (fails : Bool) (s : Service Json)
        → s.running ≡ false
        → Step parse save c s (on_module_init c timer now fails s)
    destroy : (s : Service Json) → Step parse save c s (on_module_destroy s)
    poll :
        (responses : List (Option (List (Delivery × SqsMessage)))) (s : Service Json)
        → s.running ≡ true
        → Step parse save c s (record s { world = poll_loop parse save responses s.world })
    cleanup :
        (now id : ℕ) (rest : List ℕ) (s : Service Json)
        → s.timers ≡ id ∷ rest
        → Step parse save c s
            (record s { world = record (s.world) { inbox = prune now s.world.inbox } })

  pub data Run (parse : Text → Option (Body Json)) (save : Save) (c : ConsumerConfig)
      (start : Service Json) : Service Json → Type 0 where
    here : Run parse save c start start
    then_step :
        (s t : Service Json)
        → Run parse save c start s
        → Step parse save c s t
        → Run parse save c start t

  -- As it is constructed.
  abbrev pub new_service : World Json → Service Json
  new_service w = record {
    running = false;
    polling = false;
    cleanup_interval_id = none;
    timers = [];
    world = w;
  }

  -- A consumer that does not run has no timer; one that runs has the one that it will clear, and
  -- it is meant to run.
  abbrev pub IsTidy : ConsumerConfig → World Json → Service Json → Type 0
  IsTidy c w s =
      ((s.running ≡ false)
        × (s.timers ≡ [])
        × (s.cleanup_interval_id ≡ none)
        × ((is_wanted c ≡ true) ⊎ (s.world ≡ w)))
      ⊎ ((s.running ≡ true)
          × (is_wanted c ≡ true)
          × (id : ℕ) × (s.timers ≡ id ∷ [])
          × (s.cleanup_interval_id ≡ some id))

  Step-IsTidy :
      (parse : Text → Option (Body Json)) (save : Save) (c : ConsumerConfig) (w : World Json)
      (s t : Service Json)
      → Step parse save c s t
      → IsTidy c w s
      → IsTidy c w t
  unfolding on_module_init on_module_destroy clear_option
  Step-IsTidy parse save c w s t (init timer now fails _ stopped)
        (inr (runs, wanted, id, active, has_id)) =
      ground (arith, stopped, runs)
  Step-IsTidy parse save c w s t (init timer now fails _ stopped)
        (inl (idle, none_active, no_id, why)) =
      elim (Bool-cases (is_wanted c)) [
        | inl wanted ↦
            rw (wanted, on_module_init) (inr (refl, refl, timer, rw none_active refl, refl))
        | inr unwanted ↦
            rw (unwanted, on_module_init) (inl (idle, none_active, no_id, rw unwanted at why))
      ]
  Step-IsTidy parse save c w s t (destroy _) (inl (idle, none_active, no_id, why)) =
      inl (refl, rw no_id none_active, refl, why)
  Step-IsTidy parse save c w s t (destroy _) (inr (runs, wanted, id, active, has_id)) =
      let same : (id == id) ≡ true = ground arith in
      inl (refl, rw has_id (rw active (rw same refl)), refl, inl wanted)
  Step-IsTidy parse save c w s t (poll responses _ runs) (inl (idle, none_active, no_id, why)) =
      ground (arith, runs, idle)
  Step-IsTidy parse save c w s t (poll responses _ runs) (inr tidy) = inr tidy
  Step-IsTidy parse save c w s t (cleanup now id rest _ active)
        (inl (idle, none_active, no_id, why)) =
      ground (arith, active, none_active)
  Step-IsTidy parse save c w s t (cleanup now id rest _ active) (inr tidy) = inr tidy

  -- However often a consumer is started and stopped, and whatever SQS answers in between: when it
  -- does not run it has no active timer, and when it runs it has exactly the one timer that the
  -- stop will clear. A consumer that is disabled, or has no queue, never runs and never touches the
  -- inbox, the audit log or the queue.
  pub Run-IsTidy :
      (parse : Text → Option (Body Json)) (save : Save) (c : ConsumerConfig) (w : World Json)
      (s : Service Json)
      → Run parse save c (new_service w) s
      → IsTidy c w s
  Run-IsTidy parse save c w s here = inl (refl, refl, refl, inr refl)
  Run-IsTidy parse save c w s (then_step r _ before step) =
      Step-IsTidy parse save c w r s step (Run-IsTidy parse save c w r before)
