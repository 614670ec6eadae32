-- ===== src/Matches/Lifecycle.antt =====
-- What `transitionTo` allows, and what holds along a chain of transitions.
use bet_advise.Base.{
  ℕ, ◌+◌, ◌≡◌, refl, sym, ap, ◌∙◌, ◌↔◌, ◌⊎◌, inl, inr, List, [], ◌∷◌, length, arith,
}
use bet_advise.Base.Exec.{ok}
use bet_advise.Matches.{
  MatchStatus, scheduled, postponed, cancelled, live, finished, abandoned, Match, transition_to,
}
use mathlib.Core.List.{Memᴰ}

-- The life of a match as a diagram.
infix 40 ◌⟶◌
pub data ◌⟶◌ : MatchStatus → MatchStatus → Type 0 where
  kick_off : scheduled ⟶ live
  postpone : scheduled ⟶ postponed
  call_off : scheduled ⟶ cancelled
  reschedule : postponed ⟶ scheduled
  give_up : postponed ⟶ cancelled
  whistle : live ⟶ finished
  abandon : live ⟶ abandoned

ruleset edges = (kick_off, postpone, call_off, reschedule, give_up, whistle, abandon)

-- The match after a transition: its status, its time of change and its version are new.
abbrev pub moved : Match → MatchStatus → ℕ → Match
moved m s now = record m { status = s; updated_at = now; version = m.version + 1 }

transition_to-moved :
    (m : Match) (s : MatchStatus) (now : ℕ) (m' : Match)
    → transition_to m s now ≡ ok m'
    → m' ≡ moved m s now
unfolding transition_to
transition_to-moved m s now m' h = ground arith

transition_to-⟶ :
    (m : Match) (s : MatchStatus) (now : ℕ) (m' : Match)
    → transition_to m s now ≡ ok m'
    → m.status ⟶ s
unfolding transition_to
transition_to-⟶ m s now m' h = grind (arith, edges)

⟶-transition_to :
    {a b : MatchStatus} (m : Match) (now : ℕ)
    → a ⟶ b
    → m.status ≡ a
    → transition_to m b now ≡ ok (moved m b now)
unfolding transition_to
⟶-transition_to m now kick_off e = ground arith
⟶-transition_to m now postpone e = ground arith
⟶-transition_to m now call_off e = ground arith
⟶-transition_to m now reschedule e = ground arith
⟶-transition_to m now give_up e = ground arith
⟶-transition_to m now whistle e = ground arith
⟶-transition_to m now abandon e = ground arith

-- `transitionTo` returns exactly along the edges of the diagram, with the status, the update time
-- and the version changed and all else kept.
pub transition_to_iff :
    (m : Match) (s : MatchStatus) (now : ℕ) (m' : Match)
    → (transition_to m s now ≡ ok m') ↔ ((m.status ⟶ s) × (m' ≡ moved m s now))
transition_to_iff m s now m' = (
  λ h. (transition_to-⟶ m s now m' h, transition_to-moved m s now m' h),
  λ h. ⟶-transition_to m now h.0 refl ∙ ap ok (sym h.1),
)

-- A chain of transitions that all returned, with the statuses that were asked for.
pub data Lifecycle (m : Match) : List MatchStatus → Match → Type 0 where
  start : Lifecycle m [] m
  step :
      {s : MatchStatus} {ss : List MatchStatus} {t u : Match} (now : ℕ)
      → Lifecycle m ss t
      → transition_to t s now ≡ ok u
      → Lifecycle m (s ∷ ss) u

-- Along a chain the identity, the tenant, the teams and the kick-off of a match stay as they were,
-- and the version counts the transitions.
pub Lifecycle-kept :
    {m t : Match} {ss : List MatchStatus}
    → Lifecycle m ss t
    → (t.version ≡ m.version + length ss)
      × (t.id ≡ m.id)
      × (t.tenant_id ≡ m.tenant_id)
      × (t.home_team ≡ m.home_team)
      × (t.away_team ≡ m.away_team)
      × (t.kickoff_at ≡ m.kickoff_at)
      × (t.created_at ≡ m.created_at)
Lifecycle-kept start = ground arith
Lifecycle-kept (step {s} {t} {u} now l h) =
    let moved_to = transition_to-moved t s now u h in ground (arith, Lifecycle-kept l)

-- A match is in play, or has been.
abbrev pub HasStarted : MatchStatus → Type 0
HasStarted s = (s ≡ live) ⊎ (s ≡ finished) ⊎ (s ≡ abandoned)

⟶-HasStarted : {a b : MatchStatus} → a ⟶ b → HasStarted b → (b ≡ live) ⊎ HasStarted a
⟶-HasStarted kick_off h = ground arith
⟶-HasStarted postpone h = ground arith
⟶-HasStarted call_off h = ground arith
⟶-HasStarted reschedule h = ground arith
⟶-HasStarted give_up h = ground arith
⟶-HasStarted whistle h = ground arith
⟶-HasStarted abandon h = ground arith

transition_to-status :
    (m : Match) (s : MatchStatus) (now : ℕ) (m' : Match)
    → transition_to m s now ≡ ok m'
    → m'.status ≡ s
transition_to-status m s now m' h = ap (λ (t : Match). t.status) (transition_to-moved m s now m' h)

-- A match that had not started and has started since, finished and abandoned matches included,
-- was set LIVE on the way.
pub Lifecycle-needs_live :
    {m t : Match} {ss : List MatchStatus}
    → Lifecycle m ss t
    → ¬ HasStarted m.status
    → HasStarted t.status
    → Memᴰ live ss
Lifecycle-needs_live start no_start h = absurd (no_start h)
Lifecycle-needs_live (step {s} {t} {u} now l h) no_start started =
    let same = transition_to-status t s now u h in
    elim (⟶-HasStarted (transition_to-⟶ t s now u h) (rw same at started)) [
      | inl e ↦ Memᴰ.head (sym e)
      | inr before ↦ Memᴰ.tail (Lifecycle-needs_live l no_start before)
    ]

abbrev pub IsTerminal : MatchStatus → Type 0
IsTerminal s = (s ≡ finished) ⊎ (s ≡ cancelled) ⊎ (s ≡ abandoned)

⟶-ne-IsTerminal : {a b : MatchStatus} → a ⟶ b → IsTerminal a → ⊥
⟶-ne-IsTerminal kick_off h = ground arith
⟶-ne-IsTerminal postpone h = ground arith
⟶-ne-IsTerminal call_off h = ground arith
⟶-ne-IsTerminal reschedule h = ground arith
⟶-ne-IsTerminal give_up h = ground arith
⟶-ne-IsTerminal whistle h = ground arith
⟶-ne-IsTerminal abandon h = ground arith

-- A finished, cancelled or abandoned match never changes again: every transition throws, so a
-- chain from it is empty.
pub IsTerminal-final :
    {m t : Match} {ss : List MatchStatus}
    → IsTerminal m.status
    → Lifecycle m ss t
    → (ss ≡ []) × (t ≡ m)
IsTerminal-final h start = (refl, refl)
IsTerminal-final {m} h (step {s} {t} {u} now l e) =
    let (_, same) = IsTerminal-final h l in
    absurd (⟶-ne-IsTerminal (transition_to-⟶ t s now u e) (rw same h))
