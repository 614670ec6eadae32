-- ===== src/Outbox/Claim/Laws.antt =====
-- What a claim takes, and what it leaves alone.
use mathlib.Core.Path.{subst}
use bet_advise.Base.{
  ℕ, ◌≤◌, ◌≡◌, refl, sym, ap, ◌∙◌, ◌⊎◌, Bool, true, false, List, [], ◌∷◌, map, filter, take, length,
  Occurs, Occurs-filter, length-take_le, length-map, arith, Bool-cases, inl, inr, if◌then◌else◌,
}
use bet_advise.Base.Keyed.{
  Occurs-take, Occurs-map, map-Occurs, member-key, Distinct-key, length-filter-member_le,
}
use bet_advise.Base.Text.{Text, member, Distinct}
use bet_advise.Outbox.{pending, OutboxEvent, Table}
use bet_advise.Outbox.Claim.{
  is_due, insert_by_age, by_age, due_ids, mark_claimed, update_where, claim_batch,
}

module _ {Json : Type 0} where
  abbrev pub id_of : OutboxEvent Json → Text
  id_of r = r.id

  insert_by_age-Occurs :
      (x r : OutboxEvent Json) (t : Table Json)
      → Occurs x (insert_by_age r t)
      → (x ≡ r) ⊎ Occurs x t
  unfolding insert_by_age
  insert_by_age-Occurs x r [] h = h
  insert_by_age-Occurs x r (s ∷ t) h = ground (arith, insert_by_age-Occurs x r t)

  by_age-Occurs : (x : OutboxEvent Json) (t : Table Json) → Occurs x (by_age t) → Occurs x t
  unfolding by_age
  by_age-Occurs x [] h = h
  by_age-Occurs x (r ∷ t) h =
      ground (arith, insert_by_age-Occurs x r (by_age t) h, by_age-Occurs x t)

  -- A row that may be claimed: pending, due, and not held by another transaction.
  abbrev pub IsDue : ℕ → (Text → Bool) → OutboxEvent Json → Type 0
  IsDue now locked r = (r.status ≡ pending) × (r.next_attempt_at ≤ now) × (locked r.id ≡ false)

  is_due-IsDue :
      (now : ℕ) (locked : Text → Bool) (r : OutboxEvent Json)
      → is_due now locked r ≡ true
      → IsDue now locked r
  unfolding is_due
  is_due-IsDue now locked r h = ground arith

  due_ids-IsDue :
      (size now : ℕ) (locked : Text → Bool) (t : Table Json) (k : Text)
      → member k (due_ids size now locked t) ≡ true
      → (r : OutboxEvent Json) × Occurs r t × (r.id ≡ k) × IsDue now locked r
  unfolding due_ids
  due_ids-IsDue size now locked t k h =
      let (r, taken, e) = member-key id_of k _ h in
      let sorted = Occurs-take size r _ taken in
      let (inside, due) = (Occurs-filter (is_due now locked) r t).0 (by_age-Occurs r _ sorted) in
      (r, inside, e, is_due-IsDue now locked r due)

  length-due_ids_le :
      (size now : ℕ) (locked : Text → Bool) (t : Table Json)
      → length (due_ids size now locked t) ≤ size
  unfolding due_ids
  length-due_ids_le size now locked t = omega (
    arith,
    length-map id_of (take size (by_age (filter (is_due now locked) t))),
    length-take_le size (by_age (filter (is_due now locked) t)),
  )

  -- An update that keeps the ids keeps their list.
  pub map-update_where :
      (test : OutboxEvent Json → Bool) (f : OutboxEvent Json → OutboxEvent Json) (t : Table Json)
      → ((r : OutboxEvent Json) → (f r).id ≡ r.id)
      → map id_of (update_where test f t) ≡ map id_of t
  unfolding update_where
  map-update_where test f [] keep = refl
  map-update_where test f (r ∷ t) keep = ground (arith, keep r, map-update_where test f t keep)

  -- A claim changes no id: no row is lost and none is added.
  pub map-claim_batch :
      (size now : ℕ) (locked : Text → Bool) (owner : Text) (t : Table Json)
      → map id_of (claim_batch size now locked owner t).0 ≡ map id_of t
  unfolding claim_batch
  map-claim_batch size now locked owner t =
      map-update_where (λ r. member r.id (due_ids size now locked t)) (mark_claimed owner now) t
        (λ r. refl)

  -- The rows that an update by ids touches, as they are after it.
  touched-rows :
      (ids : List Text) (f : OutboxEvent Json → OutboxEvent Json) (t : Table Json)
      (e : OutboxEvent Json)
      → ((r : OutboxEvent Json) → (f r).id ≡ r.id)
      → Occurs e (filter (λ r. member r.id ids) (update_where (λ r. member r.id ids) f t))
      → Occurs e (update_where (λ r. member r.id ids) f t)
        × ((r : OutboxEvent Json) × Occurs r t × (member r.id ids ≡ true) × (e ≡ f r))
  unfolding update_where
  touched-rows ids f [] e keep h = absurd h
  touched-rows ids f (r ∷ t) e keep h = elim (Bool-cases (member r.id ids)) [
    | inl hit ↦ elim (head_or_tail hit h) [
      | inl here ↦ (inl (rw hit here), (r, inl refl, hit, here))
      | inr later ↦
          let (there, (s, inside, picked, same)) = touched-rows ids f t e keep later in
          (inr there, (s, inr inside, picked, same))
    ]
    | inr miss ↦
        let (there, (s, inside, picked, same)) =
          touched-rows ids f t e keep (rw (miss, miss) at h) in
        (inr there, (s, inr inside, picked, same))
  ]
    where
      head_or_tail :
          member r.id ids ≡ true
          → Occurs e (filter (λ r. member r.id ids) (update_where (λ r. member r.id ids) f (r ∷ t)))
          → (e ≡ f r)
            ⊎ Occurs e (filter (λ r. member r.id ids) (update_where (λ r. member r.id ids) f t))
      head_or_tail hit h = ground (arith, keep r)

  -- Each row that a claim returns stands in the new table, and is a row of the old one that was
  -- due, marked with the owner and the lease.
  pub claim_batch-IsDue :
      (size now : ℕ) (locked : Text → Bool) (owner : Text) (t : Table Json) (e : OutboxEvent Json)
      → Distinct (map id_of t)
      → let (t', events) = claim_batch size now locked owner t in
        Occurs e events
        → Occurs e t'
          × ((r : OutboxEvent Json) × Occurs r t
              × IsDue now locked r
              × (e ≡ mark_claimed owner now r))
  unfolding claim_batch
  claim_batch-IsDue size now locked owner t e d h =
      let ids = due_ids size now locked t in
      let (here, (r, inside, picked, marked)) =
        touched-rows ids (mark_claimed owner now) t e (λ r. refl) h in
      let (s, there, same, due) = due_ids-IsDue size now locked t r.id picked in
      (
        here,
        (
          r,
          inside,
          subst (IsDue now locked) (Distinct-key id_of t s r d there inside same) due,
          marked,
        ),
      )

  -- Each row of the table after a claim stood in it before, or is a due row that was marked.
  pub claim_batch-Occurs :
      (size now : ℕ) (locked : Text → Bool) (owner : Text) (t : Table Json) (x : OutboxEvent Json)
      → Distinct (map id_of t)
      → Occurs x (claim_batch size now locked owner t).0
      → Occurs x t
        ⊎ ((r : OutboxEvent Json) × Occurs r t
            × IsDue now locked r
            × (x ≡ mark_claimed owner now r))
  unfolding claim_batch update_where
  claim_batch-Occurs size now locked owner t x d h =
      let ids = due_ids size now locked t in
      let (r, inside, e) =
        map-Occurs (λ r. if member r.id ids then mark_claimed owner now r else r) x t h in
      elim (Bool-cases (member r.id ids)) [
        | inl picked ↦
            let (s, there, same, due) = due_ids-IsDue size now locked t r.id picked in
            inr (
              r,
              inside,
              subst (IsDue now locked) (Distinct-key id_of t s r d there inside same) due,
              rw picked at e,
            )
        | inr miss ↦
            let same : x ≡ r = rw miss at e in inl (subst (λ y. Occurs y t) (sym same) inside)
      ]

  -- Two claims never take the same event, whichever rows either finds locked: of the events that
  -- the first has claimed, the second claims none.
  pub claim_batch-exclusive :
      (size size' now now' : ℕ) (locked locked' : Text → Bool) (owner owner' : Text)
      (t : Table Json) (e f : OutboxEvent Json)
      → Distinct (map id_of t)
      → let (t', events) = claim_batch size now locked owner t in
        let (t'', events') = claim_batch size' now' locked' owner' t' in
        Occurs e events → Occurs f events' → ¬ (e.id ≡ f.id)
  claim_batch-exclusive size size' now now' locked locked' owner owner' t e f d he hf same =
      let t' = (claim_batch size now locked owner t).0 in
      let d' : Distinct (map id_of t') = rw (map-claim_batch size now locked owner t) d in
      let (here, (r, inside, due, marked)) = claim_batch-IsDue size now locked owner t e d he in
      let (here', (s, inside', due', marked')) =
        claim_batch-IsDue size' now' locked' owner' t' f d' hf in
      let one = Distinct-key id_of t' e s d' here inside' (same ∙ ap id_of marked') in
      clash e s r one marked due'.0
    where
      clash :
          (e s r : OutboxEvent Json) → e ≡ s → e ≡ mark_claimed owner now r → s.status ≡ pending → ⊥
      clash e s r one marked p = ground arith

  -- A claim takes at most as many events as the batch size says.
  pub length-claim_batch_le :
      (size now : ℕ) (locked : Text → Bool) (owner : Text) (t : Table Json)
      → Distinct (map id_of t)
      → length (claim_batch size now locked owner t).1 ≤ size
  unfolding claim_batch
  length-claim_batch_le size now locked owner t d =
      let ids = due_ids size now locked t in
      let t' = update_where (λ r. member r.id ids) (mark_claimed owner now) t in
      let d' : Distinct (map id_of t') =
        rw (map-update_where (λ r. member r.id ids) (mark_claimed owner now) t (λ r. refl)) d in
      omega (arith, length-filter-member_le id_of ids t' d', length-due_ids_le size now locked t)

  -- An update leaves a row alone that its test does not pick.
  pub update_where-Occurs :
      (test : OutboxEvent Json → Bool) (f : OutboxEvent Json → OutboxEvent Json)
      (r : OutboxEvent Json) (t : Table Json)
      → test r ≡ false
      → Occurs r t
      → Occurs r (update_where test f t)
  unfolding update_where
  update_where-Occurs test f r t miss h =
      rw (miss) at (Occurs-map (λ s. if test s then f s else s) r t h)

  -- A row that is not pending is passed over: it stays as it is, and no event with its id is taken.
  pub claim_batch-passes_over :
      (size now : ℕ) (locked : Text → Bool) (owner : Text) (t : Table Json) (r : OutboxEvent Json)
      → Distinct (map id_of t)
      → Occurs r t
      → ¬ (r.status ≡ pending)
      → let (t', events) = claim_batch size now locked owner t in
        Occurs r t' × ((e : OutboxEvent Json) → Occurs e events → ¬ (e.id ≡ r.id))
  unfolding claim_batch
  claim_batch-passes_over size now locked owner t r d inside busy =
      let ids = due_ids size now locked t in
      (
        elim (Bool-cases (member r.id ids)) [
          | inl picked ↦
              let (s, there, same, due) = due_ids-IsDue size now locked t r.id picked in
              absurd (
                busy (
                  subst (λ (x : OutboxEvent Json). x.status ≡ pending)
                    (Distinct-key id_of t s r d there inside same) due.0))
          | inr miss ↦
              update_where-Occurs (λ s. member s.id ids) (mark_claimed owner now) r t miss inside
        ],
        λ e he same.
            let (_, (s, there, due, marked)) = claim_batch-IsDue size now locked owner t e d he in
            let one = Distinct-key id_of t s r d there inside (sym (ap id_of marked) ∙ same) in
            busy (subst (λ (x : OutboxEvent Json). x.status ≡ pending) one due.0),
      )
