-- ===== src/Consumer/Inbox.antt =====
-- What the consumer relies on in the `save` of its inbox repository, and what a rollback leaves of
-- what it saved.
use bet_advise.Base.{
  ◌≡◌, refl, inl, inr, not, Option, some, List, [], ◌∷◌, ◌++◌, map, filter, if◌then◌else◌,
  Bool-cases, arith,
}
use bet_advise.Base.Text.{Text, text_eq, text_eq_refl, member}
use bet_advise.Consumer.{InboxMessage}

abbrev pub Save : Type 0
Save = InboxMessage → List InboxMessage → Option (List InboxMessage)

abbrev pub id_of : InboxMessage → Text
id_of r = r.id

-- A row that is there already gets the tenant; its time was set when it was inserted.
abbrev pub touch : InboxMessage → InboxMessage → InboxMessage
touch r s = if text_eq s.id r.id then record s { tenant_id = r.tenant_id } else s

-- `save` as TypeORM documents it: an entity whose id is there is updated, else it is inserted.
abbrev pub upsert : InboxMessage → List InboxMessage → List InboxMessage
upsert r inbox = if member r.id (map id_of inbox) then map (touch r) inbox else inbox ++ r ∷ []

pub record IsUpsert (save : Save) : Type 0 where
  pub upserts :
      (r : InboxMessage) (inbox : List InboxMessage) → save r inbox ≡ some (upsert r inbox)

-- The inbox without the rows of an id.
abbrev pub without : Text → List InboxMessage → List InboxMessage
without id inbox = filter (λ s. not (text_eq s.id id)) inbox

without-touch :
    (r : InboxMessage) (inbox : List InboxMessage)
    → without r.id (map (touch r) inbox) ≡ without r.id inbox
without-touch r [] = refl
without-touch r (s ∷ inbox) = elim (Bool-cases (text_eq s.id r.id)) [
  | inl same ↦ rw same (rw same (without-touch r inbox))
  | inr other ↦ rw other (rw other (rw (without-touch r inbox) refl))
]

without-snoc :
    (r : InboxMessage) (inbox : List InboxMessage)
    → without r.id (inbox ++ r ∷ []) ≡ without r.id inbox
without-snoc r [] = ground (arith, text_eq_refl r.id)
without-snoc r (s ∷ inbox) = ground (arith, without-snoc r inbox)

pub without-upsert :
    (r : InboxMessage) (inbox : List InboxMessage)
    → without r.id (upsert r inbox) ≡ without r.id inbox
without-upsert r inbox = elim (Bool-cases (member r.id (map id_of inbox))) [
  | inl there ↦ rw there (without-touch r inbox)
  | inr new ↦ rw new (without-snoc r inbox)
]
