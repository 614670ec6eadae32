-- ===== src/Matches/Storage/Laws.antt =====
-- Created matches are found again, by their own tenant alone.
use bet_advise.Base.{
  ℕ, ◌≡◌, refl, sym, ◌∙◌, ◌≢◌, ◌↔◌, ◌⊎◌, inl, inr, Bool, false, ◌&&◌, none, some, List, [], ◌∷◌,
  ◌++◌, map, filter, any, find, leb, if◌then◌else◌, Occurs, Occurs-filter, All, ◌≤◌, leb→le,
  Bool-cases, Option-cases, ap, arith,
}
use bet_advise.Base.Keyed.{find-Occurs}
use bet_advise.Base.Exec.{ok}
use bet_advise.Base.Text.{Text, is_empty, text_eq, text_eq_iff, text_eq_refl, text_eq-false}
use bet_advise.Tenancy.{get_tenant_id}
use bet_advise.Audit.{Writing}
use bet_advise.Matches.{Match}
use bet_advise.Matches.Storage.{
  MatchEntity, MatchData, Save, to_domain, find_by_id, insert_by_start, by_start, find_all, new_row,
  create,
}

-- A row of the table has the id.
abbrev pub has_id : Text → List MatchEntity → Bool
has_id id table = any (λ r. text_eq r.id id) table

-- What is relied on in TypeORM's `save`: a row whose id is new is inserted, unless it is refused.
pub record IsInserting (save : Save) : Type 0 where
  pub inserts :
      (row : MatchEntity) (table table' : List MatchEntity)
      → has_id row.id table ≡ false
      → save row table ≡ some table'
      → table' ≡ table ++ row ∷ []

-- A lookup in a table that a row was added to.
find-new :
    (row : MatchEntity) (tenant : Text) (table : List MatchEntity)
    → has_id row.id table ≡ false
    → find (λ r. text_eq r.id row.id && text_eq r.tenant_id tenant) (table ++ row ∷ [])
      ≡ (if text_eq row.tenant_id tenant then some row else none)
find-new row tenant [] new = ground (arith, text_eq_refl row.id)
find-new row tenant (r ∷ table) new = ground (arith, find-new row tenant table)

pub find_by_id-new :
    (row : MatchEntity) (tenant : Text) (table : List MatchEntity)
    → is_empty tenant ≡ false
    → has_id row.id table ≡ false
    → find_by_id (some tenant) row.id (table ++ row ∷ [])
      ≡ ok (if text_eq row.tenant_id tenant then some (to_domain row) else none)
unfolding find_by_id get_tenant_id
find_by_id-new row tenant table filled new = elim (Bool-cases (text_eq row.tenant_id tenant)) [
  | inl own ↦ rw (find_by_id, filled) (rw (find-new row tenant table new) (rw own refl))
  | inr foreign ↦ rw (find_by_id, filled) (rw (find-new row tenant table new) (rw foreign refl))
]

pub create-ok :
    (save : Save) (w : Writing) (tenant : Text) (details : MatchData)
    (table table' : List MatchEntity) (m : Match)
    → create save w (some tenant) details table ≡ ok (m, table')
    → (save (new_row w.id w.now tenant details) table ≡ some table')
      × (m ≡ to_domain (new_row w.id w.now tenant details))
unfolding create get_tenant_id
create-ok save w tenant details table table' m h = ground arith

-- With ids that are new, a match that was created is found by its id in the tenant that created it, as it was returned;
-- in no other tenant is it found.
pub create-find_by_id :
    (save : Save) (w : Writing) (tenant other : Text) (details : MatchData)
    (table table' : List MatchEntity) (m : Match)
    → IsInserting save
    → has_id w.id table ≡ false
    → is_empty tenant ≡ false
    → is_empty other ≡ false
    → other ≢ tenant
    → create save w (some tenant) details table ≡ ok (m, table')
    → (m.tenant_id ≡ tenant)
      × (find_by_id (some tenant) m.id table' ≡ ok (some m))
      × (find_by_id (some other) m.id table' ≡ ok none)
unfolding new_row to_domain
create-find_by_id save w tenant other details table table' m inserting new filled filled' differ h =
    let row = new_row w.id w.now tenant details in
    let (stored, same) = create-ok save w tenant details table table' m h in
    let grown = inserting.inserts row table table' new stored in
    rw same (
      rw grown (
        refl,
        find_by_id-new row tenant table filled new ∙ rw (text_eq_refl tenant) refl,
        find_by_id-new row other table filled' new
            ∙ rw (text_eq-false tenant other (λ e. differ (sym e))) refl,
      ))

insert_by_start-Occurs :
    (x r : MatchEntity) (t : List MatchEntity)
    → Occurs x (insert_by_start r t) ↔ ((x ≡ r) ⊎ Occurs x t)
unfolding insert_by_start
insert_by_start-Occurs x r [] = ground arith
insert_by_start-Occurs x r (s ∷ t) = ground (arith, insert_by_start-Occurs x r t)

by_start-Occurs : (x : MatchEntity) (t : List MatchEntity) → Occurs x (by_start t) ↔ Occurs x t
unfolding by_start
by_start-Occurs x [] = ground arith
by_start-Occurs x (r ∷ t) =
    ground (arith, insert_by_start-Occurs x r (by_start t), by_start-Occurs x t)

-- The matches stand in the order of their kick-off.
abbrev pub IsChronological : List MatchEntity → Type 0
IsChronological [] = Unit
IsChronological (r ∷ t) = All (λ s. r.scheduled_start ≤ s.scheduled_start) t × IsChronological t

insert_by_start-All :
    (P : MatchEntity → Type 0) (r : MatchEntity) (t : List MatchEntity)
    → P r
    → All P t
    → All P (insert_by_start r t)
unfolding insert_by_start
insert_by_start-All P r [] p h = (p, tt)
insert_by_start-All P r (s ∷ t) p h = elim (Bool-cases (leb r.scheduled_start s.scheduled_start)) [
  | inl before ↦ rw before (p, h)
  | inr later ↦ rw later (h.0, insert_by_start-All P r t p h.1)
]

All-le :
    (k l : ℕ) (t : List MatchEntity)
    → k ≤ l
    → All (λ s. l ≤ s.scheduled_start) t
    → All (λ s. k ≤ s.scheduled_start) t
All-le k l [] h a = tt
All-le k l (s ∷ t) h (p, a) = (omega arith, All-le k l t h a)

insert_by_start-IsChronological :
    (r : MatchEntity) (t : List MatchEntity)
    → IsChronological t
    → IsChronological (insert_by_start r t)
unfolding insert_by_start
insert_by_start-IsChronological r [] h = (tt, tt)
insert_by_start-IsChronological r (s ∷ t) h =
    elim (Bool-cases (leb r.scheduled_start s.scheduled_start)) [
      | inl before ↦
          let le = leb→le r.scheduled_start s.scheduled_start before in
          rw before ((le, All-le r.scheduled_start s.scheduled_start t le h.0), h)
      | inr later ↦ rw later (
        insert_by_start-All (λ x. s.scheduled_start ≤ x.scheduled_start) r t (ground arith) h.0,
        insert_by_start-IsChronological r t h.1,
      )
    ]

by_start-IsChronological : (t : List MatchEntity) → IsChronological (by_start t)
unfolding by_start
by_start-IsChronological [] = tt
by_start-IsChronological (r ∷ t) =
    insert_by_start-IsChronological r (by_start t) (by_start-IsChronological t)

-- In the context of a tenant `findAll` returns the matches of exactly the rows of that tenant, in
-- the order of their kick-off.
pub find_all-own :
    (tenant : Text) (table : List MatchEntity)
    → is_empty tenant ≡ false
    → (rows : List MatchEntity) × (find_all (some tenant) table ≡ ok (map to_domain rows))
      × IsChronological rows
      × ((r : MatchEntity) → Occurs r rows ↔ (Occurs r table × (r.tenant_id ≡ tenant)))
unfolding find_all get_tenant_id
find_all-own tenant table filled = (
  by_start (filter (λ r. text_eq r.tenant_id tenant) table),
  rw (find_all, filled) refl,
  by_start-IsChronological (filter (λ r. text_eq r.tenant_id tenant) table),
  λ r. ground (
    arith,
    by_start-Occurs r (filter (λ r. text_eq r.tenant_id tenant) table),
    Occurs-filter (λ r. text_eq r.tenant_id tenant) r table,
    text_eq_iff r.tenant_id tenant,
  ),
)

-- What the tenant is given is the tenant's.
pub find_by_id-owned :
    (tenant id : Text) (table : List MatchEntity) (m : Match)
    → is_empty tenant ≡ false
    → find_by_id (some tenant) id table ≡ ok (some m)
    → m.tenant_id ≡ tenant
unfolding find_by_id get_tenant_id to_domain
find_by_id-owned tenant id table m filled h =
    elim (Option-cases (find (λ r. text_eq r.id id && text_eq r.tenant_id tenant) table)) [
      | inl missing ↦ ground arith
      | inr (r, found) ↦
          let (inside, fits) = find-Occurs _ table r found in
          ground (arith, text_eq_iff r.tenant_id tenant)
    ]

map-owned :
    (tenant : Text) (rows : List MatchEntity)
    → ((r : MatchEntity) → Occurs r rows → r.tenant_id ≡ tenant)
    → All (λ (m : Match). m.tenant_id ≡ tenant) (map to_domain rows)
unfolding to_domain
map-owned tenant [] h = tt
map-owned tenant (r ∷ rows) h = (h r (inl refl), map-owned tenant rows (λ s there. h s (inr there)))

pub find_all-owned :
    (tenant : Text) (table : List MatchEntity) (ms : List Match)
    → is_empty tenant ≡ false
    → find_all (some tenant) table ≡ ok ms
    → All (λ (m : Match). m.tenant_id ≡ tenant) ms
find_all-owned tenant table ms filled h =
    let (rows, found, sorted, exactly) = find_all-own tenant table filled in
    let same : map to_domain rows ≡ ms = ground arith in
    rw (← same) (map-owned tenant rows (λ r there. ((exactly r).0 there).1))

pub create-owned :
    (save : Save) (w : Writing) (tenant : Text) (details : MatchData)
    (table table' : List MatchEntity) (m : Match)
    → create save w (some tenant) details table ≡ ok (m, table')
    → m.tenant_id ≡ tenant
unfolding new_row to_domain
create-owned save w tenant details table table' m h =
    let (stored, same) = create-ok save w tenant details table table' m h in
    ap (λ (x : Match). x.tenant_id) same
