-- ===== src/Tenancy/Policy.antt =====
-- Row-level security: the policies of
-- src/shared/infrastructure/database/migrations/1789123456789-MasterCleanSchema.ts, as they bind a
-- role that may not bypass them.
use bet_advise.Base.{
  ◌≡◌, refl, Bool, true, false, Option, none, some, List, [], ◌∷◌, filter, if◌then◌else◌,
}
use bet_advise.Base.Text.{Text, codes, text_eq, member}
use bet_advise.Tenancy.{get_tenant_id}
use bet_advise.Tenancy.Subscriber.{active_tenant, in_force, after_transaction_start}

-- `tablesToRLS`
abbrev pub tables_to_rls : List Text
tables_to_rls =
    codes "matches"
    ∷ codes "providers"
    ∷ codes "odds"
    ∷ codes "models"
    ∷ codes "analysis_runs"
    ∷ codes "advice"
    ∷ codes "coupon_drafts"
    ∷ codes "audit_logs"
    ∷ codes "outbox_events"
    ∷ codes "inbox_messages"
    ∷ []

-- `tenant_id = current_setting('app.current_tenant_id', true)`: a setting that is missing is NULL,
-- and the comparison is not true.
unfoldable pub permits : Option Text → Text → Bool
permits none tenant_id = false
permits (some setting) tenant_id = text_eq tenant_id setting

-- The rows that `USING` leaves of a table.
unfoldable pub visible : {Row : Type 0} → Text → (Row → Text) → Option Text → List Row → List Row
unfolding permits
visible table tenant_of setting rows =
    if member table tables_to_rls then filter (λ r. permits setting (tenant_of r)) rows else rows

-- `WITH CHECK` on a row that is written.
unfoldable pub checked_write :
    {Row A : Type 0} → Text → (Row → Text) → Option Text → (Row → A → Option A) → Row → A → Option A
unfolding permits
checked_write table tenant_of setting save row rows =
    if member table tables_to_rls
    then if permits setting (tenant_of row) then save row rows else none
    else save row rows

filter-nothing : {A : Type 0} (xs : List A) → filter (λ x. false) xs ≡ []
filter-nothing [] = refl
filter-nothing (x ∷ xs) = filter-nothing xs

-- Without a setting no row is visible.
pub visible-none :
    {Row : Type 0} (table : Text) (tenant_of : Row → Text) (rows : List Row)
    → member table tables_to_rls ≡ true
    → visible table tenant_of none rows ≡ []
unfolding visible permits
visible-none table tenant_of rows policed = rw policed (filter-nothing rows)

-- Outside every tenant context the subscriber sets nothing.
pub after_transaction_start-outside : after_transaction_start (some none) ≡ none
unfolding after_transaction_start active_tenant get_tenant_id in_force
after_transaction_start-outside = refl
