-- ===== src/Tests/Storage.antt =====
-- Matches that are stored, found again and listed.
use bet_advise.Base.{
  ◌≡◌, refl, ◌↔◌, true, false, none, some, List, [], ◌∷◌, ◌++◌, map, Occurs, if◌then◌else◌, arith,
}
use bet_advise.Base.Exec.{ok}
use bet_advise.Base.Text.{codes}
use bet_advise.Tenancy.{get_tenant_id}
use bet_advise.Audit.{Writing}
use bet_advise.Matches.{scheduled}
use bet_advise.Matches.Storage.{
  MatchEntity, MatchData, to_domain, find_by_id, find_all, Save, new_row, create,
}
use bet_advise.Matches.Storage.Laws.{
  has_id, IsInserting, create-find_by_id, IsChronological, find_all-own,
}
use bet_advise.Matches.Handlers.{CreateMatchCommand, World}

abbrev pub writing : Writing
writing = record { id = codes "m1"; now = 100; fails = false }

-- A `save` that inserts.
abbrev pub insert : Save
insert r table = if has_id r.id table then none else some (table ++ r ∷ [])

insert-IsInserting : IsInserting insert
insert-IsInserting = record { inserts = λ r table table' new h. ground arith }

abbrev derby : MatchData
derby = record {
  home_team = codes "Arsenal";
  away_team = codes "Chelsea";
  kickoff_at = 900;
  external_id = some (codes "x1");
  sport = none;
  competition = none;
  participants = none;
}

abbrev pub row : MatchEntity
row = record {
  id = codes "m1";
  tenant_id = codes "t1";
  external_id = some (codes "x1");
  home_team = codes "Arsenal";
  away_team = codes "Chelsea";
  sport = codes "soccer";
  competition = codes "default-league";
  participants = some [];
  scheduled_start = 900;
  status = scheduled;
  created_at = 100;
  updated_at = 100;
  version = 1;
}

derby_stored : create insert writing (some (codes "t1")) derby [] ≡ ok (to_domain row, row ∷ [])
unfolding create new_row to_domain get_tenant_id
derby_stored = refl

create-find_by_id_example :
    ((to_domain row).tenant_id ≡ codes "t1")
    × (find_by_id (some (codes "t1")) (to_domain row).id (row ∷ []) ≡ ok (some (to_domain row)))
    × (find_by_id (some (codes "t2")) (to_domain row).id (row ∷ []) ≡ ok none)
create-find_by_id_example =
    create-find_by_id insert writing (codes "t1") (codes "t2") derby [] (row ∷ []) (to_domain row)
      insert-IsInserting refl refl refl (λ e. ground arith) derby_stored

abbrev earlier : MatchEntity
earlier = record row { id = codes "m2"; scheduled_start = 800 }

abbrev pub foreign : MatchEntity
foreign = record row { id = codes "m3"; tenant_id = codes "t2" }

find_all-own_example :
    (rows : List MatchEntity) × (find_all (some (codes "t1")) (row ∷ foreign ∷ earlier ∷ [])
      ≡ ok (map to_domain rows))
    × IsChronological rows
    × ((r : MatchEntity)
        → Occurs r rows ↔ (Occurs r (row ∷ foreign ∷ earlier ∷ []) × (r.tenant_id ≡ codes "t1")))
find_all-own_example = find_all-own (codes "t1") (row ∷ foreign ∷ earlier ∷ []) refl

abbrev command : CreateMatchCommand
command = record {
  home_team = codes "Arsenal";
  away_team = codes "Chelsea";
  kickoff_at = 900;
  external_id = some (codes "x1");
}

abbrev pub empty : World
empty = record { matches = []; audit_logs = [] }

abbrev refused : Writing
refused = record { id = codes "l1"; now = 101; fails = true }
