-- ===== src/Peers/Table.antt =====
-- The table of peers (src/database.rs): the rows that each query leaves. A query fails where the
-- database does not answer.
pub mod Queries
use rustdesk_server_nemo.Base.{
  ◌≡◌, Bool, true, false, not, ◌&&◌, ◌||◌, Option, none, some, List, [], ◌∷◌, map, Str, ℕ, str_eq,
  any, find, retain, if◌then◌else◌, Result, ok, err, codes,
}

-- `RegisteredPeer`, a row of the table; `user` and `created_at` are written by no query.
pub record Row : Type 0 where
  pub guid : Str
  pub id : Str
  pub uuid : Str
  pub pk : Str
  pub status : Option ℕ
  pub note : Option Str
  pub management_policy : Option Str
  pub info : Str

-- The table, and whether the next query is answered.
pub record Database : Type 0 where
  pub rows : List Row
  pub up : Bool

abbrev pub has_id : Str → Row → Bool
has_id id r = str_eq r.id id

abbrev pub has_guid : Str → Row → Bool
has_guid guid r = str_eq r.guid guid

-- What a query without an answer returns.
abbrev pub no_answer {ℓ} : {A : Type ℓ} → Result A
no_answer = err (codes "the database does not answer")

-- An assignment in each row that passes.
abbrev pub update_rows : (Row → Bool) → (Row → Row) → List Row → List Row
update_rows p f = map (λ r. if p r then f r else r)

-- `get_peer`, and `get_registered_peer`, which reads further columns of the same row.
unfoldable pub get_peer : Str → Database → Result (Option Row)
get_peer id db = if db.up then ok (find (has_id id) db.rows) else no_answer

-- The row that `insert_peer` writes.
abbrev pub new_row : Str → Str → Str → Str → Str → Row
new_row id uuid pk info guid = record {
  guid = guid;
  id = id;
  uuid = uuid;
  pk = pk;
  status = none;
  note = none;
  management_policy = none;
  info = info;
}

-- `insert_peer`, with its fresh guid: both indexes are unique.
unfoldable pub insert_peer : Str → Str → Str → Str → Str → Database → Database × Result Str
insert_peer id uuid pk info guid db =
    if not db.up || any (λ (r : Row). str_eq r.id id || str_eq r.guid guid) db.rows
    then (db, no_answer)
    else (record db { rows = new_row id uuid pk info guid ∷ db.rows }, ok guid)

-- `update_pk`: the row of the guid. Another row with the id violates its index.
unfoldable pub update_pk_row : Str → Str → Str → Str → Database → Database × Result (Unit {0})
update_pk_row guid id pk info db =
    if not db.up || any (λ (r : Row). str_eq r.id id && not (str_eq r.guid guid)) db.rows
    then (db, no_answer)
    else (
      record db {
        rows =
            update_rows (has_guid guid) (λ r. record r { id = id; pk = pk; info = info }) db.rows;
      },
      ok tt,
    )

-- `coalesce(?, note)`.
abbrev pub coalesce : Option Str → Option Str → Option Str
coalesce none old = old
coalesce (some new) old = some new

abbrev pub with_status : Option ℕ → Option Str → Row → Row
with_status status note r = record r { status = status; note = coalesce note r.note }

-- `set_peer_status`: whether a row was affected.
unfoldable pub set_status_row : Str → Option ℕ → Option Str → Database → Database × Result Bool
set_status_row id status note db =
    if db.up
    then (
      record db { rows = update_rows (has_id id) (with_status status note) db.rows },
      ok (any (has_id id) db.rows),
    )
    else (db, no_answer)

abbrev pub with_policy : Option Str → Row → Row
with_policy policy r = record r { management_policy = policy }

-- `set_peer_management_policy`.
unfoldable pub set_policy_row : Str → Option Str → Database → Database × Result Bool
set_policy_row id management_policy db =
    if db.up
    then (
      record db { rows = update_rows (has_id id) (with_policy management_policy) db.rows },
      ok (any (has_id id) db.rows),
    )
    else (db, no_answer)

-- `delete_registered_peer`.
unfoldable pub delete_row : Str → Database → Database × Result Bool
delete_row id db =
    if db.up
    then (
      record db { rows = retain (λ r. not (str_eq r.id id)) db.rows },
      ok (any (has_id id) db.rows),
    )
    else (db, no_answer)

-- The status that the table has for an id.
abbrev pub status_of : Str → List Row → Option ℕ
status_of id rows = elim (find (has_id id) rows) [ none ↦ none | some r ↦ r.status ]

-- Every guid has one row: it is the primary key.
abbrev pub IsKeyed : List Row → Type 0
IsKeyed [] = Unit {0}
IsKeyed (r ∷ rows) = (any (has_guid r.guid) rows ≡ false) × IsKeyed rows

-- A row of the guid has another id.
abbrev pub is_strange : Str → Str → List Row → Bool
is_strange guid id = any (λ r. str_eq r.guid guid && not (str_eq r.id id))
