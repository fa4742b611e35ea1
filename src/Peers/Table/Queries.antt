-- ===== src/Peers/Table/Queries.antt =====
-- What the queries do to the ids, the guids and the statuses of the rows.
use rustdesk_server_nemo.Base.{
  ℕ, ◌≡◌, refl, ◌⊎◌, inl, inr, Bool, true, false, not, ◌&&◌, ◌||◌, Option, none, some, List, [],
  ◌∷◌, Str, str_eq, str_eq_iff, str_eq_refl, any, find, retain, arith, Bool-cases, if◌then◌else◌,
  Result, ok, err,
}
use rustdesk_server_nemo.Peers.Table.{
  Row, has_id, has_guid, update_rows, status_of, IsKeyed, is_strange,
}

-- An answer to a query for one row.
pub answer-cases :
    (r : Result (Option Row))
    → ((x : Row) × (r ≡ ok (some x))) ⊎ ((r ≡ ok none) ⊎ ((e : Str) × (r ≡ err e)))
answer-cases (ok none) = inr (inl refl)
answer-cases (ok (some x)) = inl (x, refl)
answer-cases (err e) = inr (inr (e, refl))

-- A write that leaves the guids leaves the primary key.
pub any-update_rows :
    (q p : Row → Bool) (f : Row → Row) (rows : List Row)
    → ((r : Row) → p r ≡ true → q (f r) ≡ q r)
    → any q (update_rows p f rows) ≡ any q rows
unfolding any
any-update_rows q p f [] keep = refl
any-update_rows q p f (r ∷ rows) keep = ground (arith, keep r, any-update_rows q p f rows keep)

pub any-retain-false :
    (q p : Row → Bool) (rows : List Row) → any q rows ≡ false → any q (retain p rows) ≡ false
unfolding any retain
any-retain-false q p [] h = refl
any-retain-false q p (r ∷ rows) h = ground (arith, any-retain-false q p rows)

pub any_and_false :
    (q p : Row → Bool) (rows : List Row) → any q rows ≡ false → any (λ r. q r && p r) rows ≡ false
unfolding any
any_and_false q p [] h = refl
any_and_false q p (r ∷ rows) h = ground (arith, any_and_false q p rows)

pub any_or_left :
    (p q : Row → Bool) (rows : List Row) → any (λ r. p r || q r) rows ≡ false → any p rows ≡ false
unfolding any
any_or_left p q [] h = refl
any_or_left p q (r ∷ rows) h = ground (arith, any_or_left p q rows)

pub any_or_right :
    (p q : Row → Bool) (rows : List Row) → any (λ r. p r || q r) rows ≡ false → any q rows ≡ false
unfolding any
any_or_right p q [] h = refl
any_or_right p q (r ∷ rows) h = ground (arith, any_or_right p q rows)

pub update_rows-IsKeyed :
    (p : Row → Bool) (f : Row → Row) (rows : List Row)
    → ((r : Row) → (f r).guid ≡ r.guid)
    → IsKeyed rows
    → IsKeyed (update_rows p f rows)
update_rows-IsKeyed p f [] keep k = tt
update_rows-IsKeyed p f (r ∷ rows) keep k = elim (Bool-cases (p r)) [
  | inl e ↦ rw (e, keep r) (rest, update_rows-IsKeyed p f rows keep k.1)
  | inr e ↦ rw e (rest, update_rows-IsKeyed p f rows keep k.1)
]
  where
    rest : any (has_guid r.guid) (update_rows p f rows) ≡ false
    rest = rw (any-update_rows (has_guid r.guid) p f rows (λ q _. rw (keep q))) k.0

pub retain-IsKeyed : (p : Row → Bool) (rows : List Row) → IsKeyed rows → IsKeyed (retain p rows)
unfolding retain
retain-IsKeyed p [] k = tt
retain-IsKeyed p (r ∷ rows) k = elim (Bool-cases (p r)) [
  | inl e ↦ rw e (any-retain-false (has_guid r.guid) p rows k.0, retain-IsKeyed p rows k.1)
  | inr e ↦ rw e (retain-IsKeyed p rows k.1)
]

any_of_found :
    (id : Str) (rows : List Row) (r : Row)
    → find (has_id id) rows ≡ some r
    → any (has_guid r.guid) rows ≡ true
unfolding any find
any_of_found id [] r h = absurd (cc)
any_of_found id (q ∷ rows) r h = ground (arith, any_of_found id rows r, str_eq_refl r.guid)

-- The row of an id is the only one of its guid.
pub found-not_strange :
    (id : Str) (rows : List Row) (r : Row)
    → IsKeyed rows
    → find (has_id id) rows ≡ some r
    → is_strange r.guid id rows ≡ false
unfolding any find
found-not_strange id [] r k h = refl
found-not_strange id (q ∷ rows) r k h = elim (Bool-cases (has_id id q)) [
  | inl e ↦
      let same : q ≡ r = ground arith in
      let none_left : is_strange r.guid id rows ≡ false =
        rw (← same) (any_and_false (has_guid q.guid) (λ s. not (str_eq s.id id)) rows k.0) in
      ground arith
  | inr e ↦
      let inside : find (has_id id) rows ≡ some r = ground arith in
      ground (
        arith,
        found-not_strange id rows r k.1 inside,
        any_of_found id rows r inside,
        str_eq_iff q.guid r.guid,
      )
]

-- A write in rows that already have the id and keep their status is not seen by a status.
pub status-update_guid :
    (j guid id : Str) (f : Row → Row) (rows : List Row)
    → ((r : Row) → (f r).id ≡ id)
    → ((r : Row) → (f r).status ≡ r.status)
    → is_strange guid id rows ≡ false
    → status_of j (update_rows (has_guid guid) f rows) ≡ status_of j rows
unfolding any find
status-update_guid j guid id f [] ids keep s = refl
status-update_guid j guid id f (r ∷ rows) ids keep s =
    ground (arith, ids r, keep r, str_eq_iff r.id id, status-update_guid j guid id f rows ids keep)

pub strange-update_guid :
    (g j guid id : Str) (f : Row → Row) (rows : List Row)
    → ((r : Row) → (f r).id ≡ id)
    → ((r : Row) → (f r).guid ≡ r.guid)
    → is_strange guid id rows ≡ false
    → is_strange g j (update_rows (has_guid guid) f rows) ≡ is_strange g j rows
unfolding any
strange-update_guid g j guid id f [] ids keep s = refl
strange-update_guid g j guid id f (r ∷ rows) ids keep s =
    ground
      (arith, ids r, keep r, str_eq_iff r.id id, strange-update_guid g j guid id f rows ids keep)

-- A write of a status is seen under its id, if the id has a row.
pub status-update_id :
    (j id : Str) (f : Row → Row) (status : Option ℕ) (rows : List Row)
    → ((r : Row) → (f r).id ≡ r.id)
    → ((r : Row) → (f r).status ≡ status)
    → status_of j (update_rows (has_id id) f rows)
      ≡ (if str_eq id j && any (has_id id) rows then status else status_of j rows)
unfolding any find
status-update_id j id f status [] ids set = ground arith
status-update_id j id f status (r ∷ rows) ids set = ground (
  arith,
  ids r,
  set r,
  str_eq_iff r.id id,
  str_eq_iff r.id j,
  str_eq_iff id j,
  status-update_id j id f status rows ids set,
)

pub status_of-absent :
    (id : Str) (rows : List Row) → any (has_id id) rows ≡ false → status_of id rows ≡ none
unfolding any find
status_of-absent id [] h = refl
status_of-absent id (r ∷ rows) h = ground (arith, status_of-absent id rows)

pub status-retain :
    (j id : Str) (rows : List Row)
    → status_of j (retain (λ r. not (str_eq r.id id)) rows)
      ≡ (if str_eq id j then none else status_of j rows)
unfolding retain find
status-retain j id [] = ground arith
status-retain j id (r ∷ rows) =
    ground (arith, str_eq_iff r.id id, str_eq_iff r.id j, str_eq_iff id j, status-retain j id rows)

-- A write that leaves the status leaves what is read of it.
pub status-update_other :
    (j : Str) (p : Row → Bool) (f : Row → Row) (rows : List Row)
    → ((r : Row) → (f r).id ≡ r.id)
    → ((r : Row) → (f r).status ≡ r.status)
    → status_of j (update_rows p f rows) ≡ status_of j rows
unfolding find
status-update_other j p f [] ids keep = refl
status-update_other j p f (r ∷ rows) ids keep =
    ground (arith, ids r, keep r, status-update_other j p f rows ids keep)
