-- ===== src/Management/Endpoints.antt =====
-- The endpoints that a controller may dial without a broker (src/nemo_management.rs,
-- `normalize_direct_endpoint`, `set_peer_endpoint` and `direct_endpoint_map`). The map is an association
-- list; which entry `keys().next()` gives is an argument.
pub mod Rows
use rustdesk_server_nemo.Base.{
  ℕ, zero, suc, ◌+◌, ◌/◌, ◌%◌, Bool, true, false, not, ◌&&◌, ◌||◌, Option, none, some, List, [],
  ◌∷◌, ◌++◌, map, length, retain, any, Str, Dict, codes, str_eq, str_mem, str_ltb, has_char,
  is_whitespace, is_empty, trim, byte_len, lookup, insert, remove, contains_key, ltb, leb, ◌==◌,
  if◌then◌else◌, Result, ok, err,
}
use rustdesk_server_nemo.Management.Proof.{parse_u64}
use rustdesk_server_nemo.Management.Controller.{split_by, target_allowed_by_controller_policy}

-- `MAX_ENDPOINT_LEN` and `MAX_PEER_LABELS`.
abbrev pub max_endpoint_len : ℕ
max_endpoint_len = 128

abbrev pub max_peer_labels : ℕ
max_peer_labels = 50000

-- `str::rsplit_once(char)`: around the last occurrence.
unfoldable pub rsplit_once : ℕ → Str → Option (Str × Str)
rsplit_once c [] = none
rsplit_once c (d ∷ s) = elim (rsplit_once c s) [
  | some (a, b) ↦ some (d ∷ a, b)
  | none ↦ if d == c then some ([], s) else none
]

-- `parse::<u16>()` of a port that is not zero.
unfoldable pub port_of : Str → Option ℕ
port_of s = elim (parse_u64 s) [
  | none ↦ none
  | some n ↦ if leb 1 n && leb n 65535 then some n else none
]

-- A number in print, on as many digits as it has up to a bound: a u16 has at most five.
unfoldable pub digits : ℕ → ℕ → Str
digits zero n = []
digits (suc places) n =
    let before = digits places (n / 10) in
    (if ltb n 10 then [] else before) ++ ((b'0' + n % 10) ∷ [])

abbrev pub decimal_u16 : ℕ → Str
decimal_u16 n = digits 5 n

-- The address with its ports, in print.
unfoldable pub printed : Str → Option ℕ → Option Str
unfolding digits
printed addr knock_port = elim (rsplit_once b':' addr) [
  | none ↦ none
  | some (host, port) ↦ elim (port_of port) [
    | none ↦ none
    | some p ↦
        if is_empty host
        then none
        else some (
            host
            ++ (b':'
                ∷ (decimal_u16 p
                    ++ elim knock_port [ none ↦ [] | some kp ↦ b',' ∷ decimal_u16 kp ])))
  ]
]

-- `normalize_direct_endpoint` on the fields between the commas.
unfoldable pub normalize_fields : List Str → Option Str
unfolding printed
normalize_fields [] = none
normalize_fields (addr ∷ []) = printed addr none
normalize_fields (addr ∷ p ∷ []) = elim (port_of p) [
  | none ↦ none
  | some kp ↦ printed addr (some kp)
]
normalize_fields (addr ∷ p ∷ more ∷ fields) = none

abbrev pub is_comma : ℕ → Bool
is_comma c = c == b','

abbrev pub is_semicolon : ℕ → Bool
is_semicolon c = c == b';'

-- `normalize_direct_endpoint`.
unfoldable pub normalize_direct_endpoint : Str → Option Str
unfolding normalize_fields
normalize_direct_endpoint text =
    let raw = trim text in
    if is_empty raw || ltb max_endpoint_len (byte_len raw)
    then none
    else if has_char b';' raw || any is_whitespace raw
    then none
    else normalize_fields (split_by is_comma raw)

-- `load_peer_endpoints` on the map of the file: what does not pass again is dropped.
unfoldable pub revalidated : Dict Str → Dict Str
unfolding normalize_direct_endpoint
revalidated [] = []
revalidated ((id, ep) ∷ endpoints) =
    let rest = revalidated endpoints in
    elim (normalize_direct_endpoint ep) [ none ↦ rest | some normalized ↦ (id, normalized) ∷ rest ]

-- `evict_one_if_full`, with the key that the map gives first.
unfoldable pub evict_one_if_full : Option Str → Str → Dict Str → Dict Str
evict_one_if_full first id labels =
    if leb max_peer_labels (length labels) && not (contains_key id labels)
    then (elim first [ none ↦ labels | some victim ↦ remove victim labels ])
    else labels

-- The value of `set_peer_endpoint` that is not empty.
abbrev pub given : Option Str → Option Str
given none = none
given (some e) = if is_empty (trim e) then none else some (trim e)

-- `set_peer_endpoint` before the map is saved.
unfoldable pub set_peer_endpoint : Option Str → Str → Option Str → Dict Str → Dict Str × Result Str
unfolding normalize_direct_endpoint evict_one_if_full
set_peer_endpoint first raw_id endpoint endpoints =
    let id = trim raw_id in
    if is_empty id then (endpoints, err (codes "peer id is required")) else elim (given endpoint) [
      | none ↦ (remove id endpoints, ok [])
      | some raw ↦ elim (normalize_direct_endpoint raw) [
        | none ↦ (endpoints, err (codes "not a valid direct endpoint"))
        | some ep ↦ (insert id ep (evict_one_if_full first id endpoints), ok ep)
      ]
    ]

-- `sort` on texts.
unfoldable pub insert_sorted : Str → List Str → List Str
insert_sorted row [] = row ∷ []
insert_sorted row (r ∷ rows) =
    let rest = insert_sorted row rows in if str_ltb r row then r ∷ rest else row ∷ r ∷ rows

unfoldable pub sort_rows : List Str → List Str
unfolding insert_sorted
sort_rows [] = []
sort_rows (row ∷ rows) = insert_sorted row (sort_rows rows)

-- `join(";")`.
unfoldable pub join_rows : List Str → Str
join_rows [] = []
join_rows (row ∷ []) = row
join_rows (row ∷ r ∷ rows) = row ++ (b';' ∷ join_rows (r ∷ rows))

abbrev pub row_of : Str × Str → Str
row_of (id, endpoint) = id ++ (b',' ∷ endpoint)

-- The controller may know the endpoint.
abbrev pub is_told : List Str → Option Str → Str × Str → Bool
is_told blocked targets (id, _) =
    not (str_mem id blocked) && target_allowed_by_controller_policy targets id

-- `direct_endpoint_map`.
unfoldable pub direct_endpoint_map : List Str → Option Str → Dict Str → Str
unfolding join_rows sort_rows
direct_endpoint_map blocked targets endpoints =
    join_rows (sort_rows (map row_of (retain (is_told blocked targets) endpoints)))
