-- ===== src/Management/Tests/Endpoints.antt =====
-- A file of endpoints and what a controller is told of it (src/nemo_management.rs).
use rustdesk_server_nemo.Base.{
  ◌≡◌, refl, sym, inl, inr, ◌↔◌, false, none, some, [], ◌∷◌, Elem, any, retain, Str, Dict, codes,
  str_eq, has_char, trim, is_whitespace, byte_len, str_ltb, ok, lookup, insert, subst,
}
use rustdesk_server_nemo.Management.Proof.{parse_u64, digits_from}
use rustdesk_server_nemo.Management.Controller.{split_by, target_allowed_by_controller_policy}
use rustdesk_server_nemo.Management.Endpoints.{
  rsplit_once, port_of, digits, normalize_direct_endpoint, is_semicolon, revalidated,
  set_peer_endpoint, evict_one_if_full, insert_sorted, sort_rows, join_rows, direct_endpoint_map,
}
use rustdesk_server_nemo.Management.Endpoints.Rows.{IsTold, direct_endpoint_map-rows}

abbrev file : Dict Str
file =
    (codes "200", codes "203.0.113.20:21118")
    ∷ (codes "100", codes " 203.0.113.10:021118,62201 ")
    ∷ []

file_ids : (e : Str × Str) → Elem e file → has_char b';' e.0 ≡ false
unfolding any
file_ids e (inl first) = subst (λ (x : Str × Str). has_char b';' x.0 ≡ false) (sym first) refl
file_ids e (inr (inl second)) =
    subst (λ (x : Str × Str). has_char b';' x.0 ≡ false) (sym second) refl
file_ids e (inr (inr none_left)) = absurd none_left

direct_endpoint_map-rows_example :
    let row = codes "100,203.0.113.10:21118,62201" in
    let blocked = codes "200" ∷ [] in
    Elem row (split_by is_semicolon (direct_endpoint_map blocked none (revalidated file)))
    ↔ IsTold blocked none (revalidated file) row
direct_endpoint_map-rows_example =
    direct_endpoint_map-rows (codes "200" ∷ []) none file (codes "100,203.0.113.10:21118,62201")
      file_ids refl

endpoint_run :
    normalize_direct_endpoint (codes " [2001:db8::1]:021118,62201 ")
    ≡ some (codes "[2001:db8::1]:21118,62201")
unfolding normalize_direct_endpoint split_by rsplit_once port_of parse_u64 digits_from digits any
    is_whitespace trim byte_len
endpoint_run = refl

told_run :
    direct_endpoint_map [] none (revalidated file)
    ≡ codes "100,203.0.113.10:21118,62201;200,203.0.113.20:21118"
unfolding direct_endpoint_map revalidated normalize_direct_endpoint split_by rsplit_once port_of
    parse_u64 digits_from digits any is_whitespace trim byte_len sort_rows insert_sorted join_rows
    retain str_ltb target_allowed_by_controller_policy str_eq
told_run = refl

-- An id is not looked at, so an entry of the file can carry the endpoint of a blocked peer.
forged_run :
    direct_endpoint_map
      (codes "200" ∷ [])
      none
      (revalidated ((codes "1,203.0.113.1:1;200", codes "203.0.113.20:21118") ∷ []))
    ≡ codes "1,203.0.113.1:1;200,203.0.113.20:21118"
unfolding direct_endpoint_map revalidated normalize_direct_endpoint split_by rsplit_once port_of
    parse_u64 digits_from digits any is_whitespace trim byte_len sort_rows insert_sorted join_rows
    retain str_ltb target_allowed_by_controller_policy str_eq
forged_run = refl

set_run :
    set_peer_endpoint none (codes " 300 ") (some (codes "host:7")) []
    ≡ ((codes "300", codes "host:7") ∷ [], ok (codes "host:7"))
unfolding set_peer_endpoint evict_one_if_full normalize_direct_endpoint split_by rsplit_once port_of
    parse_u64 digits_from digits any is_whitespace trim byte_len insert lookup
set_run = refl
