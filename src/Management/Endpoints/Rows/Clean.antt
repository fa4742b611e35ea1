-- ===== src/Management/Endpoints/Rows/Clean.antt =====
-- An endpoint that passes has no separator of rows (src/nemo_management.rs, `normalize_direct_endpoint`).
use rustdesk_server_nemo.Base.{
  ℕ, zero, suc, ◌+◌, ◌/◌, ◌%◌, ◌≡◌, refl, sym, ap, inl, inr, false, ◌||◌, Option, none, some,
  some_inj, List, [], ◌∷◌, ◌++◌, any, Elem, All, Str, Dict, has_char, is_whitespace, is_empty, trim,
  byte_len, ltb, ◌==◌, arith, Bool-cases, Option-cases, subst,
}
use rustdesk_server_nemo.Management.Controller.{split_by, cons_head}
use rustdesk_server_nemo.Management.Endpoints.{
  max_endpoint_len, rsplit_once, port_of, digits, decimal_u16, printed, normalize_fields, is_comma,
  normalize_direct_endpoint, revalidated, row_of,
}

abbrev IsClean : Str → Type 0
IsClean s = has_char b';' s ≡ false

IsClean-append : (a b : Str) → IsClean a → IsClean b → IsClean (a ++ b)
unfolding any
IsClean-append [] b h k = k
IsClean-append (c ∷ a) b h k = ground (arith, IsClean-append a b)

comma-IsClean : (s : Str) → IsClean s → IsClean (b',' ∷ s)
unfolding any
comma-IsClean s h = h

colon-IsClean : (s : Str) → IsClean s → IsClean (b':' ∷ s)
unfolding any
colon-IsClean s h = h

digits-IsClean : (places n : ℕ) → IsClean (digits places n)
unfolding digits any
digits-IsClean zero n = refl
digits-IsClean (suc places) n = elim (Bool-cases (ltb n 10)) [
  | inl e ↦ rw e (ground arith)
  | inr e ↦ rw e (
      IsClean-append (digits places (n / 10)) ((b'0' + n % 10) ∷ [])
        (digits-IsClean places (n / 10)) (ground arith))
]

rsplit_once-IsClean : (c : ℕ) (s a b : Str) → rsplit_once c s ≡ some (a, b) → IsClean s → IsClean a
unfolding rsplit_once any
rsplit_once-IsClean c [] a b h k = absurd (cc)
rsplit_once-IsClean c (d ∷ s) a b h k = elim (Option-cases (rsplit_once c s)) [
  | inl e ↦ elim (Bool-cases (d == c)) [
    | inr f ↦ absurd (ground arith)
    | inl f ↦
        let start : [] ≡ a = ap (λ (x : Str × Str). x.0) (some_inj (rw (e, f) at h)) in
        subst (λ x. IsClean x) start refl
  ]
  | inr ((x, y), e) ↦
      let start : d ∷ x ≡ a = ap (λ (x : Str × Str). x.0) (some_inj (rw e at h)) in
      let before = rsplit_once-IsClean c s x y e (ground arith) in
      subst (λ x. IsClean x) start (ground (arith, before))
]

knock-IsClean :
    (knock_port : Option ℕ)
    → IsClean (elim knock_port [ none ↦ [] | some kp ↦ b',' ∷ decimal_u16 kp ])
unfolding any
knock-IsClean none = refl
knock-IsClean (some kp) = digits-IsClean 5 kp

printed-IsClean :
    (addr : Str) (knock_port : Option ℕ) (ep : Str)
    → printed addr knock_port ≡ some ep
    → IsClean addr
    → IsClean ep
unfolding printed
printed-IsClean addr knock_port ep h k = elim (Option-cases (rsplit_once b':' addr)) [
  | inl e ↦ absurd (ground arith)
  | inr ((host, port), e) ↦ elim (Option-cases (port_of port)) [
    | inl f ↦ absurd (ground arith)
    | inr (p, f) ↦ elim (Bool-cases (is_empty host)) [
      | inl g ↦ absurd (ground arith)
      | inr g ↦
          subst (λ x. IsClean x) (some_inj (rw (printed, e, f, g) at h))
            (IsClean-append host _ (rsplit_once-IsClean b':' addr host port e k) (
              colon-IsClean _
                (IsClean-append (decimal_u16 p) _ (digits-IsClean 5 p) (knock-IsClean knock_port))))
    ]
  ]
]

cons_head-All-IsClean :
    (c : ℕ) (ws : List Str) → (c == b';') ≡ false → All IsClean ws → All IsClean (cons_head c ws)
unfolding any
cons_head-All-IsClean c [] h k = (ground arith, tt)
cons_head-All-IsClean c (w ∷ ws) h (k, ks) = (ground arith, ks)

split_by-All-IsClean : (s : Str) → IsClean s → All IsClean (split_by is_comma s)
unfolding split_by any
split_by-All-IsClean [] h = (refl, tt)
split_by-All-IsClean (c ∷ s) h = elim (Bool-cases (is_comma c)) [
  | inl e ↦ rw e (refl, split_by-All-IsClean s (ground arith))
  | inr e ↦ rw e (
      cons_head-All-IsClean c (split_by is_comma s) (ground arith)
        (split_by-All-IsClean s (ground arith)))
]

normalize_fields-IsClean :
    (fields : List Str) (ep : Str)
    → normalize_fields fields ≡ some ep
    → All IsClean fields
    → IsClean ep
unfolding normalize_fields
normalize_fields-IsClean [] ep h k = absurd (cc)
normalize_fields-IsClean (addr ∷ []) ep h (k, _) = printed-IsClean addr none ep h k
normalize_fields-IsClean (addr ∷ p ∷ []) ep h (k, _) = elim (Option-cases (port_of p)) [
  | inl e ↦ absurd (ground arith)
  | inr (kp, e) ↦ printed-IsClean addr (some kp) ep (ground arith) k
]
normalize_fields-IsClean (addr ∷ p ∷ more ∷ fields) ep h k = absurd (cc)

normalize-IsClean : (text ep : Str) → normalize_direct_endpoint text ≡ some ep → IsClean ep
unfolding normalize_direct_endpoint
normalize-IsClean text ep h =
    elim (Bool-cases (is_empty (trim text) || ltb max_endpoint_len (byte_len (trim text)))) [
      | inl e ↦ absurd (ground arith)
      | inr e ↦ elim (Bool-cases (has_char b';' (trim text) || any is_whitespace (trim text))) [
        | inl f ↦ absurd (ground arith)
        | inr f ↦
            normalize_fields-IsClean (split_by is_comma (trim text)) ep (ground arith)
              (split_by-All-IsClean (trim text) (ground arith))
      ]
    ]

drops :
    (id ep : Str) (file : Dict Str)
    → normalize_direct_endpoint ep ≡ none
    → revalidated ((id, ep) ∷ file) ≡ revalidated file
unfolding revalidated
drops id ep file e = rw (revalidated, e) refl

keeps :
    (id ep normalized : Str) (file : Dict Str)
    → normalize_direct_endpoint ep ≡ some normalized
    → revalidated ((id, ep) ∷ file) ≡ (id, normalized) ∷ revalidated file
unfolding revalidated
keeps id ep normalized file e = rw (revalidated, e) refl

-- A row of an entry that was read from the file is clean if its id is.
pub revalidated-clean :
    (file : Dict Str) (e : Str × Str)
    → ((e : Str × Str) → Elem e file → has_char b';' e.0 ≡ false)
    → Elem e (revalidated file)
    → has_char b';' (row_of e) ≡ false
unfolding revalidated
revalidated-clean [] e ids at = absurd at
revalidated-clean ((id, ep) ∷ file) e ids at = elim (Option-cases (normalize_direct_endpoint ep)) [
  | inl dropped ↦
      revalidated-clean file e (λ d there. ids d (inr there))
        (subst (λ (rows : Dict Str). Elem e rows) (drops id ep file dropped) at)
  | inr (normalized, kept) ↦
      elim (subst (λ (rows : Dict Str). Elem e rows) (keeps id ep normalized file kept) at) [
        | inr later ↦ revalidated-clean file e (λ d there. ids d (inr there)) later
        | inl first ↦
            subst (λ d. has_char b';' (row_of d) ≡ false) (sym first)
              (IsClean-append id (b',' ∷ normalized) (ids (id, ep) (inl refl))
                (comma-IsClean normalized (normalize-IsClean ep normalized kept)))
      ]
]
