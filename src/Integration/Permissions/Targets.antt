-- ===== src/Integration/Permissions/Targets.antt =====
-- `normalize_targets` tidies a list of targets and keeps the set that it names.
use rustdesk_server_nemo.Base.{
  ◌≤◌, ◌≡◌, refl, ◌∙◌, inl, inr, Bool, true, false, not, ◌&&◌, ◌||◌, List, [], ◌∷◌, ◌++◌, any,
  count, All, All-append, Str, str_eq, str_eq_iff, str_mem, is_empty, trim, arith, Bool-cases,
  count-append_one,
}
use rustdesk_server_nemo.Base.Text.Trim.{trim-trim}
use rustdesk_server_nemo.Integration.Permissions.{normalize_targets_from, normalize_targets}

-- A target that is trimmed and not empty.
abbrev pub IsTidy : Str → Type 0
IsTidy t = (trim t ≡ t) × (is_empty t ≡ false)

-- The list names this target.
abbrev pub names_target : Str → Str → Bool
names_target u raw = not (is_empty (trim raw)) && str_eq (trim raw) u

any-append : {A : Type 0} (p : A → Bool) (xs ys : List A) → any p (xs ++ ys) ≡ any p xs || any p ys
unfolding any
any-append p [] ys = refl
any-append p (x ∷ xs) ys = ground (arith, any-append p xs ys)

count_of_any-false : {A : Type 0} (p : A → Bool) (xs : List A) → any p xs ≡ false → count p xs ≡ 0
unfolding any count
count_of_any-false p [] h = refl
count_of_any-false p (x ∷ xs) h = ground (arith, count_of_any-false p xs)

mem_transport :
    (a u : Str) (out : List Str) → str_mem a out ≡ true → str_eq a u ≡ true → str_mem u out ≡ true
mem_transport a u out h e = rw (← (str_eq_iff a u).0 e) h

-- The tidied list has the targets of the old one, trimmed and without the empty ones.
targets_from-mem :
    (u : Str) (ts out : List Str)
    → str_mem u (normalize_targets_from ts out) ≡ str_mem u out || any (names_target u) ts
unfolding normalize_targets_from any
targets_from-mem u [] out = ground arith
targets_from-mem u (t ∷ ts) out = elim (Bool-cases (is_empty (trim t))) [
  | inl e ↦ rw (e, targets_from-mem u ts out)
  | inr e ↦ elim (Bool-cases (str_mem (trim t) out)) [
    | inl old ↦
        rw (e, old, targets_from-mem u ts out) (ground (arith, mem_transport (trim t) u out old))
    | inr fresh ↦
        rw (e, fresh, targets_from-mem u ts (out ++ (trim t ∷ [])))
          (ground (arith, any-append (λ b. str_eq b u) out (trim t ∷ [])))
  ]
]

-- A list without repetition, of targets that are trimmed and not empty.
pub record IsTidyList (ts : List Str) : Type 0 where
  pub each : All IsTidy ts
  pub distinct : (u : Str) → count (λ t. str_eq t u) ts ≤ 1

push_distinct :
    (t : Str) (out : List Str)
    → str_mem t out ≡ false
    → (u : Str) → count (λ x. str_eq x u) out ≤ 1
    → count (λ x. str_eq x u) (out ++ (t ∷ [])) ≤ 1
push_distinct t out fresh u h = elim (Bool-cases (str_eq t u)) [
  | inl same ↦
      let here : t ≡ u = (str_eq_iff t u).0 same in
      let none_yet : count (λ x. str_eq x u) out ≡ 0 =
        count_of_any-false (λ x. str_eq x u) out (rw (← here) fresh) in
      rw (count-append_one (λ x. str_eq x u) out t, same) (omega arith)
  | inr other ↦ rw (count-append_one (λ x. str_eq x u) out t, other) (omega arith)
]

nil_distinct : (u : Str) → count (λ x. str_eq x u) [] ≤ 1
unfolding count
nil_distinct u = omega arith

mem_nil :
    (u : Str) (ts : List Str) → str_mem u [] || any (names_target u) ts ≡ any (names_target u) ts
unfolding any
mem_nil u ts = refl

targets_from-IsTidyList :
    (ts : List Str) {out : List Str} → IsTidyList out → IsTidyList (normalize_targets_from ts out)
unfolding normalize_targets_from
targets_from-IsTidyList [] h = h
targets_from-IsTidyList (t ∷ ts) {out} h = elim (Bool-cases (is_empty (trim t))) [
  | inl e ↦ rw e (targets_from-IsTidyList ts h)
  | inr e ↦ rw e (elim (Bool-cases (str_mem (trim t) out)) [
    | inl old ↦ rw old (targets_from-IsTidyList ts h)
    | inr fresh ↦ rw fresh (
        targets_from-IsTidyList ts (record {
          each = All-append IsTidy out (trim t ∷ []) h.each ((trim-trim t, e), tt);
          distinct = λ u. push_distinct (trim t) out fresh u (h.distinct u);
        }))
  ])
]

-- The stored targets are trimmed, not empty and without repetition, and they are exactly the targets
-- that the given list names, up to whitespace at their ends.
pub normalize_targets-IsTidyList :
    (ts : List Str) (u : Str)
    → IsTidyList (normalize_targets ts)
      × (str_mem u (normalize_targets ts) ≡ any (names_target u) ts)
unfolding normalize_targets
normalize_targets-IsTidyList ts u = (
  targets_from-IsTidyList ts (record { each = tt; distinct = nil_distinct }),
  targets_from-mem u ts [] ∙ mem_nil u ts,
)
