-- ===== src/Management/Gates/SignedIn.antt =====
-- Who is signed in at the gate on the user, and what that one may reach (src/nemo_management.rs and
-- src/nemo_integration.rs).
use rustdesk_server_nemo.Base.{
  ℕ, ◌≡◌, ◌≢◌, ◌<◌, refl, ap, ◌⊎◌, inl, inr, ◌↔◌, true, false, ◌||◌, Option, none, some, [], ◌∷◌,
  Str, codes, lookup, trim, is_empty, str_eq, str_eq_iff, arith, some_inj, Bool-cases, Option-cases,
}
use rustdesk_server_nemo.Integration.Config.{World, Session, UserPermission}
use rustdesk_server_nemo.Integration.Names.{normalize_lookup_username}
use rustdesk_server_nemo.Integration.Settings.{user_is_enabled}
use rustdesk_server_nemo.Integration.Sessions.{effective_permission, session_for_token, is_live}
use rustdesk_server_nemo.Integration.Permissions.{user_allowed_target}
use rustdesk_server_nemo.Management.Controller.Identity.{Some, any_iff, is_empty_iff}
use rustdesk_server_nemo.Management.Gates.{
  user_of_token, key_differs, nemo_user_connection_rejection,
}

-- The session may be used on the key that the connection proved.
key_iff :
    (bound : Str) (authed : Option Str)
    → (key_differs bound authed ≡ false) ↔ ((bound ≡ []) ⊎ (authed ≡ some bound))
key_iff [] none = (λ _. inl refl, λ _. refl)
key_iff [] (some proved) = (λ _. inl refl, λ _. refl)
key_iff (c ∷ bound) none =
    (λ h. absurd (cc), λ h. elim h [ inl e ↦ absurd (cc) | inr e ↦ absurd (cc) ])
key_iff (c ∷ bound) (some proved) = (
  λ h. inr (ap some ((str_eq_iff proved (c ∷ bound)).0 (ground arith))),
  λ h. elim h [
    | inl e ↦ absurd (cc)
    | inr e ↦ ground (arith, (str_eq_iff proved (c ∷ bound)).1 (some_inj e))
  ],
)

target_iff :
    (target_id t : Str)
    → (str_eq t (codes "*") || str_eq t target_id ≡ true) ↔ ((t ≡ codes "*") ⊎ (t ≡ target_id))
target_iff target_id t = (
  λ h. elim (Bool-cases (str_eq t (codes "*"))) [
    | inl star ↦ inl ((str_eq_iff t (codes "*")).0 star)
    | inr other ↦ inr ((str_eq_iff t target_id).0 (ground arith))
  ],
  λ h. elim h [
    | inl star ↦ ground (arith, (str_eq_iff t (codes "*")).1 star)
    | inr same ↦ ground (arith, (str_eq_iff t target_id).1 same)
  ],
)

allowed_iff :
    (p : UserPermission) (target_id : Str)
    → (user_allowed_target p.is_admin p.allowed_targets target_id ≡ true)
      ↔ ((p.is_admin ≡ true) ⊎ Some (λ t. (t ≡ codes "*") ⊎ (t ≡ target_id)) p.allowed_targets)
unfolding user_allowed_target
allowed_iff p target_id = elim (Bool-cases p.is_admin) [
  | inl admin ↦ (λ _. inl admin, λ _. ground arith)
  | inr plain ↦ (
    λ h. inr ((any_iff _ _ (target_iff target_id) p.allowed_targets).0 (ground arith)),
    λ h. elim h [
      | inl admin ↦ absurd (cc)
      | inr found ↦ ground (arith, (any_iff _ _ (target_iff target_id) p.allowed_targets).1 found)
    ],
  )
]

module _ (to_lowercase : Str → Str) where
  -- The token is of a session that has not expired, of a user whom the permissions enable.
  pub record SignedIn (w : World) (token : Option Str) (now : ℕ) (s : Session) (p : UserPermission)
      : Type 0 where
    pub text : Str
    pub given : token ≡ some text
    pub named : trim text ≢ []
    pub session : lookup (trim text) w.sessions ≡ some s
    pub live : now < s.expires_at
    pub permitted :
        lookup (normalize_lookup_username to_lowercase s.username) w.config.permissions ≡ some p
    pub enabled : p.enabled ≡ true

  -- The user is an administrator, or is allowed every target or this one.
  abbrev pub MayReach : UserPermission → Str → Type 0
  MayReach p target_id =
      (p.is_admin ≡ true) ⊎ Some (λ t. (t ≡ codes "*") ⊎ (t ≡ target_id)) p.allowed_targets

  user_of-SignedIn :
      (token : Option Str) (now : ℕ) (w : World) (s : Session) (p : UserPermission)
      → SignedIn w token now s p
      → user_of_token to_lowercase token now w ≡ (w, some s)
  unfolding user_of_token session_for_token user_is_enabled
  user_of-SignedIn token now w s p h = rw h.given (elim (Bool-cases (is_empty (trim h.text))) [
    | inl gone ↦ absurd (h.named ((is_empty_iff (trim h.text)).0 gone))
    | inr full ↦ ground (arith, h.session, h.live, h.permitted, h.enabled)
  ])

  user_of-cases :
      (token : Option Str) (now : ℕ) (w : World)
      → ((s : Session) × (p : UserPermission) × SignedIn w token now s p)
        ⊎ (((user_of_token to_lowercase token now w).1 ≡ none)
            × ((user_of_token to_lowercase token now w).0.config ≡ w.config))
  unfolding user_of_token session_for_token user_is_enabled
  user_of-cases none now w = inr (refl, refl)
  user_of-cases (some text) now w = elim (Bool-cases (is_empty (trim text))) [
    | inl gone ↦ inr (ground arith, ground arith)
    | inr full ↦ elim (Option-cases (lookup (trim text) w.sessions)) [
      | inl e ↦ inr (ground arith, ground arith)
      | inr (s, e) ↦ elim (Bool-cases (is_live now s)) [
        | inr over ↦ inr (ground arith, ground arith)
        | inl live ↦
            elim (Option-cases
              (lookup (normalize_lookup_username to_lowercase s.username) w.config.permissions)) [
                | inl f ↦ inr (ground arith, ground arith)
                | inr (p, f) ↦ elim (Bool-cases p.enabled) [
                  | inr off ↦ inr (ground arith, ground arith)
                  | inl on ↦ inl (
                    s,
                    p,
                    record {
                      text = text;
                      given = refl;
                      named = λ gone. absurd (ground (arith, (is_empty_iff (trim text)).1 gone));
                      session = e;
                      live = ground arith;
                      permitted = f;
                      enabled = on;
                    },
                  )
                ]
              ]
      ]
    ]
  ]

  permission-SignedIn :
      (token : Option Str) (now : ℕ) (w : World) (s : Session) (p : UserPermission)
      → SignedIn w token now s p
      → effective_permission to_lowercase s.username w ≡ (p.is_admin, p.allowed_targets)
  unfolding effective_permission
  permission-SignedIn token now w s p h = ground (arith, h.permitted)

  -- The gate, when someone is signed in.
  user_gate_iff :
      (token authed : Option Str) (target_id : Str) (now : ℕ) (w : World) (s : Session)
      (p : UserPermission)
      → SignedIn w token now s p
      → ((nemo_user_connection_rejection to_lowercase token authed target_id now w).1 ≡ none)
        ↔ (((s.device_key_pub ≡ []) ⊎ (authed ≡ some s.device_key_pub)) × MayReach p target_id)
  unfolding nemo_user_connection_rejection
  user_gate_iff token authed target_id now w s p h = (
    λ passes. (
      (key_iff s.device_key_pub authed).0 (ground (arith, who, may_do)),
      (allowed_iff p target_id).0 (ground (arith, who, may_do)),
    ),
    λ (bound, may). ground (
      arith,
      who,
      may_do,
      (key_iff s.device_key_pub authed).1 bound,
      (allowed_iff p target_id).1 may,
    ),
  )
    where
      who : user_of_token to_lowercase token now w ≡ (w, some s)
      who = user_of-SignedIn token now w s p h

      may_do : effective_permission to_lowercase s.username w ≡ (p.is_admin, p.allowed_targets)
      may_do = permission-SignedIn token now w s p h

  nobody_iff :
      (token authed : Option Str) (target_id : Str) (now : ℕ) (w : World)
      → (user_of_token to_lowercase token now w).1 ≡ none
      → (user_of_token to_lowercase token now w).0.config ≡ w.config
      → ((nemo_user_connection_rejection to_lowercase token authed target_id now w).1 ≡ none) ↔ (
          ((s : Session) × (p : UserPermission) × SignedIn w token now s p
            × ((s.device_key_pub ≡ []) ⊎ (authed ≡ some s.device_key_pub))
            × MayReach p target_id)
          ⊎ ((¬ ((s : Session) × (p : UserPermission) × SignedIn w token now s p))
              × (w.config.require_login ≡ false)))
  unfolding nemo_user_connection_rejection
  nobody_iff token authed target_id now w none_found same = (
    λ passes. inr (λ (s, p, h). nobody s p h, ground (arith, ap (λ c. c.require_login) same)),
    λ how. elim how [
      | inl (s, p, h, _, _) ↦ absurd (nobody s p h)
      | inr (_, free) ↦ ground (arith, ap (λ c. c.require_login) same)
    ],
  )
    where
      nobody : (s : Session) (p : UserPermission) → SignedIn w token now s p → ⊥
      nobody s p h = absurd (cc (ap (λ r. r.1) (user_of-SignedIn token now w s p h), none_found))

  -- The gate on the user passes exactly when the token is of a session that has not expired, of a user
  -- who is enabled, the session is bound to no device key or to the one that the connection proved, and
  -- the user is an administrator or is allowed the target or every target; or when no such user is
  -- signed in, and no one has to be.
  pub user_rejection-none_iff :
      (token authed : Option Str) (target_id : Str) (now : ℕ) (w : World)
      → ((nemo_user_connection_rejection to_lowercase token authed target_id now w).1 ≡ none) ↔ (
          ((s : Session) × (p : UserPermission) × SignedIn w token now s p
            × ((s.device_key_pub ≡ []) ⊎ (authed ≡ some s.device_key_pub))
            × MayReach p target_id)
          ⊎ ((¬ ((s : Session) × (p : UserPermission) × SignedIn w token now s p))
              × (w.config.require_login ≡ false)))
  user_rejection-none_iff token authed target_id now w = elim (user_of-cases token now w) [
    | inl (s, p, h) ↦ (
      λ passes.
          let (bound, may) = (user_gate_iff token authed target_id now w s p h).0 passes in
          inl (s, p, h, bound, may),
      λ how. elim how [
        | inl (t, q, k, bound, may) ↦
            (user_gate_iff token authed target_id now w t q k).1 (bound, may)
        | inr (nobody, _) ↦ absurd (nobody (s, p, h))
      ],
    )
    | inr (none_found, same) ↦ nobody_iff token authed target_id now w none_found same
  ]
