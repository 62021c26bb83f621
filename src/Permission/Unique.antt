-- ===== src/Permission/Unique.antt =====
-- The unique constraints (action, subject) and (role, permissionId) under the methods of
-- backend/src/modules/permission/permission.service.ts, and what the bulk methods achieve.
use bravi_ai.Permission.Roles.{is_grant, Conditions, bulk_assign, sort_out, grant_if, grantable}
use bravi_ai.Data.{RolePermission, World, Permission}
use bravi_ai.Permission.Service.{
  provision, permission_by, create_unless, is_pair, pair_exists, Outcome, add_outcome,
}
use bravi_ai.Prelude.{
  List, find_first, delete_where, String, ℕ, Bool, ◌∷◌, ◌≡◌, All, none, Bool-cases, is_some, arith,
  length, [], inl, true, Option-cases, eq_iff, ◌+◌, refl, inr, false, ◌∙◌, suc, ==_refl, All-map,
}

abbrev pub DistinctPairs : List Permission → Type 0
DistinctPairs [] = Unit {0}
DistinctPairs (p ∷ ps) = (find_first (is_pair p.action p.subject) ps ≡ none) × DistinctPairs ps

abbrev pub DistinctGrants : List RolePermission → Type 0
DistinctGrants [] = Unit {0}
DistinctGrants (r ∷ rs) =
    (find_first (is_grant r.role r.permission_id) rs ≡ none) × DistinctGrants rs

module _ {ℓ} {A : Type ℓ} where
  pub find_none-delete :
      (p q : A → Bool) (rows : List A)
      → find_first q rows ≡ none
      → find_first q (delete_where p rows) ≡ none
  unfolding find_first delete_where
  find_none-delete p q [] h = refl
  find_none-delete p q (a ∷ rows) h = ground (arith, find_none-delete p q rows)

delete-DistinctPairs :
    (p : Permission → Bool) (ps : List Permission)
    → DistinctPairs ps
    → DistinctPairs (delete_where p ps)
unfolding delete_where
delete-DistinctPairs p [] d = tt
delete-DistinctPairs p (a ∷ ps) d = elim (Bool-cases (p a)) [
  | inl t ↦ rw t (delete-DistinctPairs p ps d.1)
  | inr t ↦
      rw t (find_none-delete p (is_pair a.action a.subject) ps d.0, delete-DistinctPairs p ps d.1)
]

delete-DistinctGrants :
    (p : RolePermission → Bool) (rs : List RolePermission)
    → DistinctGrants rs
    → DistinctGrants (delete_where p rs)
unfolding delete_where
delete-DistinctGrants p [] d = tt
delete-DistinctGrants p (a ∷ rs) d = elim (Bool-cases (p a)) [
  | inl t ↦ rw t (delete-DistinctGrants p rs d.1)
  | inr t ↦
      rw t (
        find_none-delete p (is_grant a.role a.permission_id) rs d.0,
        delete-DistinctGrants p rs d.1,
      )
]

-- The pair is there, under whatever identifier.
abbrev pub HasPair : String → String → List Permission → Type 0
HasPair action subject ps = is_some (find_first (is_pair action subject) ps) ≡ true

create_unless-Distinct :
    (id : ℕ) (subject action : String) (s : World)
    → DistinctPairs s.permissions
    → DistinctPairs (create_unless id subject action (pair_exists action subject s) s).permissions
create_unless-Distinct id subject action s d =
    elim (Option-cases (find_first (is_pair action subject) s.permissions)) [
      | inl p ↦ rw p (p, d)
      | inr (q, p) ↦ rw p d
    ]

create_unless-HasPair :
    (id : ℕ) (subject action : String) (s : World)
    → HasPair action subject
        (create_unless id subject action (pair_exists action subject s) s).permissions
unfolding find_first
create_unless-HasPair id subject action s =
    ground (arith, eq_iff action action, eq_iff subject subject)

HasPair-create_unless :
    (id : ℕ) (subject action a b : String) (old : Bool) (s : World)
    → HasPair a b s.permissions
    → HasPair a b (create_unless id subject action old s).permissions
unfolding find_first
HasPair-create_unless id subject action a b true s h = h
HasPair-create_unless id subject action a b false s h = ground arith

HasPair-provision :
    (id : ℕ) (subject : String) (actions : List String) (a b : String) (s : World)
    → HasPair a b s.permissions
    → HasPair a b (provision id subject actions s).1.permissions
unfolding provision
HasPair-provision id subject [] a b s h = h
HasPair-provision id subject (action ∷ actions) a b s h =
    let old = pair_exists action subject s in
    HasPair-provision (id + 1) subject actions a b (create_unless id subject action old s)
      (HasPair-create_unless id subject action a b old s h)

add_outcome-count :
    (id : ℕ) (subject action : String) (old : Bool) (r : Outcome)
    → length (add_outcome id subject action old r).0
        + length (add_outcome id subject action old r).1
      ≡ suc (length r.0 + length r.1)
add_outcome-count id subject action true r = omega arith
add_outcome-count id subject action false r = omega arith

add_outcome-size :
    (id : ℕ) (subject action : String) (old : Bool) (r : Outcome) (s : World)
    → length r.0 + length (create_unless id subject action old s).permissions
      ≡ length (add_outcome id subject action old r).0 + length s.permissions
add_outcome-size id subject action true r s = omega arith
add_outcome-size id subject action false r s = omega arith

-- The bundle's loop keeps the pairs of action and subject distinct and ends with every action present
-- for the subject; each action is counted once, as created or as skipped, and the table grows by the
-- number created.
provision_complete :
    (id : ℕ) (subject : String) (actions : List String) (s : World)
    → DistinctPairs s.permissions
    → let (r, t) = provision id subject actions s in
      DistinctPairs t.permissions
      × All (λ action. HasPair action subject t.permissions) actions
      × (length r.0 + length r.1 ≡ length actions)
      × (length t.permissions ≡ length r.0 + length s.permissions)
unfolding provision
provision_complete id subject [] s d = (d, tt, refl, omega arith)
provision_complete id subject (action ∷ actions) s d =
    let old = pair_exists action subject s in
    let u = create_unless id subject action old s in
    let (dist, all, count, size) =
      provision_complete (id + 1) subject actions u
        (create_unless-Distinct id subject action s d) in
    (
      dist,
      (
        HasPair-provision (id + 1) subject actions action subject u
            (create_unless-HasPair id subject action s),
        all,
      ),
      omega (
        arith,
        add_outcome-count id subject action old (provision (id + 1) subject actions u).0,
        count,
      ),
      size ∙ add_outcome-size id subject action old (provision (id + 1) subject actions u).0 s,
    )

abbrev pub HasGrant : String → ℕ → List RolePermission → Type 0
HasGrant role permission_id rs = is_some (find_first (is_grant role permission_id) rs) ≡ true

abbrev pub exists : ℕ → List Permission → Bool
exists permission_id ps = is_some (find_first (permission_by permission_id) ps)

permissions-grant_if :
    (id : ℕ) (role : String) (p : ℕ) (c : Conditions) (b : Bool) (s : World)
    → (grant_if id role p c b s).permissions ≡ s.permissions
permissions-grant_if id role p c true s = refl
permissions-grant_if id role p c false s = refl

grant_if-Distinct :
    (id : ℕ) (role : String) (p : ℕ) (c : Conditions) (s : World)
    → DistinctGrants s.role_permissions
    → DistinctGrants (grant_if id role p c (grantable role p s) s).role_permissions
grant_if-Distinct id role p c s d = elim (Bool-cases (grantable role p s)) [
  | inl t ↦ rw t (ground arith, d)
  | inr t ↦ rw t d
]

grant_if-HasGrant :
    (id : ℕ) (role : String) (p : ℕ) (c : Conditions) (s : World)
    → exists p s.permissions ≡ true
    → HasGrant role p (grant_if id role p c (grantable role p s) s).role_permissions
unfolding find_first
grant_if-HasGrant id role p c s h = ground (arith, eq_iff role role, ==_refl p)

HasGrant-grant_if :
    (id : ℕ) (role : String) (p : ℕ) (c : Conditions) (b : Bool) (s : World) (r : String) (q : ℕ)
    → HasGrant r q s.role_permissions
    → HasGrant r q (grant_if id role p c b s).role_permissions
unfolding find_first
HasGrant-grant_if id role p c true s r q h = ground arith
HasGrant-grant_if id role p c false s r q h = h

HasGrant-bulk_assign :
    (id : ℕ) (role : String) (entries : List (ℕ × Conditions)) (s : World) (r : String) (q : ℕ)
    → HasGrant r q s.role_permissions
    → HasGrant r q (bulk_assign id role entries s).1.role_permissions
unfolding bulk_assign
HasGrant-bulk_assign id role [] s r q h = h
HasGrant-bulk_assign id role ((p, c) ∷ entries) s r q h =
    let b = grantable role p s in
    HasGrant-bulk_assign (id + 1) role entries (grant_if id role p c b s) r q
      (HasGrant-grant_if id role p c b s r q h)

sort_out-count :
    (p : ℕ) (b : Bool) (r : List ℕ × List ℕ)
    → length (sort_out p b r).0 + length (sort_out p b r).1 ≡ suc (length r.0 + length r.1)
sort_out-count p true r = omega arith
sort_out-count p false r = omega arith

-- A bulk assignment keeps (role, permissionId) distinct, changes no permission, and ends with the
-- role holding every listed permission that exists; each entry is counted once, as assigned or
-- skipped.
bulk_assign_complete :
    (id : ℕ) (role : String) (entries : List (ℕ × Conditions)) (s : World)
    → DistinctGrants s.role_permissions
    → let (r, t) = bulk_assign id role entries s in
      DistinctGrants t.role_permissions
      × (t.permissions ≡ s.permissions)
      × All (λ e. exists e.0 s.permissions ≡ true → HasGrant role e.0 t.role_permissions) entries
      × (length r.0 + length r.1 ≡ length entries)
unfolding bulk_assign
bulk_assign_complete id role [] s d = (d, refl, tt, refl)
bulk_assign_complete id role ((p, c) ∷ entries) s d =
    let b = grantable role p s in
    let u = grant_if id role p c b s in
    let (dist, same, all, count) =
      bulk_assign_complete (id + 1) role entries u (grant_if-Distinct id role p c s d) in
    (
      dist,
      same ∙ permissions-grant_if id role p c b s,
      (
        λ h.
            HasGrant-bulk_assign (id + 1) role entries u role p (grant_if-HasGrant id role p c s h),
        All-map (λ e k h. k (rw (permissions-grant_if id role p c b s) h)) entries all,
      ),
      omega (arith, sort_out-count p b (bulk_assign (id + 1) role entries u).0, count),
    )
