-- ===== src/Access/Gates.antt =====
-- kailab-control/internal/api/middleware.go: whom the gates let through.
use kai_server.Common.{
  ◌≤◌, ◌≡◌, ◌⊎◌, refl, arith, true, ◌&&◌, Bool-cases, inl, inr, String, Option, none, some,
}
use kai_server.Access.{
  Role, Membership, Lookup, found, not_found, failed, Database, Request, Refusal, unauthorized,
  forbidden, internal_error, Answer, refused, role_level, has_at_least_role, get_membership,
  is_read_only_request, is_public_repo_read_allowed, check_role, check_reader,
  require_public_repo_or_membership,
}

-- The database has the user as a member of the organization, with the role or a higher one.
abbrev pub IsMember : Database → Role → Option String → String → Type 0
IsMember db min_role org user =
    (m : Membership) × ((o : String) × ((org ≡ some o)
        × ((get_membership db o user ≡ found m) × (role_level min_role ≤ role_level m.role))))

-- A user who is a member, or nobody, who reads a public repository.
pub data MayPass (db : Database) (min_role : Role) (r : Request) : Type 0 where
  reader :
      r.user ≡ none
      → is_read_only_request r ≡ true
      → is_public_repo_read_allowed r.repo ≡ true
      → MayPass db min_role r
  member :
      (user : String) → r.user ≡ some user → IsMember db min_role r.org user → MayPass db min_role r

abbrev pub IsRefused {ℓ} : {A : Type ℓ} → Answer A → Type ℓ
IsRefused a = (why : Refusal) × (a ≡ refused why)

Lookup-cases : (l : Lookup) → ((m : Membership) × (l ≡ found m)) ⊎ ((l ≡ not_found) ⊎ (l ≡ failed))
Lookup-cases (found m) = inl (m, refl)
Lookup-cases not_found = inr (inl refl)
Lookup-cases failed = inr (inr refl)

module _ {ℓ} {A : Type ℓ} (db : Database) (min_role : Role) where
  check_role-decides :
      (org : Option String) (user : String) (next : Answer A)
      → (IsMember db min_role org user × (check_role db min_role org user next ≡ next))
        ⊎ IsRefused (check_role db min_role org user next)
  check_role-decides none user next = inr (internal_error, refl)
  check_role-decides (some o) user next = elim (Lookup-cases (get_membership db o user)) [
    | inl (m, e) ↦ elim (Bool-cases (has_at_least_role m.role min_role)) [
      | inl e' ↦
          let enough : role_level min_role ≤ role_level m.role = ground arith in
          inl ((m, (o, (refl, (e, enough)))), rw (check_role, e, e') refl)
      | inr e' ↦ inr (forbidden, rw (check_role, e, e') refl)
    ]
    | inr (inl e) ↦ inr (forbidden, rw (check_role, e) refl)
    | inr (inr e) ↦ inr (internal_error, rw (check_role, e) refl)
  ]

  check_reader-decides :
      (signed_in : Option String) (r : Request) (next : Answer A)
      → r.user ≡ signed_in
      → (MayPass db min_role r × (check_reader db min_role signed_in r next ≡ next))
        ⊎ IsRefused (check_reader db min_role signed_in r next)
  check_reader-decides none r next e =
      elim (Bool-cases (is_read_only_request r && is_public_repo_read_allowed r.repo)) [
        | inl e' ↦ inl (reader e (ground arith) (ground arith), rw (e') refl)
        | inr e' ↦ inr (unauthorized, rw (e') refl)
      ]
  check_reader-decides (some user) r next e = elim (check_role-decides r.org user next) [
    | inl (is_member, e') ↦ inl (member user e is_member, e')
    | inr why ↦ inr why
  ]

  check_reader-passes :
      (signed_in : Option String) (r : Request) (next : Answer A)
      → r.user ≡ signed_in
      → MayPass db min_role r
      → check_reader db min_role signed_in r next ≡ next
  check_reader-passes none r next e (reader nobody reads public) = rw (reads, public) refl
  check_reader-passes none r next e (member user is_user m) = absurd (cc)
  check_reader-passes (some u) r next e (reader nobody reads public) = absurd (cc)
  check_reader-passes (some u) r next e (member user is_user (m, (o, (org, (entry, enough))))) =
      let same : user ≡ u = cc in
      let high : has_at_least_role m.role min_role ≡ true = ground arith in
      rw (org, check_role, ← same, entry, high) refl

  -- RequirePublicRepoOrMembership lets a request through to the handler behind it, unchanged, if
  -- nobody is signed in and it reads a public repository, or if the database has the user as a
  -- member of the organization with the role asked for or a higher one. Every other request gets
  -- an error.
  pub require_public_repo_or_membership-decides :
      (next : Request → Answer A) (r : Request)
      → (MayPass db min_role r → require_public_repo_or_membership db min_role next r ≡ next r)
        × (¬ MayPass db min_role r
            → IsRefused (require_public_repo_or_membership db min_role next r))
  unfolding require_public_repo_or_membership
  require_public_repo_or_membership-decides next r = (
    check_reader-passes r.user r (next r) refl,
    λ may_not. elim (check_reader-decides r.user r (next r) refl) [
      | inl (may, e) ↦ absurd (may_not may)
      | inr refusal ↦ refusal
    ],
  )
