-- ===== src/Access.antt =====
-- kailab-control/internal/api/middleware.go and internal/model/models.go: who may do what, and the
-- slugs of organizations and repositories.
pub mod Gates
pub mod Slugs
mod Tests
use kai_server.Common.Bytes.{Bytes}
use kai_server.Common.{
  ℕ, zero, suc, Bool, true, false, ◌&&◌, ◌||◌, String, str_eq, List, [], ◌∷◌, Option, none, some,
  length, leb, ltb, ◌==◌, if◌then◌else◌,
}

abbrev pub Role : Type 0
Role = String

-- RoleHierarchy[role], where a missing role has zero.
unfoldable pub role_level : Role → ℕ
role_level role =
    if str_eq role "reporter"
    then 1
    else if str_eq role "developer"
    then 2
    else if str_eq role "maintainer"
    then 3
    else if str_eq role "admin"
    then 4
    else if str_eq role "owner"
    then 5
    else 0

-- (HasAtLeastRole)
abbrev pub has_at_least_role : Role → Role → Bool
has_at_least_role role required = leb (role_level required) (role_level role)

-- (HasScope)
unfoldable pub has_scope : List String → String → Bool
has_scope [] required = false
has_scope (s ∷ scopes) required =
    let rest = has_scope scopes required in if str_eq s required then true else rest

pub record Membership : Type 0 where
  pub user : String
  pub org : String
  pub role : Role

pub data Lookup : Type 0 where
  found : Membership → Lookup
  not_found failed : Lookup

-- The memberships, and whether the database answers.
pub record Database : Type 0 where
  pub answers : Bool
  pub memberships : List Membership

unfoldable pub find_membership : List Membership → String → String → Lookup
find_membership [] org user = not_found
find_membership (m ∷ ms) org user =
    let rest = find_membership ms org user in
    if str_eq m.org org && str_eq m.user user then found m else rest

-- (GetMembership)
unfoldable pub get_membership : Database → String → String → Lookup
get_membership db org user = if db.answers then find_membership db.memberships org user else failed

-- What the gates read of a request: its method, and what the gates before put into its context.
pub record Request : Type 0 where
  pub method : String
  pub user : Option String
  pub org : Option String
  -- of the repository, its visibility
  pub repo : Option String
  -- of the claims, the scopes
  pub claims : Option (List String)

pub data Refusal : Type 0 where
  unauthorized forbidden internal_error : Refusal

-- What the handler behind the gates answers, or the error that a gate writes.
pub data Answer {ℓ} (A : Type ℓ) : Type ℓ where
  served : A → Answer A
  refused : Refusal → Answer A

-- (isReadOnlyRequest)
abbrev pub is_read_only_request : Request → Bool
is_read_only_request r =
    str_eq r.method "GET" || (str_eq r.method "HEAD" || str_eq r.method "OPTIONS")

-- (isPublicRepoReadAllowed)
abbrev pub is_public_repo_read_allowed : Option String → Bool
is_public_repo_read_allowed none = false
is_public_repo_read_allowed (some visibility) = str_eq visibility "public"

module _ {ℓ} {A : Type ℓ} where
  -- What RequireMembership does with a user.
  abbrev pub check_role : Database → Role → Option String → String → Answer A → Answer A
  check_role db min_role none user next = refused internal_error
  check_role db min_role (some org) user next = elim (get_membership db org user) [
    | not_found ↦ refused forbidden
    | failed ↦ refused internal_error
    | found m ↦ if has_at_least_role m.role min_role then next else refused forbidden
  ]

  -- (RequireMembership)
  unfoldable pub require_membership : Database → Role → (Request → Answer A) → Request → Answer A
  require_membership db min_role next r = elim r.user [
    | none ↦ refused unauthorized
    | some user ↦ check_role db min_role r.org user (next r)
  ]

  -- What RequirePublicRepoOrMembership does, by who is signed in.
  abbrev pub check_reader : Database → Role → Option String → Request → Answer A → Answer A
  check_reader db min_role none r next =
      if is_read_only_request r && is_public_repo_read_allowed r.repo
      then next
      else refused unauthorized
  check_reader db min_role (some user) r next = check_role db min_role r.org user next

  -- (RequirePublicRepoOrMembership)
  unfoldable pub require_public_repo_or_membership :
      Database → Role → (Request → Answer A) → Request → Answer A
  require_public_repo_or_membership db min_role next r = check_reader db min_role r.user r (next r)

  -- (RequireScope)
  unfoldable pub require_scope : String → (Request → Answer A) → Request → Answer A
  require_scope scope next r = elim r.claims [
    | none ↦ refused unauthorized
    | some scopes ↦ if has_scope scopes scope then next r else refused forbidden
  ]

  -- (Chain)
  unfoldable pub chain :
      (Request → Answer A) → List ((Request → Answer A) → Request → Answer A) → Request → Answer A
  chain h [] = h
  chain h (m ∷ middlewares) = m (chain h middlewares)

abbrev pub is_special : ℕ → Bool
is_special c = c == 95 || (c == 45 || c == 46)

abbrev pub is_plain : ℕ → Bool
is_plain c = (leb 97 c && leb c 122) || (leb 48 c && leb c 57)

-- The loop of ValidateSlug over a text of n bytes, from the index i on. Every byte of a character
-- that is not ASCII fails, as the character does.
unfoldable pub slug_from : ℕ → ℕ → Bytes → Bool
slug_from n i [] = true
slug_from n i (c ∷ s) =
    let rest = slug_from n (suc i) s in
    if is_plain c
    then rest
    else if is_special c
    then if i == 0 || suc i == n then false else rest
    else false

-- (ValidateSlug)
unfoldable pub validate_slug : Bytes → Bool
validate_slug s = if ltb (length s) 1 || ltb 63 (length s) then false else slug_from (length s) 0 s
