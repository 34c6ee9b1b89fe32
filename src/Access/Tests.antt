-- ===== src/Access/Tests.antt =====
-- Requests of two members, and the theorems at concrete inputs.
use kai_server.Common.{◌≡◌, ◌↔◌, ◌≤◌, refl, true, false, String, [], ◌∷◌, Option, none, some}
use kai_server.Access.{
  Database, Request, Answer, served, refused, forbidden, role_level, has_scope, find_membership,
  get_membership, require_membership, require_public_repo_or_membership, require_scope, chain,
  slug_from, validate_slug,
}
use kai_server.Access.Gates.{MayPass, IsRefused, require_public_repo_or_membership-decides}
use kai_server.Access.Slugs.{EachAllowed, validate_slug_iff}

abbrev two_members : Database
two_members = record {
  answers = true;
  memberships =
      record { user = "ann"; org = "kai"; role = "admin" }
      ∷ record { user = "bob"; org = "kai"; role = "guest" }
      ∷ [];
}

abbrev request_of : Option String → Request
request_of user = record {
  method = "GET";
  user = user;
  org = some "kai";
  repo = some "public";
  claims = some ("repo:read" ∷ []);
}

abbrev handler : Request → Answer String
handler r = served r.method

-- Somebody signed in, and no member, may not read what nobody signed in may.
stranger :
    (require_public_repo_or_membership two_members "guest" handler (request_of (some "eve"))
      ≡ refused forbidden)
    × (require_public_repo_or_membership two_members "guest" handler (request_of none)
        ≡ served "GET")
unfolding require_public_repo_or_membership get_membership find_membership
stranger = (refl, refl)

-- A role that is none of the six is below none of them as a requirement.
unknown_role :
    require_membership two_members "root" handler (request_of (some "bob")) ≡ served "GET"
unfolding require_membership get_membership find_membership role_level
unknown_role = refl

guarded :
    chain handler
      (require_membership two_members "developer" ∷ require_scope "repo:write" ∷ [])
      (request_of (some "ann"))
    ≡ refused forbidden
unfolding chain require_membership require_scope has_scope get_membership find_membership role_level
guarded = refl

require_public_repo_or_membership-decides_example :
    (MayPass two_members "developer" (request_of (some "bob"))
      → require_public_repo_or_membership two_members "developer" handler (request_of (some "bob"))
        ≡ served "GET")
    × (¬ MayPass two_members "developer" (request_of (some "bob"))
        → IsRefused (
            require_public_repo_or_membership two_members "developer" handler
              (request_of (some "bob"))))
require_public_repo_or_membership-decides_example =
    require_public_repo_or_membership-decides two_members "developer" handler
      (request_of (some "bob"))

validate_slug_iff_example :
    (validate_slug (107 ∷ 45 ∷ 49 ∷ []) ≡ true)
    ↔ ((1 ≤ 3) × ((3 ≤ 63) × EachAllowed 0 (107 ∷ 45 ∷ 49 ∷ [])))
validate_slug_iff_example = validate_slug_iff (107 ∷ 45 ∷ 49 ∷ [])

slugs : (validate_slug (107 ∷ 45 ∷ 49 ∷ []) ≡ true) × (validate_slug (107 ∷ 45 ∷ []) ≡ false)
unfolding validate_slug slug_from
slugs = (refl, refl)
