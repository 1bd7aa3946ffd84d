-- ===== src/Realtime/Origin.antt =====
-- The origins that the server allows (server/internal/corsconfig/corsconfig.go) and the test of a
-- web-socket request's origin (server/internal/realtime/origin.go). url.Parse is the parameter
-- `parse_url`; letters are compared as those of ASCII.
use agentra.Base.{
  Bool, false, not, ◌||◌, List, [], ◌∷◌, ◌++◌, map, Option, none, some, Text, if◌then◌else◌, keep,
  some_of, is_empty, text_eq, bytes, to_lower, trim_space,
}
use agentra.Access.Signup.{split}

-- The first variable that is not blank, trimmed, or the empty text.
abbrev pub first_set : List Text → Text
first_set [] = []
first_set (v ∷ vs) = elim (trim_space v) [ [] ↦ first_set vs | c ∷ s ↦ c ∷ s ]

abbrev pub split_origins : Text → List Text
split_origins raw = keep (λ o. not (is_empty o)) (map trim_space (split raw))

-- From the values of the four variables of the environment; `none` for nil.
unfoldable pub allowed_origins : Text → Text → Text → Text → Option (List Text)
allowed_origins cors_allowed_origins frontend_origin site_url app_url =
    elim (first_set (cors_allowed_origins ∷ frontend_origin ∷ site_url ∷ app_url ∷ [])) [
      | [] ↦ none
      | c ∷ s ↦ elim (split_origins (c ∷ s)) [ [] ↦ none | o ∷ os ↦ some (o ∷ os) ]
    ]

-- The two fields of a url.URL that are read.
pub record Url : Type 0 where
  pub scheme : Text
  pub host : Text

abbrev pub equal_fold : Text → Text → Bool
equal_fold s t = text_eq (to_lower s) (to_lower t)

abbrev pub origin_of : Url → Text
origin_of u = to_lower u.scheme ++ bytes "://" ++ to_lower u.host

abbrev pub matches : List Text → Option Url → Bool
matches allow_list none = false
matches allow_list (some u) =
    if is_empty u.host || is_empty u.scheme
    then false
    else some_of (λ allowed. equal_fold allowed (origin_of u)) allow_list

-- What is read of the request: the headers Origin and Authorization, and `token` of the query.
unfoldable pub check_ws_origin : (Text → Option Url) → List Text → Text → Text → Text → Bool
check_ws_origin parse_url [] origin authorization token = false
check_ws_origin parse_url (x ∷ xs) origin authorization token = elim (trim_space origin) [
  | [] ↦ not (is_empty authorization) || not (is_empty token)
  | c ∷ s ↦ matches (x ∷ xs) (parse_url (c ∷ s))
]

-- The test that the upgrader makes for an allow-list, which is nil when nothing is configured.
unfoldable pub new_ws_upgrader :
    (Text → Option Url) → Option (List Text) → Text → Text → Text → Bool
unfolding check_ws_origin
new_ws_upgrader parse_url none origin authorization token =
    check_ws_origin parse_url [] origin authorization token
new_ws_upgrader parse_url (some allow_list) origin authorization token =
    check_ws_origin parse_url allow_list origin authorization token
