-- ===== src/Access/Signup.antt =====
-- The sign-up policy (server/internal/service/access_policy.go).
use agentra.Base.{
  ℕ, Bool, true, false, not, ◌&&◌, ◌||◌, List, [], ◌∷◌, Option, none, some, Text, if◌then◌else◌,
  ◌==◌, is_empty, text_eq, to_lower, trim_space, some_of, has_prefix,
}

-- strings.Split s ",".
abbrev pub split : Text → List Text
split [] = [] ∷ []
split (c ∷ s) = elim (split s) [
  | [] ↦ (c ∷ []) ∷ []
  | piece ∷ rest ↦ if c == b',' then [] ∷ piece ∷ rest else (c ∷ piece) ∷ rest
]

-- The parts around the first "@" (strings.Cut), or none.
abbrev pub cut_at : Text → Option (Text × Text)
cut_at [] = none
cut_at (c ∷ s) =
    if c == b'@'
    then some ([], s)
    else (elim (cut_at s) [ none ↦ none | some p ↦ some (c ∷ p.0, p.1) ])

abbrev pub forbidden : ℕ → Bool
forbidden c = (c == b'@') || ((c == b',') || ((c == 32) || ((c == 9) || ((c == 13) || (c == 10)))))

abbrev pub has_dot_suffix : Text → Bool
has_dot_suffix [] = false
has_dot_suffix (c ∷ s) = elim s [ [] ↦ c == b'.' | d ∷ r ↦ has_dot_suffix s ]

unfoldable pub valid_domain : Text → Bool
valid_domain domain =
    not (is_empty domain)
    && (not (some_of forbidden domain)
        && (not (has_prefix domain (b'.' ∷ [])) && not (has_dot_suffix domain)))

-- The two sets as lists of their members.
pub record AccessPolicy : Type 0 where
  pub signup_disabled : Bool
  pub workspace_creation_disabled : Bool
  pub allowed_emails : List Text
  pub allowed_domains : List Text

unfoldable pub add_email : Text → Option (Text × Text) → AccessPolicy → Option AccessPolicy
add_email entry none p = none
add_email entry (some (local, domain)) p =
    if is_empty local || not (valid_domain domain)
    then none
    else some (record p { allowed_emails = entry ∷ p.allowed_emails })

unfoldable pub add_domain : Text → AccessPolicy → Option AccessPolicy
add_domain domain p =
    if valid_domain domain
    then some (record p { allowed_domains = domain ∷ p.allowed_domains })
    else none

-- One entry, trimmed and in lower case.
unfoldable pub add_entry : Text → AccessPolicy → Option AccessPolicy
add_entry [] p = some p
add_entry (c ∷ s) p = if c == b'@' then add_domain s p else add_email (c ∷ s) (cut_at (c ∷ s)) p

abbrev pub normal : Text → Text
normal raw = to_lower (trim_space raw)

unfoldable pub add_entries : List Text → AccessPolicy → Option AccessPolicy
unfolding add_entry
add_entries [] p = some p
add_entries (raw ∷ rest) p = elim (add_entry (normal raw) p) [
  | none ↦ none
  | some q ↦ add_entries rest q
]

module _ (parse_bool : Text → Option Bool) where
  abbrev pub parse_trimmed : Text → Option Bool
  parse_trimmed value = if is_empty value then some false else parse_bool value

  abbrev pub parse_optional_bool : Text → Option Bool
  parse_optional_bool value = parse_trimmed (trim_space value)

  -- From the values of the three variables of the environment; none for an error.
  unfoldable pub new_access_policy : Text → Text → Text → Option AccessPolicy
  unfolding add_entries
  new_access_policy signup creation allowlist = elim (parse_optional_bool signup) [
    | none ↦ none
    | some s ↦ elim (parse_optional_bool creation) [
      | none ↦ none
      | some w ↦ add_entries (split allowlist) (record {
        signup_disabled = s;
        workspace_creation_disabled = w;
        allowed_emails = [];
        allowed_domains = [];
      })
    ]
  ]

abbrev pub domain_allowed : AccessPolicy → Option (Text × Text) → Bool
domain_allowed p none = false
domain_allowed p (some c) = some_of (text_eq c.1) p.allowed_domains

abbrev pub allows_normal : AccessPolicy → Text → Bool
allows_normal p email =
    if is_empty p.allowed_emails && is_empty p.allowed_domains
    then true
    else if some_of (text_eq email) p.allowed_emails
    then true
    else domain_allowed p (cut_at email)

unfoldable pub allows_new_signup : AccessPolicy → Text → Bool
allows_new_signup p email = if p.signup_disabled then false else allows_normal p (normal email)
