-- ===== src/Access/Allowlist.antt =====
-- What a policy that was read from the environment lets in.
use agentra.Base.{
  ◌≡◌, refl, inl, inr, Bool, true, false, not, ◌&&◌, ◌||◌, List, [], ◌∷◌, Option, none, some, Text,
  ◌==◌, is_empty, some_of, arith, Option-cases, Bool-cases,
}
use agentra.Access.Signup.{
  split, cut_at, valid_domain, AccessPolicy, add_entry, add_entries, add_email, add_domain, normal,
  new_access_policy, parse_optional_bool,
}

abbrev pub open_to_all : AccessPolicy → Bool
open_to_all p = is_empty p.allowed_emails && is_empty p.allowed_domains

abbrev pub valid_domains : AccessPolicy → Bool
valid_domains p = not (some_of (λ d. not (valid_domain d)) p.allowed_domains)

-- What adding an entry does: `q` restricts sign-ups if the entry is not blank.
Added : Bool → AccessPolicy → AccessPolicy → Type 0
Added blank p q =
    (valid_domains q ≡ true)
    × (open_to_all q ≡ (blank && open_to_all p))
    × (q.signup_disabled ≡ p.signup_disabled)

add_domain_lem :
    (domain : Text) (p q : AccessPolicy)
    → add_domain domain p ≡ some q
    → valid_domains p ≡ true
    → Added false p q
unfolding add_domain Added
add_domain_lem domain p q h v = ground arith

add_email_lem :
    (entry : Text) (c : Option (Text × Text)) (p q : AccessPolicy)
    → add_email entry c p ≡ some q
    → valid_domains p ≡ true
    → Added false p q
unfolding add_email Added
add_email_lem entry none p q h v = ground arith
add_email_lem entry (some (local, domain)) p q h v = ground arith

Added-same : (p q : AccessPolicy) → some p ≡ some q → valid_domains p ≡ true → Added true p q
unfolding Added
Added-same p q h v = ground arith

add_entry_lem :
    (entry : Text) (p q : AccessPolicy)
    → add_entry entry p ≡ some q
    → valid_domains p ≡ true
    → Added (is_empty entry) p q
unfolding add_entry
add_entry_lem [] p q h v = Added-same p q h v
add_entry_lem (c ∷ s) p q h v = elim (Bool-cases (c == b'@')) [
  | inl y ↦ add_domain_lem s p q (ground arith) v
  | inr n ↦ add_email_lem (c ∷ s) (cut_at (c ∷ s)) p q (ground arith) v
]

add_entries_step :
    (b c : Bool) (p m q : AccessPolicy)
    → Added b p m
    → (valid_domains m ≡ true → Added (not c) m q)
    → Added (not (not b || c)) p q
unfolding Added
add_entries_step b c p m q (v, o, s) f = ground (arith, f v)

add_entries_lem :
    (raws : List Text) (p q : AccessPolicy)
    → add_entries raws p ≡ some q
    → valid_domains p ≡ true
    → Added (not (some_of (λ r. not (is_empty (normal r))) raws)) p q
unfolding add_entries Added
add_entries_lem [] p q h v = ground arith
add_entries_lem (raw ∷ rest) p q h v = elim (Option-cases (add_entry (normal raw) p)) [
  | inl n ↦ ground arith
  | inr (m, e) ↦
      add_entries_step (is_empty (normal raw)) _ p m q (add_entry_lem (normal raw) p m e v)
        (add_entries_lem rest m q (ground arith))
]

abbrev initial : Bool → Bool → AccessPolicy
initial s w = record {
  signup_disabled = s;
  workspace_creation_disabled = w;
  allowed_emails = [];
  allowed_domains = [];
}

-- Every domain of a policy that was read from the environment is well formed, and the policy is open
-- to everyone only when the variable of the allow-list has no entry but blank ones.
pub new_access_policy_lem :
    (parse_bool : Text → Option Bool) (signup creation allowlist : Text) (p : AccessPolicy)
    → new_access_policy parse_bool signup creation allowlist ≡ some p
    → (valid_domains p ≡ true)
      × (open_to_all p ≡ not (some_of (λ r. not (is_empty (normal r))) (split allowlist)))
unfolding new_access_policy Added
new_access_policy_lem parse_bool signup creation allowlist p h =
    elim (Option-cases (parse_optional_bool parse_bool signup)) [
      | inl n ↦ ground arith
      | inr (s, e) ↦ elim (Option-cases (parse_optional_bool parse_bool creation)) [
        | inl n ↦ ground arith
        | inr (w, f) ↦
            started s w (add_entries_lem (split allowlist) (initial s w) p (ground arith) refl)
      ]
    ]
  where
    started :
        (s w : Bool)
        → Added (not (some_of (λ r. not (is_empty (normal r))) (split allowlist))) (initial s w) p
        → (valid_domains p ≡ true)
          × (open_to_all p ≡ not (some_of (λ r. not (is_empty (normal r))) (split allowlist)))
    started s w (v, o, d) = (v, ground (o, arith))
