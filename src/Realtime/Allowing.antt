-- ===== src/Realtime/Allowing.antt =====
-- The origins that a configuration allows, and the requests that they let in.
use agentra.Base.{
  ◌≤◌, ◌≡◌, inl, inr, refl, ap, Bool, true, false, not, List, [], ◌∷◌, ◌++◌, map, Option, none,
  some, Text, arith, ◌==◌, length, keep, some_of, is_empty, text_eq, bytes, to_lower, lower_byte,
  trim_left, trim_space, trim_right, Option-cases,
}
use agentra.Access.Signup.{split}
use agentra.Realtime.Origin.{
  allowed_origins, first_set, split_origins, Url, origin_of, matches, check_ws_origin,
  new_ws_upgrader,
}

abbrev pub has_comma : Text → Bool
has_comma s = some_of (λ c. c == b',') s

trim_left-comma : (s : Text) → has_comma s ≡ false → has_comma (trim_left s) ≡ false
trim_left-comma [] h = h
trim_left-comma (c ∷ s) h = ground (arith, trim_left-comma s)

trim_right-comma : (s : Text) → has_comma s ≡ false → has_comma (trim_right s) ≡ false
trim_right-comma [] h = h
trim_right-comma (c ∷ s) h = ground (arith, trim_right-comma s)

split_filled : (s : Text) → is_empty (split s) ≡ false
split_filled [] = refl
split_filled (c ∷ s) = ground (arith, split_filled s)

split-comma : (s : Text) → some_of has_comma (split s) ≡ false
split-comma [] = refl
split-comma (c ∷ s) = ground (arith, split_filled s, split-comma s)

trimmed-comma :
    (pieces : List Text)
    → some_of has_comma pieces ≡ false
    → some_of has_comma (keep (λ o. not (is_empty o)) (map trim_space pieces)) ≡ false
trimmed-comma [] h = h
trimmed-comma (p ∷ ps) h =
    ground (arith, trimmed-comma ps, trim_left-comma p, trim_right-comma (trim_left p))

keep-filled : (os : List Text) → some_of is_empty (keep (λ o. not (is_empty o)) os) ≡ false
keep-filled [] = refl
keep-filled (o ∷ os) = ground (arith, keep-filled os)

pub Listed : List Text → Type 0
Listed os = (1 ≤ length os) × (some_of is_empty os ≡ false) × (some_of has_comma os ≡ false)

filled-Listed :
    (es os : List Text)
    → some_of is_empty es ≡ false
    → some_of has_comma es ≡ false
    → elim es [ [] ↦ none | o ∷ rest ↦ some (o ∷ rest) ] ≡ some os
    → Listed os
unfolding Listed
filled-Listed [] os p q h = absurd cc
filled-Listed (e ∷ es) os p q h = ground arith

split_origins-Listed :
    (raw : Text) (os : List Text)
    → elim (split_origins raw) [ [] ↦ none | o ∷ rest ↦ some (o ∷ rest) ] ≡ some os
    → Listed os
split_origins-Listed raw os h =
    filled-Listed (split_origins raw) os (keep-filled (map trim_space (split raw)))
      (trimmed-comma (split raw) (split-comma raw)) h

allowed_origins-Listed :
    (cors frontend site app : Text) (os : List Text)
    → allowed_origins cors frontend site app ≡ some os
    → Listed os
unfolding allowed_origins
allowed_origins-Listed cors frontend site app os h =
    let raw = first_set (cors ∷ frontend ∷ site ∷ app ∷ []) in
    ground (arith, split_origins-Listed raw os)

lower_byte_idem : (c : _) → lower_byte (lower_byte c) ≡ lower_byte c
lower_byte_idem c = ground arith

to_lower_idem : (s : Text) → to_lower (to_lower s) ≡ to_lower s
to_lower_idem [] = refl
to_lower_idem (c ∷ s) = grind (arith, lower_byte_idem c, to_lower_idem s)

to_lower-append : (s t : Text) → to_lower (s ++ t) ≡ to_lower s ++ to_lower t
to_lower-append [] t = refl
to_lower-append (c ∷ s) t = ap (λ r. lower_byte c ∷ r) (to_lower-append s t)

origin_of_lower : (u : Url) → to_lower (origin_of u) ≡ origin_of u
origin_of_lower u = rw (
  origin_of,
  to_lower-append (to_lower u.scheme ++ bytes "://") (to_lower u.host),
  to_lower-append (to_lower u.scheme) (bytes "://"),
  to_lower_idem u.scheme,
  to_lower_idem u.host,
)

-- An allowed origin that is the origin of a request, in letters of either case.
pub lists : Url → List Text → Bool
lists u os = some_of (λ o. text_eq (to_lower o) (origin_of u)) os

matches-lists : (u : Url) (os : List Text) → matches os (some u) ≡ true → lists u os ≡ true
unfolding lists
matches-lists u os h = let same = origin_of_lower u in ground arith

pub record Allows (os : List Text) (parsed : Option Url) : Type 0 where
  pub url : Url
  pub is_url : parsed ≡ some url
  pub has_scheme : is_empty url.scheme ≡ false
  pub has_host : is_empty url.host ≡ false
  pub listed : lists url os ≡ true

matches-Allows :
    (os : List Text) (parsed : Option Url) → matches os parsed ≡ true → Allows os parsed
matches-Allows os none h = absurd cc
matches-Allows os (some u) h = record {
  url = u;
  is_url = refl;
  has_scheme = ground arith;
  has_host = ground arith;
  listed = matches-lists u os h;
}

refuses :
    (parse_url : Text → Option Url) (origin authorization token : Text)
    → new_ws_upgrader parse_url none origin authorization token ≡ true
    → ⊥
unfolding new_ws_upgrader check_ws_origin
refuses parse_url origin authorization token h = cc

checked :
    (parse_url : Text → Option Url) (os : List Text) (origin authorization token : Text)
    → is_empty (trim_space origin) ≡ false
    → new_ws_upgrader parse_url (some os) origin authorization token ≡ true
    → Allows os (parse_url (trim_space origin))
unfolding new_ws_upgrader check_ws_origin
checked parse_url [] origin authorization token f h = absurd cc
checked parse_url (o ∷ os) origin authorization token f h =
    matches-Allows (o ∷ os) _ (ground (arith, f, h))

-- Under the origins of the environment, a web-socket request with an origin is let in only when
-- origins are configured, none of them blank or with a comma, and its origin is a URL with a scheme
-- and a host, which are together one of these origins, in letters of either case.
pub new_ws_upgrader-Allows :
    (parse_url : Text → Option Url) (cors frontend site app origin authorization token : Text)
    → is_empty (trim_space origin) ≡ false
    → new_ws_upgrader parse_url (allowed_origins cors frontend site app) origin authorization token
      ≡ true
    → (os : List Text) × (allowed_origins cors frontend site app ≡ some os)
      × Listed os
      × Allows os (parse_url (trim_space origin))
new_ws_upgrader-Allows parse_url cors frontend site app origin authorization token f h =
    elim (Option-cases (allowed_origins cors frontend site app)) [
      | inl e ↦ absurd (refuses parse_url origin authorization token (rw e at h))
      | inr (os, e) ↦ (
        os,
        e,
        allowed_origins-Listed cors frontend site app os e,
        checked parse_url os origin authorization token f (rw e at h),
      )
    ]
