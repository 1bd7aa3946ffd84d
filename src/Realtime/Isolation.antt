-- ===== src/Realtime/Isolation.antt =====
-- Who gets a message, and who does not.
use agentra.Base.{
  ℕ, ◌≡◌, refl, sym, subst, is_empty, Bool, true, false, not, List, [], ◌∷◌, Option, none, some,
  ◌++◌, if◌then◌else◌, length, drop, trim_space, ==_iff, Text, arith, ◌==◌, keep, ap, Bool-cases,
  Option-cases, inl, inr, has_prefix, bytes,
}
use agentra.Realtime.Hub.{
  Client, send_to, pushed, has_room, listens, broadcast_to_workspace, Upgrade, Refusal, refused,
  connected, admit, new_client, user_of, token_of, handle_web_socket,
}

-- The clients that are not chosen stay as they are, in their order.
send_to_others :
    (chosen other : Client → Bool) (message : Text)
    → ((c : Client) → other c ≡ true → chosen c ≡ false)
    → ((c : Client) → other (pushed message c) ≡ other c)
    → (cs : List Client) → keep other (send_to chosen message cs) ≡ keep other cs
unfolding send_to
send_to_others chosen other message f g [] = refl
send_to_others chosen other message f g (c ∷ cs) = elim (Bool-cases (other c)) [
  | inl o ↦ rw (send_to, f c o, o, send_to_others chosen other message f g cs) refl
  | inr n ↦ elim (Bool-cases (chosen c)) [
    | inr a ↦ rw (send_to, a, n) (send_to_others chosen other message f g cs)
    | inl a ↦ elim (Bool-cases (has_room c)) [
      | inl h ↦ rw (send_to, a, h, g c, n) (send_to_others chosen other message f g cs)
      | inr h ↦ rw (send_to, a, h, n) (send_to_others chosen other message f g cs)
    ]
  ]
]

-- A message to a workspace leaves every client of another workspace as it is, whatever rooms it has
-- subscribed to.
pub broadcast_to_workspace_others :
    (workspace : ℕ) (message : Text) (cs : List Client)
    → keep (λ c. not (c.workspace_id == workspace)) (broadcast_to_workspace workspace message cs)
      ≡ keep (λ c. not (c.workspace_id == workspace)) cs
unfolding broadcast_to_workspace
broadcast_to_workspace_others workspace message cs =
    send_to_others (listens workspace) (λ c. not (c.workspace_id == workspace)) message
      (λ c h. ground arith) (λ c. refl) cs

-- The token of a request: the one of the query, or what follows "Bearer " in the header.
pub data Presents (r : Upgrade) (token : Text) : Type 0 where
  in_query : is_empty r.token ≡ false → token ≡ r.token → Presents r token
  in_header :
      is_empty r.token ≡ true → r.authorization ≡ bytes "Bearer " ++ token → Presents r token

-- What an admitted client has shown: a token, that is not empty, of a user that is not blank.
pub record Admitted (authenticator : Option (Text → Option Text)) (is_member : Text → ℕ → Bool)
    (r : Upgrade) (workspace : ℕ) (c : Client) : Type 0 where
  pub token : Text
  pub presented : Presents r token
  pub has_token : is_empty token ≡ false
  pub authenticate : Text → Option Text
  pub configured : authenticator ≡ some authenticate
  pub user : authenticate token ≡ some c.user_id
  pub not_blank : is_empty (trim_space c.user_id) ≡ false
  pub of_workspace : c.workspace_id ≡ workspace
  pub member : is_member c.user_id workspace ≡ true
  pub in_room : c.rooms ≡ workspace ∷ []

prefix_drop : (p s : Text) → has_prefix s p ≡ true → s ≡ p ++ drop (length p) s
prefix_drop [] s h = refl
prefix_drop (x ∷ p) [] h = absurd (cc)
prefix_drop (x ∷ p) (y ∷ s) h = ground (arith, prefix_drop p s, ==_iff y x)

bad : {b : Bool} → b ≡ true → b ≡ false → ⊥
bad p q = cc

-- A token that is not empty is presented by the request.
token_of-Presents : (r : Upgrade) → is_empty (token_of r) ≡ false → Presents r (token_of r)
token_of-Presents r h = elim (Bool-cases (is_empty r.token)) [
  | inr n ↦ in_query n (rw n refl)
  | inl e ↦ elim (Bool-cases (has_prefix r.authorization (bytes "Bearer "))) [
    | inl b ↦ in_header e (rw (e, b) (prefix_drop (bytes "Bearer ") r.authorization b))
    | inr b ↦ absurd (bad e (rw (e, b) at h))
  ]
]

text_inj : (a b : Text) → some a ≡ some b → a ≡ b
text_inj a b h = cc

known_user :
    (o : Option Text) (user : Text)
    → (elim o [ none ↦ none | some u ↦ if is_empty (trim_space u) then none else some u ])
      ≡ some user
    → (o ≡ some user) × (is_empty (trim_space user) ≡ false)
known_user none user h = absurd (cc)
known_user (some u) user h = elim (Bool-cases (is_empty (trim_space u))) [
  | inl b ↦ absurd (cc (rw b at h))
  | inr b ↦
      let same : some u ≡ some user = rw b at h in
      (same, subst (λ x. is_empty (trim_space x) ≡ false) (text_inj u user same) b)
]

user_of_inv :
    (authenticator : Option (Text → Option Text)) (token user : Text)
    → user_of authenticator token ≡ some user
    → (authenticate : Text → Option Text) × (authenticator ≡ some authenticate)
      × (authenticate token ≡ some user)
      × (is_empty (trim_space user) ≡ false)
user_of_inv none token user h = absurd (cc)
user_of_inv (some authenticate) token user h =
    let (known, not_blank) = known_user (authenticate token) user h in
    (authenticate, refl, known, not_blank)

not_connected : {x : Refusal} {c : Client} → refused x ≡ connected c → ⊥
not_connected h = cc

admit_inv :
    (is_member : Text → ℕ → Bool) (upgraded : Bool) (id workspace : ℕ) (o : Option Text)
    (c : Client)
    → admit is_member upgraded id workspace o ≡ connected c
    → (o ≡ some c.user_id)
      × (c.workspace_id ≡ workspace)
      × (is_member c.user_id workspace ≡ true)
      × (c.rooms ≡ workspace ∷ [])
admit_inv is_member upgraded id workspace none c h = absurd (ground arith)
admit_inv is_member upgraded id workspace (some user) c h =
    elim (Bool-cases (is_member user workspace)) [
      | inr n ↦ absurd (ground arith)
      | inl m ↦ elim (Bool-cases upgraded) [
        | inr n ↦ absurd (ground arith)
        | inl u ↦
            let e : new_client id user workspace ≡ c = ground arith in
            (
              ap (λ (d : Client). some d.user_id) e,
              sym (ap (λ (d : Client). d.workspace_id) e),
              subst (λ (d : Client). is_member d.user_id workspace ≡ true) e m,
              sym (ap (λ (d : Client). d.rooms) e),
            )
      ]
    ]

-- A connection is let in only without a personal access token in its query, with a token that
-- identifies a user who is not blank, for a workspace that the user is a member of; the client is in
-- the room of that workspace and in no other.
pub handle_web_socket-Admitted :
    (authenticator : Option (Text → Option Text)) (is_member : Text → ℕ → Bool) (upgraded : Bool)
    (id : ℕ) (r : Upgrade) (c : Client)
    → handle_web_socket authenticator is_member upgraded id r ≡ connected c
    → (workspace : ℕ) × (r.workspace_id ≡ some workspace)
      × (has_prefix r.token (bytes "mul_") ≡ false)
      × Admitted authenticator is_member r workspace c
unfolding handle_web_socket
handle_web_socket-Admitted authenticator is_member upgraded id r c h =
    elim (Bool-cases (has_prefix r.token (bytes "mul_"))) [
      | inl q ↦ absurd (not_connected (rw (handle_web_socket, q) at h))
      | inr q ↦ elim (Option-cases r.workspace_id) [
        | inl e ↦ absurd (not_connected (rw (handle_web_socket, q, e) at h))
        | inr (workspace, e) ↦ elim (Bool-cases (is_empty (token_of r))) [
          | inl b ↦ absurd (not_connected (rw (handle_web_socket, q, e, b) at h))
          | inr b ↦
              let (user, of_workspace, member, in_room) =
                admit_inv is_member upgraded id workspace (user_of authenticator (token_of r)) c
                  (rw (handle_web_socket, q, e, b) at h) in
              (
                workspace,
                e,
                q,
                let (authenticate, configured, known, not_blank) =
                      user_of_inv authenticator (token_of r) c.user_id user in
                    record {
                      token = token_of r;
                      presented = token_of-Presents r b;
                      has_token = b;
                      authenticate = authenticate;
                      configured = configured;
                      user = known;
                      not_blank = not_blank;
                      of_workspace = of_workspace;
                      member = member;
                      in_room = in_room;
                    },
              )
        ]
      ]
    ]
