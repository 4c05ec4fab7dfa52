-- ===== src/TokenExchange/Refresh/Once.antt =====
-- What a refresh that succeeds has checked, and that its token cannot be used again.
use Prim.Native.String
use realmroot.Prelude.{
  ℕ, String, true, false, Option, none, some, List, [], ◌∷◌, ◌++◌, ◌==◌, ◌≡◌, refl, find, map,
  arith, ap, ◌∙◌, sym, Bool-cases, inl, inr, ◌+◌, ◌*◌, join, get_or,
}
use realmroot.Directory.{Directory}
use realmroot.TokenExchange.{
  Services, State, RefreshToken, AccessToken, TokenExchangeResponse, refresh_token_prefix,
  default_refresh_expires_in_seconds, default_expires_in_seconds, access_token_type, fresh_id,
  fresh_token, now,
}
use realmroot.TokenExchange.Store.{rotate_refresh_token, consume_parent}
use realmroot.TokenExchange.Issue.{
  AccessGrant, access_token_claims, issue_jwt_access_token, prepare_refresh_token,
}
use realmroot.TokenExchange.Refresh.{rotate, answer}

-- What `rotate` makes of the row.
module _ (services : Services) (client_id : String) (row : RefreshToken) (scopes : List String)
    (s : State) where
  abbrev pub new_token : String
  new_token = String.◌++◌ refresh_token_prefix (services.random_token (s.drawn + 1))

  abbrev pub child : RefreshToken
  child = record {
    id = services.generate (s.drawn + 1 + 1);
    family_id = row.family_id;
    parent_id = some row.id;
    token_hash = services.hash_provider_secret new_token;
    client_id = client_id;
    credential_id = row.credential_id;
    subject = row.subject;
    subject_token_issuer = row.subject_token_issuer;
    audience = row.audience;
    scopes = scopes;
    claims = row.claims;
    expires_at = s.clock + default_refresh_expires_in_seconds * 1000;
    consumed_at = none;
    revoked_at = none;
    created_at = s.clock;
  }

  abbrev pub access_grant : AccessGrant
  access_grant = record {
    client_id = client_id;
    subject = row.subject;
    audience = row.audience;
    scopes = scopes;
    claims = row.claims;
    actor = none;
    issued_at = s.clock;
    expires_at = s.clock + default_expires_in_seconds * 1000;
  }

  abbrev pub signed : String
  signed =
      services.sign (access_token_claims services.issuer (services.generate s.drawn) access_grant)
        "at+jwt"

  abbrev pub access_row : AccessToken
  access_row = record {
    id = services.generate (s.drawn + 1 + 1 + 1);
    token_hash = services.hash_provider_secret signed;
    client_id = client_id;
    credential_id = row.credential_id;
    subject = row.subject;
    subject_token_issuer = row.subject_token_issuer;
    audience = row.audience;
    scopes = scopes;
    claims = row.claims;
    expires_at = s.clock + default_expires_in_seconds * 1000;
    created_at = s.clock;
    revoked_at = none;
  }

  abbrev pub drawn_state : State
  drawn_state = record s { drawn = s.drawn + 1 + 1 + 1 + 1 }

  abbrev pub response : TokenExchangeResponse
  response = record {
    access_token = signed;
    issued_token_type = access_token_type;
    expires_in = default_expires_in_seconds;
    scope = join scopes;
    refresh_token = some new_token;
  }

  pub rotate-answer :
      (deps : Directory)
      → rotate deps services client_id row scopes s
        ≡ answer row
            (rotate_refresh_token child access_row drawn_state).0
            response
            (rotate_refresh_token child access_row drawn_state).1
  unfolding rotate issue_jwt_access_token prepare_refresh_token fresh_id fresh_token now
  rotate-answer deps = refl

hash-consume :
    (o : Option String) (now : ℕ) (x : RefreshToken)
    → (consume_parent o now x).token_hash ≡ x.token_hash
hash-consume o now x = ground arith

pub find-kept-hash :
    (h : String) (x : RefreshToken) (xs : List RefreshToken)
    → (x.token_hash == h) ≡ true
    → find (λ x. x.token_hash == h) (x ∷ xs) ≡ some x
find-kept-hash h x xs kept = rw kept refl

pub find-dropped-hash :
    (h : String) (x : RefreshToken) (xs : List RefreshToken)
    → (x.token_hash == h) ≡ false
    → find (λ x. x.token_hash == h) (x ∷ xs) ≡ find (λ x. x.token_hash == h) xs
find-dropped-hash h x xs dropped = rw dropped refl

pub find-consumed :
    (h : String) (o : Option String) (now : ℕ) (xs ys : List RefreshToken) (row : RefreshToken)
    → find (λ x. x.token_hash == h) xs ≡ some row
    → find (λ x. x.token_hash == h) (map (consume_parent o now) (xs ++ ys))
      ≡ some (consume_parent o now row)
find-consumed h o now [] ys row e = cc
find-consumed h o now (x ∷ xs) ys row e = elim (Bool-cases (x.token_hash == h)) [
  | inl kept ↦
      rw (hash-consume o now x, kept)
        (ap (λ r. some (consume_parent o now (get_or r x))) (sym (find-kept-hash h x xs kept) ∙ e))
  | inr dropped ↦
      rw (hash-consume o now x, dropped)
        (find-consumed h o now xs ys row (sym (find-dropped-hash h x xs dropped) ∙ e))
]
