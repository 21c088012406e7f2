-- ===== src/Oauth/Identity.antt =====
-- internal/oauth/identity.go and internal/authn/oauth.go: who a login of the OAuth server is issued for,
-- and whether the access rules would let the token in.
use token_auth_proxy.Common.{
  ℕ, Bool, true, false, ◌&&◌, Option, none, some, List, [], ◌∷◌, is_empty, if◌then◌else◌,
}
use token_auth_proxy.Text.{Text, text, ◌==◌, trim_space}
use token_auth_proxy.Config.Oauth.{oauth_source_name}
use token_auth_proxy.Acl.{
  AclRule, Claim, str, strings, array, elems, Principal, claim_of, jwt_principal, acl_allows,
}

pub record Identity : Type 0 where
  pub mode : Text
  pub username : Text
  pub claims : List (Text × Claim)

-- config.TokenClaims
pub record TokenClaims : Type 0 where
  pub subject : Text
  pub email : Text
  pub groups : Text

abbrev first_of : List Text → Text
first_of [] = []
first_of (s ∷ ss) = s

abbrev first_str : List Claim → Text
first_str [] = []
first_str (str s ∷ cs) = s
first_str (_ ∷ cs) = first_str cs

unfoldable pub first_string : Claim → Text
first_string (str s) = s
first_string (strings l) = first_of l
first_string (array es) = first_str (elems es)
first_string _ = []

-- The closure `add` of stringList, which appends; here the rest follows.
abbrev add_group : Text → List Text → List Text
add_group s rest = let trimmed = trim_space s in if is_empty trimmed then rest else trimmed ∷ rest

abbrev add_strings : List Text → List Text
add_strings [] = []
add_strings (s ∷ ss) = add_group s (add_strings ss)

abbrev add_claims : List Claim → List Text
add_claims [] = []
add_claims (str s ∷ cs) = add_group s (add_claims cs)
add_claims (_ ∷ cs) = add_claims cs

unfoldable pub string_list : Claim → List Text
unfolding trim_space
string_list (str s) = add_group s []
string_list (strings l) = add_strings l
string_list (array es) = add_claims (elems es)
string_list _ = []

pub record Extracted : Type 0 where
  pub sub : Text
  pub email : Text
  pub groups : List Text

abbrev pub with_subject : TokenClaims → Identity → Text → Option Extracted
with_subject names id sub =
    if is_empty sub
    then none
    else some (record {
      sub = sub;
      email = first_string (claim_of id.claims names.email);
      groups = string_list (claim_of id.claims names.groups);
    })

-- `none` is the error of a login without a subject.
unfoldable pub extract : TokenClaims → Identity → Option Extracted
unfolding first_string string_list claim_of
extract names id =
    with_subject names id (
      if is_empty id.username then first_string (claim_of id.claims names.subject) else id.username)

-- What authenticate did: it responded, or went on with whom it found.
pub data Authenticated : Type 0 where
  responded : Authenticated
  passed : Option Principal → Authenticated

pub data LoginResult : Type 0 where
  already_responded nobody issued_token : LoginResult
  allowed : Identity → LoginResult

abbrev pub identity_of : Principal → Identity
identity_of p = record { mode = p.mode; username = p.username; claims = p.claims }

-- The authenticator that serveOAuth gives to ServeLogin. A token of the server itself is no login.
unfoldable pub login_result : Authenticated → LoginResult
login_result responded = already_responded
login_result (passed none) = nobody
login_result (passed (some p)) =
    if p.mode == text "jwt" && p.source == oauth_source_name
    then issued_token
    else allowed (identity_of p)

-- The principal that the token will have.
abbrev pub token_principal : Extracted → Principal
token_principal e =
    let issued = (text "sub", str e.sub) ∷ (text "groups", strings e.groups) ∷ [] in
    jwt_principal oauth_source_name
      (if is_empty e.email then issued else (text "email", str e.email) ∷ issued)

abbrev allows_at : (ℕ → Text) → List AclRule → Extracted → Option Text → Bool
allows_at format_float rules e none = false
allows_at format_float rules e (some path) =
    acl_allows format_float rules (some (token_principal e)) (text "POST") path

-- tokenPermit, for what the MCP URL parses to.
unfoldable pub token_permit : (ℕ → Text) → List AclRule → Option Text → Extracted → Bool
unfolding acl_allows
token_permit format_float rules mcp_path e =
    if is_empty rules then true else allows_at format_float rules e mcp_path
