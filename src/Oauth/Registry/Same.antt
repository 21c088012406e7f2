-- ===== src/Oauth/Registry/Same.antt =====
-- internal/oauth/server.go: what two configurations of one fingerprint have in common.
use token_auth_proxy.Common.{
  ◌≡◌, ◌≢◌, refl, sym, ap, ap₂, ◌∙◌, ◌⊎◌, inl, inr, Bool, true, false, List, [], ◌∷◌, ◌++◌, All,
  if◌then◌else◌, append_assoc, arith, ℕ,
}
use token_auth_proxy.Text.{Text, text}
use token_auth_proxy.Oauth.Clients.{Client}
use token_auth_proxy.Oauth.Registry.{
  ServerConfig, signing_parts, sealing_parts, client_parts, fingerprint_parts,
}

-- The settings that a server is built from.
pub record SameServer (a b : ServerConfig) : Type 0 where
  pub sp_base_url : a.sp_base_url ≡ b.sp_base_url
  pub mcp_url : a.mcp_url ≡ b.mcp_url
  pub audience : a.audience ≡ b.audience
  pub signing_keys : a.signing_keys ≡ b.signing_keys
  pub sealing_keys : a.sealing_keys ≡ b.sealing_keys
  pub clients : a.clients ≡ b.clients
  pub registration_enabled : a.registration_enabled ≡ b.registration_enabled

pub refl-Same : (a : ServerConfig) → SameServer a a
refl-Same a = record {
  sp_base_url = refl;
  mcp_url = refl;
  audience = refl;
  signing_keys = refl;
  sealing_keys = refl;
  clients = refl;
  registration_enabled = refl;
}

-- No redirect URI reads like one of the words that mark what follows.
abbrev pub Unmarked : Text → Type 0
Unmarked u = (u ≢ text "client") × (u ≢ text "register")

abbrev pub PlainUris : List Client → Type 0
PlainUris cs = All (λ (c : Client). All Unmarked c.redirect_uris) cs

abbrev head_of : List Text → Text
head_of [] = []
head_of (t ∷ ts) = t

-- Whether the list starts with the marker of another part.
abbrev Marked : List Text → Type 0
Marked ts = (head_of ts ≡ text "client") ⊎ (head_of ts ≡ text "register")

abbrev lead_of : Text → ℕ
lead_of (c ∷ t) = c
lead_of _ = 0

abbrev second_of : Text → ℕ
second_of (c ∷ d ∷ t) = d
second_of _ = 0

signing-eq :
    (ks ls : List (Text × Text)) (a b : List Text)
    → head_of a ≢ text "sig"
    → head_of b ≢ text "sig"
    → signing_parts ks ++ a ≡ signing_parts ls ++ b
    → (ks ≡ ls) × (a ≡ b)
signing-eq [] [] a b n m e = (refl, e)
signing-eq [] (l ∷ ls) a b n m e = absurd (n (ap head_of e))
signing-eq (k ∷ ks) [] a b n m e = absurd (m (sym (ap head_of e)))
signing-eq ((kid, key) ∷ ks) ((kid', key') ∷ ls) a b n m e =
    let same_kid : kid ≡ kid' = cc in
    let same_key : key ≡ key' = cc in
    let (rest, behind) = signing-eq ks ls a b n m cc in
    (ap₂ ◌∷◌ (ap₂ (λ x y. (x, y)) same_kid same_key) rest, behind)

sealing-eq :
    (ks ls a b : List Text)
    → head_of a ≢ text "seal"
    → head_of b ≢ text "seal"
    → sealing_parts ks ++ a ≡ sealing_parts ls ++ b
    → (ks ≡ ls) × (a ≡ b)
sealing-eq [] [] a b n m e = (refl, e)
sealing-eq [] (l ∷ ls) a b n m e = absurd (n (ap head_of e))
sealing-eq (k ∷ ks) [] a b n m e = absurd (m (sym (ap head_of e)))
sealing-eq (k ∷ ks) (l ∷ ls) a b n m e =
    let same : k ≡ l = cc in
    let (rest, behind) = sealing-eq ks ls a b n m cc in (ap₂ ◌∷◌ same rest, behind)

Marked-Unmarked : (ts us : List Text) (u : Text) → Marked ts → Unmarked u → ts ≢ u ∷ us
Marked-Unmarked ts us u (inl m) (n, _) e = n (sym (ap head_of e) ∙ m)
Marked-Unmarked ts us u (inr m) (_, n) e = n (sym (ap head_of e) ∙ m)

uris-eq :
    (us vs a b : List Text)
    → All Unmarked us
    → All Unmarked vs
    → Marked a
    → Marked b
    → us ++ a ≡ vs ++ b
    → (us ≡ vs) × (a ≡ b)
uris-eq [] [] a b p q n m e = (refl, e)
uris-eq [] (v ∷ vs) a b p q n m e = absurd (Marked-Unmarked a (vs ++ b) v n q.0 e)
uris-eq (u ∷ us) [] a b p q n m e = absurd (Marked-Unmarked b (us ++ a) u m p.0 (sym e))
uris-eq (u ∷ us) (v ∷ vs) a b p q n m e =
    let same : u ≡ v = cc in
    let (rest, behind) = uris-eq us vs a b p.1 q.1 n m cc in (ap₂ ◌∷◌ same rest, behind)

client_parts-Marked :
    (cs : List Client) (a : List Text) → head_of a ≡ text "register" → Marked (client_parts cs ++ a)
client_parts-Marked [] a h = inr h
client_parts-Marked (c ∷ cs) a h = inl refl

client_is_no_end : text "client" ≢ text "register"
client_is_no_end e = let k = ap second_of e in ground arith

clients-eq :
    (cs ds : List Client) (a b : List Text)
    → PlainUris cs
    → PlainUris ds
    → head_of a ≡ text "register"
    → head_of b ≡ text "register"
    → client_parts cs ++ a ≡ client_parts ds ++ b
    → (cs ≡ ds) × (a ≡ b)
clients-eq [] [] a b p q n m e = (refl, e)
clients-eq [] (d ∷ ds) a b p q n m e = absurd (client_is_no_end (sym (ap head_of e) ∙ n))
clients-eq (c ∷ cs) [] a b p q n m e = absurd (client_is_no_end (ap head_of e ∙ m))
clients-eq (c ∷ cs) (d ∷ ds) a b p q n m e =
    let same_id : c.id ≡ d.id = cc in
    let behind_id : (c.redirect_uris ++ client_parts cs) ++ a
        ≡ (d.redirect_uris ++ client_parts ds) ++ b =
      cc in
    let (uris, more) =
      uris-eq c.redirect_uris d.redirect_uris (client_parts cs ++ a) (client_parts ds ++ b) p.0 q.0
        (client_parts-Marked cs a n) (client_parts-Marked ds b m)
        (sym (append_assoc c.redirect_uris (client_parts cs) a)
          ∙ behind_id
          ∙ append_assoc d.redirect_uris (client_parts ds) b) in
    let (rest, behind) = clients-eq cs ds a b p.1 q.1 n m more in
    (ap₂ ◌∷◌ (ap₂ (λ i us. record { id = i; redirect_uris = us }) same_id uris) rest, behind)

flag-eq :
    (b c : Bool)
    → (if b then text "true" else text "false") ≡ (if c then text "true" else text "false")
    → b ≡ c
flag-eq true true e = refl
flag-eq false false e = refl
flag-eq true false e = absurd (let k = ap second_of e in ground arith)
flag-eq false true e = absurd (let k = ap second_of e in ground arith)

Marked-no_seal : (ts : List Text) → Marked ts → head_of ts ≢ text "seal"
Marked-no_seal ts (inl m) e = let k = ap second_of (sym m ∙ e) in ground arith
Marked-no_seal ts (inr m) e = let k = ap lead_of (sym m ∙ e) in ground arith

Marked-no_sig : (ts : List Text) → Marked ts → head_of ts ≢ text "sig"
Marked-no_sig ts (inl m) e = let k = ap second_of (sym m ∙ e) in ground arith
Marked-no_sig ts (inr m) e = let k = ap lead_of (sym m ∙ e) in ground arith

sealing_parts-no_sig :
    (ks ts : List Text) → Marked ts → head_of (sealing_parts ks ++ ts) ≢ text "sig"
sealing_parts-no_sig [] ts m = Marked-no_sig ts m
sealing_parts-no_sig (k ∷ ks) ts m = λ e. absurd (let z = ap second_of e in ground arith)

abbrev end_of : ServerConfig → List Text
end_of cfg = text "register" ∷ (if cfg.registration_enabled then text "true" else text "false") ∷ []

-- The parts of a configuration say which settings it has.
pub fingerprint_parts-Same :
    (a b : ServerConfig)
    → PlainUris a.clients
    → PlainUris b.clients
    → fingerprint_parts a ≡ fingerprint_parts b
    → SameServer a b
fingerprint_parts-Same a b p q e =
    let clients_marked = client_parts-Marked a.clients (end_of a) refl in
    let clients_marked' = client_parts-Marked b.clients (end_of b) refl in
    let sp : a.sp_base_url ≡ b.sp_base_url = cc in
    let mcp : a.mcp_url ≡ b.mcp_url = cc in
    let aud : a.audience ≡ b.audience = cc in
    let behind : signing_parts a.signing_keys
          ++ (sealing_parts a.sealing_keys ++ (client_parts a.clients ++ end_of a))
        ≡ signing_parts b.signing_keys
          ++ (sealing_parts b.sealing_keys ++ (client_parts b.clients ++ end_of b)) =
      cc in
    let (signing, behind_signing) =
      signing-eq a.signing_keys b.signing_keys _ _
        (sealing_parts-no_sig a.sealing_keys (client_parts a.clients ++ end_of a) clients_marked)
        (sealing_parts-no_sig b.sealing_keys (client_parts b.clients ++ end_of b) clients_marked')
        behind in
    let (sealing, behind_sealing) =
      sealing-eq a.sealing_keys b.sealing_keys (client_parts a.clients ++ end_of a)
        (client_parts b.clients ++ end_of b)
        (Marked-no_seal (client_parts a.clients ++ end_of a) clients_marked)
        (Marked-no_seal (client_parts b.clients ++ end_of b) clients_marked') behind_signing in
    let (clients, ends) =
      clients-eq a.clients b.clients (end_of a) (end_of b) p q refl refl behind_sealing in
    record {
      sp_base_url = sp;
      mcp_url = mcp;
      audience = aud;
      signing_keys = signing;
      sealing_keys = sealing;
      clients = clients;
      registration_enabled = flag-eq a.registration_enabled b.registration_enabled cc;
    }
