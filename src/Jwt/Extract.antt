-- ===== src/Jwt/Extract.antt =====
-- Which credential of a request is used.
use token_auth_proxy.Common.{
  ◌≡◌, refl, sym, ap, ◌∙◌, inl, inr, Bool, true, false, Option, none, some, List, [], ◌∷◌, ◌++◌,
  if◌then◌else◌, All, Option-cases, subst, append_assoc,
}
use token_auth_proxy.Text.{Text}
use token_auth_proxy.Config.{CredentialLocation, JwtSource}
use token_auth_proxy.Jwt.{Carried, extract_from, extract_at, extract_token_from, login_source}

-- The places that are looked at: the locations of the sources that are not disabled, in order.
pub places_of : JwtSource → List CredentialLocation → List (JwtSource × CredentialLocation)
places_of src [] = []
places_of src (l ∷ ls) = (src, l) ∷ places_of src ls

pub places : List JwtSource → List (JwtSource × CredentialLocation)
places [] = []
places (src ∷ srcs) =
    let later = places srcs in
    if src.disabled then later else places_of src src.credentials ++ later

module _ (read_cookie : List Text → Text → Option Text) (c : Carried) where
  -- The credential is at a place, and no place before it has one.
  pub record Taken (ps : List (JwtSource × CredentialLocation)) (raw : Text)
      (login : Option JwtSource) : Type 0 where
    pub before : List (JwtSource × CredentialLocation)
    pub after : List (JwtSource × CredentialLocation)
    pub source : JwtSource
    pub location : CredentialLocation
    pub split : ps ≡ before ++ ((source, location) ∷ after)
    pub earlier : All (λ (s, l). extract_from read_cookie c l ≡ none) before
    pub found : extract_from read_cookie c location ≡ some raw
    pub from : login ≡ login_source read_cookie source location

  abbrev TakenFrom :
      List (JwtSource × CredentialLocation) → Option (Text × Option JwtSource) → Type 0
  TakenFrom ps none = All (λ (s, l). extract_from read_cookie c l ≡ none) ps
  TakenFrom ps (some (raw, login)) = Taken ps raw login

  All-append :
      (ps qs : List (JwtSource × CredentialLocation))
      → All (λ (s, l). extract_from read_cookie c l ≡ none) ps
      → All (λ (s, l). extract_from read_cookie c l ≡ none) qs
      → All (λ (s, l). extract_from read_cookie c l ≡ none) (ps ++ qs)
  All-append [] qs h k = k
  All-append (p ∷ ps) qs (h, hs) k = (h, All-append ps qs hs k)

  Taken-later :
      (s : JwtSource) (l : CredentialLocation) (ps : List (JwtSource × CredentialLocation))
      (o : Option (Text × Option JwtSource))
      → extract_from read_cookie c l ≡ none
      → TakenFrom ps o
      → TakenFrom ((s, l) ∷ ps) o
  Taken-later s l ps none n h = (n, h)
  Taken-later s l ps (some (raw, login)) n h = record {
    before = (s, l) ∷ h.before;
    after = h.after;
    source = h.source;
    location = h.location;
    split = ap (λ (x : List (JwtSource × CredentialLocation)). (s, l) ∷ x) h.split;
    earlier = (n, h.earlier);
    found = h.found;
    from = h.from;
  }

  extract_at-TakenFrom :
      (src : JwtSource) (ls : List CredentialLocation)
      → TakenFrom (places_of src ls) (extract_at read_cookie c src ls)
  unfolding extract_at places_of
  extract_at-TakenFrom src [] = tt
  extract_at-TakenFrom src (l ∷ ls) = elim (Option-cases (extract_from read_cookie c l)) [
    | inl n ↦
        rw (n, extract_at)
          (Taken-later src l (places_of src ls) (extract_at read_cookie c src ls) n
            (extract_at-TakenFrom src ls))
    | inr (v, e) ↦
        rw (e, extract_at, TakenFrom)
          (record {
            before = [];
            after = places_of src ls;
            source = src;
            location = l;
            split = refl;
            earlier = tt;
            found = e;
            from = refl;
          })
  ]

  TakenFrom-append :
      (ps qs : List (JwtSource × CredentialLocation)) (o later : Option (Text × Option JwtSource))
      → TakenFrom ps o
      → TakenFrom qs later
      → TakenFrom (ps ++ qs) (elim o [ none ↦ later | some found ↦ some found ])
  TakenFrom-append ps qs none none h k = All-append ps qs h k
  TakenFrom-append ps qs none (some (raw, login)) h k = record {
    before = ps ++ k.before;
    after = k.after;
    source = k.source;
    location = k.location;
    split =
        ap (λ (x : List (JwtSource × CredentialLocation)). ps ++ x) k.split
        ∙ sym (append_assoc ps k.before ((k.source, k.location) ∷ k.after));
    earlier = All-append ps k.before h k.earlier;
    found = k.found;
    from = k.from;
  }
  TakenFrom-append ps qs (some (raw, login)) later h k = record {
    before = h.before;
    after = h.after ++ qs;
    source = h.source;
    location = h.location;
    split =
        ap (λ (x : List (JwtSource × CredentialLocation)). x ++ qs) h.split
        ∙ append_assoc h.before ((h.source, h.location) ∷ h.after) qs;
    earlier = h.earlier;
    found = h.found;
    from = h.from;
  }

  TakenFrom-skip :
      (b : Bool) (ps qs : List (JwtSource × CredentialLocation))
      (o later : Option (Text × Option JwtSource))
      → TakenFrom qs later
      → TakenFrom ps o
      → TakenFrom (if b then qs else ps) (if b then later else o)
  TakenFrom-skip true ps qs o later h k = h
  TakenFrom-skip false ps qs o later h k = k

  pub extract_all-TakenFrom :
      (srcs : List JwtSource) → TakenFrom (places srcs) (extract_token_from read_cookie c srcs)
  unfolding extract_token_from places
  extract_all-TakenFrom [] = tt
  extract_all-TakenFrom (src ∷ srcs) =
      let later = extract_all-TakenFrom srcs in
      TakenFrom-skip src.disabled (places_of src src.credentials ++ places srcs) (places srcs) _
        (extract_token_from read_cookie c srcs) later
        (TakenFrom-append (places_of src src.credentials) (places srcs)
          (extract_at read_cookie c src src.credentials) (extract_token_from read_cookie c srcs)
          (extract_at-TakenFrom src src.credentials) later)

  -- The token that is used comes from the first place, in the order of the sources that are not
  -- disabled and of their locations, at which a credential can be read, and it counts as a login
  -- cookie exactly if that place is one.
  pub extract_token_from-Taken :
      (srcs : List JwtSource) (raw : Text) (login : Option JwtSource)
      → extract_token_from read_cookie c srcs ≡ some (raw, login)
      → Taken (places srcs) raw login
  extract_token_from-Taken srcs raw login h =
      subst (TakenFrom (places srcs)) h (extract_all-TakenFrom srcs)

  -- No token is used exactly where no place has a credential that can be read.
  pub extract_token_from-none :
      (srcs : List JwtSource)
      → extract_token_from read_cookie c srcs ≡ none
      → All (λ (s, l). extract_from read_cookie c l ≡ none) (places srcs)
  extract_token_from-none srcs h = subst (TakenFrom (places srcs)) h (extract_all-TakenFrom srcs)
