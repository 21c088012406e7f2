-- ===== src/Saml/Session/Attributes.antt =====
-- internal/authn/saml_session.go: which attributes a new session has.
use token_auth_proxy.Common.{
  ℕ, ◌≡◌, refl, sym, ap, ◌∙◌, Bool, true, false, List, [], ◌∷◌, ◌++◌, append_assoc, append-nil,
  if◌then◌else◌, Bool-cases, inl, inr,
}
use token_auth_proxy.Text.{Text, ◌==◌, ==_iff}
use token_auth_proxy.Saml.Session.{
  Attributes, Attribute, Assertion, SessionCodec, Hs256, values_at, append_at, name_of, add_values,
  add_attributes, add_statements, session_index, new_session,
}

-- The values that stand under a name, without the map that collects them.
abbrev pub only : Text → Text → List Text → List Text
only key name values = if name == key then values else []

abbrev pub in_attributes : Text → List Attribute → List Text
in_attributes key [] = []
in_attributes key (a ∷ rest) = only key (name_of a) a.values ++ in_attributes key rest

abbrev pub in_statements : Text → List (List Attribute) → List Text
in_statements key [] = []
in_statements key (s ∷ ss) = in_attributes key s ++ in_statements key ss

values_at-append_at :
    (key k v : Text) (m : Attributes)
    → values_at key (append_at k v m) ≡ values_at key m ++ only key k (v ∷ [])
unfolding values_at append_at
values_at-append_at key k v [] = elim (Bool-cases (k == key)) [
  | inl t ↦ rw t refl
  | inr f ↦ rw f refl
]
values_at-append_at key k v ((n, vs) ∷ m) = elim (Bool-cases (n == k)) [
  | inl t ↦ elim (Bool-cases (n == key)) [
    | inl e ↦ rw t (rw e (rw (ap (λ x. x == key) (sym ((==_iff n k).0 t)) ∙ e) refl))
    | inr g ↦ rw t (
        rw g (
          rw (ap (λ x. x == key) (sym ((==_iff n k).0 t)) ∙ g)
            (sym (append-nil (values_at key m)))))
  ]
  | inr f ↦ elim (Bool-cases (n == key)) [
    | inl e ↦ rw f (rw e (rw (differs n k key f e) (sym (append-nil vs))))
    | inr g ↦ rw f (rw g (values_at-append_at key k v m))
  ]
]
  where
    differs : (n k key : Text) → n == k ≡ false → n == key ≡ true → k == key ≡ false
    differs n k key f e = elim (Bool-cases (k == key)) [
      | inr g ↦ g
      | inl t ↦
          let same : n ≡ k = (==_iff n key).0 e ∙ sym ((==_iff k key).0 t) in
          let here : n == k ≡ true = (==_iff n k).1 same in absurd cc
    ]

values_at-add_values :
    (key k : Text) (vs : List Text) (m : Attributes)
    → values_at key (add_values k vs m) ≡ values_at key m ++ only key k vs
unfolding add_values
values_at-add_values key k [] m =
    sym (append-nil (values_at key m)) ∙ ap (λ r. values_at key m ++ r) (none_there (k == key))
  where
    none_there : (b : Bool) → ◌≡◌ {A = List Text} [] (if b then [] else [])
    none_there true = refl
    none_there false = refl
values_at-add_values key k (v ∷ vs) m =
    values_at-add_values key k vs (append_at k v m)
    ∙ (ap (λ r. r ++ only key k vs) (values_at-append_at key k v m)
        ∙ (append_assoc (values_at key m) (only key k (v ∷ [])) (only key k vs)
            ∙ ap (λ r. values_at key m ++ r) (one_more (k == key))))
  where
    one_more :
        (b : Bool)
        → (if b then v ∷ [] else []) ++ (if b then vs else []) ≡ (if b then v ∷ vs else [])
    one_more true = refl
    one_more false = refl

values_at-add_attributes :
    (key : Text) (as' : List Attribute) (m : Attributes)
    → values_at key (add_attributes as' m) ≡ values_at key m ++ in_attributes key as'
unfolding add_attributes
values_at-add_attributes key [] m = sym (append-nil (values_at key m))
values_at-add_attributes key (a ∷ rest) m =
    values_at-add_attributes key rest (add_values (name_of a) a.values m)
    ∙ (ap (λ r. r ++ in_attributes key rest) (values_at-add_values key (name_of a) a.values m)
        ∙ append_assoc (values_at key m) (only key (name_of a) a.values) (in_attributes key rest))

values_at-add_statements :
    (key : Text) (ss : List (List Attribute)) (m : Attributes)
    → values_at key (add_statements ss m) ≡ values_at key m ++ in_statements key ss
unfolding add_statements
values_at-add_statements key [] m = sym (append-nil (values_at key m))
values_at-add_statements key (s ∷ ss) m =
    values_at-add_statements key ss (add_attributes s m)
    ∙ (ap (λ r. r ++ in_statements key ss) (values_at-add_attributes key s m)
        ∙ append_assoc (values_at key m) (in_attributes key s) (in_statements key ss))

-- A new session has under each name the values of the assertion's attributes of that friendly name, or of
-- that name where they have no friendly one, in order, and under SessionIndex the indices after these.
values_at-new_session :
    {T : Type 0} (lib : Hs256 T) (c : SessionCodec) (now : ℕ) (a : Assertion) (key : Text)
    → values_at key (new_session lib c now a).attributes
      ≡ in_statements key a.attribute_statements ++ only key session_index a.session_indices
unfolding new_session values_at
values_at-new_session lib c now a key =
    values_at-add_values key session_index a.session_indices
      (add_statements a.attribute_statements [])
    ∙ ap (λ r. r ++ only key session_index a.session_indices)
        (values_at-add_statements key a.attribute_statements [])
