-- ===== src/PromLabel/Resolve/Values.antt =====
-- Values of labels: what internal/config/promlabel.go sorts and compacts comes from the claim.
use token_auth_proxy.Common.{
  ◌≡◌, ◌≢◌, sym, ap, ◌∙◌, ◌⊎◌, inl, inr, Option, none, some, List, [], ◌∷◌, Some, In, Bool-cases,
  Option-cases,
}
use token_auth_proxy.Text.{Text, ◌==◌}
use token_auth_proxy.PromLabel.Resolve.{
  PromLabel, text_le, insert, sort, without_head, compact, nonempty, label_value, add, last_or,
  mapped_values, label_values,
}

In-insert : (x v : Text) (vs : List Text) → In x (insert v vs) → (x ≡ v) ⊎ In x vs
unfolding insert
In-insert x v [] h = h
In-insert x v (w ∷ ws) h = elim (Bool-cases (text_le v w)) [
  | inl t ↦ rw (t, insert) at h
  | inr f ↦
      let k : (x ≡ w) ⊎ In x (insert v ws) = rw (f, insert) at h in
      elim k [
        | inl e ↦ inr (inl e)
        | inr m ↦ elim (In-insert x v ws m) [ inl e ↦ inl e | inr n ↦ inr (inr n) ]
      ]
]

In-sort : (x : Text) (vs : List Text) → In x (sort vs) → In x vs
unfolding sort
In-sort x [] h = h
In-sort x (v ∷ vs) h = elim (In-insert x v (sort vs) h) [
  | inl e ↦ inl e
  | inr m ↦ inr (In-sort x vs m)
]

In-without_head : (x v : Text) (vs : List Text) → In x (without_head v vs) → (x ≡ v) ⊎ In x vs
In-without_head x v [] h = h
In-without_head x v (w ∷ ws) h = elim (Bool-cases (v == w)) [
  | inl t ↦ inr (rw (t, without_head) at h)
  | inr f ↦ rw (f, without_head) at h
]

In-compact : (x : Text) (vs : List Text) → In x (compact vs) → In x vs
unfolding compact
In-compact x [] h = h
In-compact x (v ∷ vs) h = elim (In-without_head x v (compact vs) h) [
  | inl e ↦ inl e
  | inr m ↦ inr (In-compact x vs m)
]

In-mapped_values :
    (l : PromLabel) (x : Text) (claim : List Text)
    → In x (mapped_values l claim)
    → Some (λ c. label_value l.pattern c ≡ some x) claim
unfolding mapped_values
In-mapped_values l x [] h = h
In-mapped_values l x (v ∷ vs) h = elim (Option-cases (label_value l.pattern v)) [
  | inl n ↦ inr (In-mapped_values l x vs (rw (n, add) at h))
  | inr (w, e) ↦
      let k : (x ≡ w) ⊎ In x (mapped_values l vs) = rw (e, add) at h in
      elim k [ inl q ↦ inl (e ∙ ap some (sym q)) | inr m ↦ inr (In-mapped_values l x vs m) ]
]

nonempty-ne : (s x : Text) → nonempty s ≡ some x → x ≢ []
nonempty-ne [] x h = λ e. cc
nonempty-ne (c ∷ s) x h = λ e. cc

label_value-ne :
    (find : Option (Text → Option (List Text))) (c x : Text) → label_value find c ≡ some x → x ≢ []
unfolding label_value
label_value-ne none c x h = nonempty-ne c x h
label_value-ne (some find) c x h = elim (Option-cases (find c)) [
  | inl n ↦ absurd (let k : none ≡ some x = rw n at h in cc)
  | inr (m, e) ↦ nonempty-ne (last_or [] m) x (rw e at h)
]

-- Every value of a label is what the label's pattern makes of some value of the claim.
pub label_values-from :
    (l : PromLabel) (x : Text) (claim : List Text)
    → In x (label_values l claim)
    → Some (λ c. label_value l.pattern c ≡ some x) claim
unfolding label_values
label_values-from l x claim h =
    In-mapped_values l x claim (In-sort x (mapped_values l claim) (In-compact x _ h))

pub Some-ne :
    (find : Option (Text → Option (List Text))) (x : Text) (claim : List Text)
    → Some (λ c. label_value find c ≡ some x) claim
    → x ≢ []
Some-ne find x [] h = absurd h
Some-ne find x (c ∷ cs) h = elim h [
  | inl e ↦ label_value-ne find c x e
  | inr m ↦ Some-ne find x cs m
]
