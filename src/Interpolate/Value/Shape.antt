-- ===== src/Interpolate/Value/Shape.antt =====
-- Interpolation changes texts and nothing else of a document.
use token_auth_proxy.Common.{◌≡◌, refl, sym, ap, ap₂, ◌∙◌, []}
use token_auth_proxy.Interpolate.{Result, ok, err, World, interpolate_string}
use token_auth_proxy.Interpolate.Value.{
  Value, str, mapping, sequence, other, Fields, end, field, Items, nil, cons, fmap, both,
  interpolate_value, interpolate_fields, interpolate_items,
}

-- A document with its texts taken out: its keys, its nesting and its other values.
mutual
  pub shape : Value → Value
  shape (str s) = str []
  shape (mapping fs) = mapping (shape_fields fs)
  shape (sequence is) = sequence (shape_items is)
  shape (other n) = other n

  pub shape_fields : Fields → Fields
  shape_fields end = end
  shape_fields (field k v fs) = field k (shape v) (shape_fields fs)

  pub shape_items : Items → Items
  shape_items nil = nil
  shape_items (cons v is) = cons (shape v) (shape_items is)

fmap-ok {ℓ κ} :
    {A : Type ℓ} {B : Type κ} (f : A → B) (r : Result A) (b : B)
    → fmap f r ≡ ok b
    → (a : A) × (r ≡ ok a) × (b ≡ f a)
fmap-ok f (ok a) b h = (a, refl, cc)
fmap-ok f (err e) b h = absurd cc

both-ok {ℓ κ μ} :
    {A : Type ℓ} {B : Type κ} {C : Type μ} (f : A → B → C) (r : Result A) (q : Result B) (c : C)
    → both f r q ≡ ok c
    → (a : A) × (b : B) × (r ≡ ok a) × (q ≡ ok b) × (c ≡ f a b)
both-ok f (ok a) (ok b) c h = (a, b, refl, refl, cc)
both-ok f (ok a) (err e) c h = absurd cc
both-ok f (err e) q c h = absurd cc

module _ (world : World) where
  mutual
    unfolding interpolate_value interpolate_fields interpolate_items shape shape_fields shape_items

    shape-value : (v w : Value) → interpolate_value world v ≡ ok w → shape w ≡ shape v
    shape-value (str s) w h =
        let (t, e, k) = fmap-ok str (interpolate_string world s) w h in ap shape k
    shape-value (mapping fs) w h =
        let (gs, e, k) = fmap-ok mapping (interpolate_fields world fs) w h in
        ap shape k ∙ ap mapping (shape-fields fs gs e)
    shape-value (sequence is) w h =
        let (js, e, k) = fmap-ok sequence (interpolate_items world is) w h in
        ap shape k ∙ ap sequence (shape-items is js e)
    shape-value (other n) w h = ap shape (let e : other n ≡ w = cc in sym e)

    shape-fields :
        (fs gs : Fields) → interpolate_fields world fs ≡ ok gs → shape_fields gs ≡ shape_fields fs
    shape-fields end gs h = ap shape_fields (let e : end ≡ gs = cc in sym e)
    shape-fields (field k v fs) gs h =
        let (w, r, e, q, c) =
          both-ok (field k) (interpolate_value world v) (interpolate_fields world fs) gs h in
        ap shape_fields c ∙ ap₂ (field k) (shape-value v w e) (shape-fields fs r q)

    shape-items :
        (is js : Items) → interpolate_items world is ≡ ok js → shape_items js ≡ shape_items is
    shape-items nil js h = ap shape_items (let e : nil ≡ js = cc in sym e)
    shape-items (cons v is) js h =
        let (w, r, e, q, c) =
          both-ok cons (interpolate_value world v) (interpolate_items world is) js h in
        ap shape_items c ∙ ap₂ cons (shape-value v w e) (shape-items is r q)

  -- Whatever the references of a document resolve to, the interpolated document has the same keys,
  -- the same nesting, and the same values but for texts.
  pub interpolate_value-shape : (v w : Value) → interpolate_value world v ≡ ok w → shape w ≡ shape v
  interpolate_value-shape v w h = shape-value v w h
