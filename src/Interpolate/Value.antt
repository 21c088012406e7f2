-- ===== src/Interpolate/Value.antt =====
-- The walk over the parsed document. A mapping's keys are texts, or the printed form of other keys.
pub mod Shape
use token_auth_proxy.Common.{ℕ}
use token_auth_proxy.Text.{Text}
use token_auth_proxy.Interpolate.{Result, ok, err, World, interpolate_string}

mutual
  pub data Value : Type 0 where
    str : Text → Value
    mapping : Fields → Value
    sequence : Items → Value
    -- Numbers, Booleans, times and nil, by an index that is not read.
    other : ℕ → Value

  pub data Fields : Type 0 where
    end : Fields
    field : Text → Value → Fields → Fields

  pub data Items : Type 0 where
    nil : Items
    cons : Value → Items → Items

abbrev pub fmap {ℓ κ} : {A : Type ℓ} {B : Type κ} → (A → B) → Result A → Result B
fmap f (ok a) = ok (f a)
fmap f (err e) = err e

-- The first error is returned.
abbrev pub both {ℓ κ μ} :
    {A : Type ℓ} {B : Type κ} {C : Type μ} → (A → B → C) → Result A → Result B → Result C
both f (ok a) (ok b) = ok (f a b)
both f (ok a) (err e) = err e
both f (err e) r = err e

module _ (world : World) where
  unfoldable mutual
    pub interpolate_value : Value → Result Value
    interpolate_value (str s) = fmap str (interpolate_string world s)
    interpolate_value (mapping fs) = fmap mapping (interpolate_fields fs)
    interpolate_value (sequence is) = fmap sequence (interpolate_items is)
    interpolate_value (other n) = ok (other n)

    pub interpolate_fields : Fields → Result Fields
    interpolate_fields end = ok end
    interpolate_fields (field k v fs) = both (field k) (interpolate_value v) (interpolate_fields fs)

    pub interpolate_items : Items → Result Items
    interpolate_items nil = ok nil
    interpolate_items (cons v is) = both cons (interpolate_value v) (interpolate_items is)
