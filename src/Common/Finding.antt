-- ===== src/Common/Finding.antt =====
-- The first element of a list that passes a test.
use mathlib.Core.Path.{◌≡◌, refl}
use mathlib.Core.Bool.{Bool, true, false}
use mathlib.Core.List.{List, [], ◌∷◌, ◌++◌}
use token_auth_proxy.Common.Lists.{All}

-- `x` passes the test, and no element before it does.
pub record First {A : Type 0} (test : A → Bool) (xs : List A) (x : A) : Type 0 where
  pub before : List A
  pub after : List A
  pub split : xs ≡ before ++ x ∷ after
  pub earlier : All (λ y. test y ≡ false) before
  pub passes : test x ≡ true

module _ {A : Type 0} (test : A → Bool) where
  pub First-here : (x : A) (xs : List A) → test x ≡ true → First test (x ∷ xs) x
  First-here x xs t = record { before = []; after = xs; split = refl; earlier = tt; passes = t }

  pub First-later :
      (y x : A) (xs : List A) → test y ≡ false → First test xs x → First test (y ∷ xs) x
  First-later y x xs f h = record {
    before = y ∷ h.before;
    after = h.after;
    split = λ i. y ∷ h.split i;
    earlier = (f, h.earlier);
    passes = h.passes;
  }
