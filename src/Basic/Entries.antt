-- ===== src/Basic/Entries.antt =====
-- The maps of internal/authn/basic.go from a key to the time at which its entry expires.
use token_auth_proxy.Common.{
  ℕ, ◌≤◌, ◌≡◌, refl, Option, none, some, List, [], ◌∷◌, if◌then◌else◌, length, All, In, Bool-cases,
  arith, inl, inr, subst, sym,
}
use token_auth_proxy.Text.{Text, ◌==◌, ==_iff}

abbrev pub Cache : Type 0
Cache = List (Text × ℕ)

unfoldable pub find : Cache → Text → Option ℕ
find [] key = none
find ((k, exp) ∷ m) key = let later = find m key in if k == key then some exp else later

unfoldable pub delete : Text → Cache → Cache
delete key [] = []
delete key ((k, exp) ∷ m) = let rest = delete key m in if k == key then rest else (k, exp) ∷ rest

unfoldable pub put : Text → ℕ → Cache → Cache
unfolding delete
put key exp m = (key, exp) ∷ delete key m

pub All-delete : (P : Text × ℕ → Type 0) (key : Text) (m : Cache) → All P m → All P (delete key m)
unfolding delete
All-delete P key [] h = tt
All-delete P key ((k, exp) ∷ m) (h, hs) = elim (Bool-cases (k == key)) [
  | inl t ↦ rw t (All-delete P key m hs)
  | inr f ↦ rw f (h, All-delete P key m hs)
]

pub length-delete : (key : Text) (m : Cache) → length (delete key m) ≤ length m
unfolding delete
length-delete key [] = omega arith
length-delete key ((k, exp) ∷ m) = elim (Bool-cases (k == key)) [
  | inl t ↦ rw t (let h = length-delete key m in omega (arith, h))
  | inr f ↦ rw f (let h = length-delete key m in omega (arith, h))
]

-- A key that is found stands in the map.
pub find-In : (m : Cache) (key : Text) (exp : ℕ) → find m key ≡ some exp → In (key, exp) m
unfolding find
find-In [] key exp h = absurd cc
find-In ((k, e) ∷ m) key exp h = elim (Bool-cases (k == key)) [
  | inl t ↦ inl (same ((==_iff k key).0 t) (rw t at h))
  | inr f ↦ inr (find-In m key exp (rw f at h))
]
  where
    same :
        {k key : Text} {e exp : ℕ}
        → k ≡ key
        → some e ≡ some exp
        → ◌≡◌ {A = Text × ℕ} (key, exp) (k, e)
    same p q = cc

-- What is put under a key is found there, and a deleted key is not.
pub find-put : (m : Cache) (key : Text) (exp : ℕ) → find (put key exp m) key ≡ some exp
unfolding find put
find-put m key exp = rw ((==_iff key key).1 refl) refl

pub find-delete : (m : Cache) (key : Text) → find (delete key m) key ≡ none
unfolding find delete
find-delete [] key = refl
find-delete ((k, e) ∷ m) key = elim (Bool-cases (k == key)) [
  | inl t ↦ rw t (find-delete m key)
  | inr f ↦ rw f (rw f (find-delete m key))
]

pub All-In {ℓ} : {A : Type 0} (P : A → Type ℓ) (x : A) (xs : List A) → All P xs → In x xs → P x
All-In P x [] h m = absurd m
All-In P x (y ∷ ys) (h, hs) m = elim m [ inl e ↦ subst P (sym e) h | inr n ↦ All-In P x ys hs n ]

pub All-find :
    (P : Text × ℕ → Type 0) (m : Cache) (key : Text) (exp : ℕ)
    → All P m
    → find m key ≡ some exp
    → P (key, exp)
All-find P m key exp h e = All-In P (key, exp) m h (find-In m key exp e)
