-- ===== src/PromLabel/Silences.antt =====
-- internal/promlabel/silences.go: who owns a silence, and the matchers that one may be given.
-- A silence's other fields are raw JSON that the code passes on unread.
pub mod Owned
use token_auth_proxy.Common.{
  Bool, true, false, not, ◌&&◌, ◌||◌, Option, none, some, List, [], ◌∷◌, ◌++◌, any, all, keep,
  is_empty, if◌then◌else◌,
}
use token_auth_proxy.Text.{Text, ◌==◌}
use token_auth_proxy.PromLabel.Scope.{Label, allows}

pub record Matcher : Type 0 where
  pub name : Text
  pub value : Text
  pub is_regex : Bool
  pub is_equal : Option Bool

abbrev pub equality : Matcher → Bool
equality m = not m.is_regex && elim m.is_equal [ none ↦ true | some b ↦ b ]

abbrev pub pins : Label → Matcher → Bool
pins l m = m.name == l.name && (equality m && allows l m.value)

-- For every enforced label, an equality matcher on a value that the caller holds.
unfoldable pub owns : List Label → List Matcher → Bool
owns ls ms = all (λ l. any (pins l) ms) ls

pub data SilenceError : Type 0 where
  only_enforced : SilenceError
  repeated forbidden several_values : Text → SilenceError

pub data Scoped : Type 0 where
  scoped : List Matcher → Scoped
  refused : SilenceError → Scoped

abbrev pub enforced : List Label → Matcher → Bool
enforced ls m = any (λ l. l.name == m.name) ls

abbrev pub named : Label → List Matcher → List Matcher
named l ms = keep (λ m. m.name == l.name) ms

-- The matcher that one label ends up with.
pub data Pinned : Type 0 where
  pinned : Matcher → Pinned
  not_pinned : SilenceError → Pinned

abbrev equal_to : Text → Text → Matcher
equal_to name value = record { name = name; value = value; is_regex = false; is_equal = none }

abbrev pin_absent : Label → List Text → Pinned
pin_absent l (v ∷ []) = pinned (equal_to l.name v)
pin_absent l _ = not_pinned (several_values l.name)

abbrev pin_named : Label → List Matcher → Pinned
pin_named l (m ∷ n ∷ ms) = not_pinned (repeated l.name)
pin_named l (m ∷ []) =
    if not (equality m) || not (allows l m.value) then not_pinned (forbidden l.name) else pinned m
pin_named l [] = pin_absent l l.values

unfoldable pub pin : Label → List Matcher → Pinned
pin l ms = pin_named l (named l ms)

-- The loop over the labels, which appends to `out`.
unfoldable pub pin_all : List Label → List Matcher → List Matcher → Scoped
pin_all [] ms out = scoped out
pin_all (l ∷ ls) ms out = elim (pin l ms) [
  | pinned m ↦ pin_all ls ms (out ++ m ∷ [])
  | not_pinned e ↦ refused e
]

abbrev pub free : List Label → List Matcher → List Matcher
free ls ms = keep (λ m. not (enforced ls m)) ms

unfoldable pub scope_matchers : List Label → List Matcher → Scoped
unfolding pin_all pin
scope_matchers ls ms =
    let out = free ls ms in if is_empty out then refused only_enforced else pin_all ls ms out
