-- ===== src/Login/Redeem/Alone.antt =====
-- internal/authn/login_refresh.go: a refresh token is not redeemed again while it is being redeemed or
-- has just been.
use token_auth_proxy.Common.{
  ℕ, ◌+◌, ◌≤◌, ◌<◌, ◌≡◌, ◌≢◌, ◌⊎◌, inl, inr, refl, sym, ap, ◌∙◌, subst, Bool, true, false, Option,
  none, some, eqb, eqb_iff, leb, if◌then◌else◌, Bool-cases, arith,
}
use token_auth_proxy.Text.{Text, ◌==◌, ==_iff}
use token_auth_proxy.Login.{Redeemed, redeemed, refresh_rejected, unreachable}
use token_auth_proxy.Login.Redeem.{
  refresh_grace, Progress, in_flight, succeeded, failed, RefreshCalls, no_refresh_calls, set_entry,
  joinable, Redeeming, joins, starts, started_call, join_or_start, begin_redeem, ended_well,
  ended_badly, end_redeem, is_entry, forget, RedeemStep, passes, begins, ends, forgets,
  RedeemReachable, at_start, after,
}

-- A call in flight stands in the map; one that succeeded does until its grace is over.
abbrev Tracked : ℕ → Option ℕ → ℕ → Progress → Type 0
Tracked now o id in_flight = o ≡ some id
Tracked now o id (succeeded t out) = (o ≡ some id) ⊎ (t + refresh_grace ≤ now)
Tracked now o id (failed t out) = Unit

Held : RefreshCalls → Type 0
Held s = (id : ℕ) → id < s.next → Tracked s.now (s.table (s.heap id).key) id (s.heap id).progress

-- A call that stands in no one's way: it failed, or succeeded as long ago as the grace.
abbrev pub Over : ℕ → Progress → Type 0
Over now in_flight = ⊥
Over now (succeeded t out) = t + refresh_grace ≤ now
Over now (failed t out) = Unit

not_leb : (a b : ℕ) → leb a b ≡ false → b ≤ a
not_leb a b h = ground arith

unshared-Over :
    (now id : ℕ) (o : Option ℕ) (p : Progress)
    → (o ≡ some id → joinable now p ≡ false)
    → Tracked now o id p
    → Over now p
unshared-Over now id o in_flight h t = let k : true ≡ false = h t in cc
unshared-Over now id o (succeeded t out) h (inl e) = not_leb now (t + refresh_grace) (h e)
unshared-Over now id o (succeeded t out) h (inr l) = l
unshared-Over now id o (failed t out) h x = tt

begin-unshared :
    (s : RefreshCalls) (key : Text) (id other : ℕ) (o : Option ℕ)
    → (join_or_start key s o).0 ≡ starts id
    → o ≡ some other
    → joinable s.now (s.heap other).progress ≡ false
begin-unshared s key id other none h e = absurd cc
begin-unshared s key id other (some n) h e =
    let same : n ≡ other = cc in
    subst (λ x. joinable s.now (s.heap x).progress ≡ false) same
      (go (joinable s.now (s.heap n).progress) h)
  where
    go : (b : Bool) → (if b then (joins n, s) else started_call key s).0 ≡ starts id → b ≡ false
    go true k = absurd cc
    go false k = refl

Held-Over :
    (s : RefreshCalls) (key : Text) (id other : ℕ)
    → Held s
    → (begin_redeem key s).0 ≡ starts id
    → other < s.next
    → (s.heap other).key ≡ key
    → Over s.now (s.heap other).progress
unfolding Held begin_redeem
Held-Over s key id other held h lt e =
    unshared-Over s.now other (s.table (s.heap other).key) (s.heap other).progress
      (λ k. begin-unshared s key id other (s.table key) h (ap s.table (sym e) ∙ k)) (held other lt)

-- Time alone.
Tracked-passes :
    (now d id : ℕ) (o : Option ℕ) (p : Progress) → Tracked now o id p → Tracked (now + d) o id p
Tracked-passes now d id o in_flight t = t
Tracked-passes now d id o (succeeded u out) (inl e) = inl e
Tracked-passes now d id o (succeeded u out) (inr l) = inr (omega arith)
Tracked-passes now d id o (failed u out) t = tt

-- A call that is over stays tracked whatever becomes of the entry.
Tracked-Over : (now id : ℕ) (o : Option ℕ) (p : Progress) → Over now p → Tracked now o id p
Tracked-Over now id o in_flight h = absurd h
Tracked-Over now id o (succeeded u out) h = inr h
Tracked-Over now id o (failed u out) h = tt

-- An entry that goes, and was not the call's.
Tracked-other :
    (now id : ℕ) (o o' : Option ℕ) (p : Progress)
    → o ≢ some id
    → Tracked now o id p
    → Tracked now o' id p
Tracked-other now id o o' in_flight ne t = absurd (ne t)
Tracked-other now id o o' (succeeded u out) ne (inl e) = absurd (ne e)
Tracked-other now id o o' (succeeded u out) ne (inr l) = inr l
Tracked-other now id o o' (failed u out) ne t = tt

started_call-Held :
    (s : RefreshCalls) (key : Text)
    → Held s
    → ((other : ℕ) → other < s.next → (s.heap other).key ≡ key → Over s.now (s.heap other).progress)
    → Held (started_call key s).1
unfolding Held
started_call-Held s key held over id lt = elim (Bool-cases (eqb s.next id)) [
  | inl t ↦
      let same : s.next ≡ id = (eqb_iff s.next id).0 t in
      rw (t, (==_iff key key).1 refl) (ap some same)
  | inr f ↦
      let before : id < s.next = ground arith in
      rw f (elim (Bool-cases (key == (s.heap id).key)) [
        | inl e ↦ rw e (
            Tracked-Over s.now id (some s.next) (s.heap id).progress
              (over id before (sym ((==_iff key (s.heap id).key).0 e))))
        | inr n ↦ rw n (held id before)
      ])
]

apart : (id other : ℕ) (o : Option ℕ) → eqb id other ≡ false → o ≡ some id → o ≢ some other
apart id other o f e k =
    let same : some id ≡ some other = sym e ∙ k in
    let t : eqb id other ≡ true = (eqb_iff id other).1 (let q : id ≡ other = cc in q) in cc

in_table :
    (s : RefreshCalls) (id : ℕ)
    → Held s
    → id < s.next
    → (s.heap id).progress ≡ in_flight
    → s.table (s.heap id).key ≡ some id
unfolding Held
in_table s id held lt e = subst (Tracked s.now (s.table (s.heap id).key) id) e (held id lt)

ended_well-Held :
    (s : RefreshCalls) (id : ℕ) (out : Redeemed)
    → Held s
    → id < s.next
    → (s.heap id).progress ≡ in_flight
    → Held (ended_well id out s)
unfolding Held
ended_well-Held s id out held lt e other lt' = elim (Bool-cases (eqb id other)) [
  | inl t ↦
      let same : id ≡ other = (eqb_iff id other).0 t in
      rw t (inl (in_table s id held lt e ∙ ap some same))
  | inr f ↦ rw f (held other lt')
]

-- The entry of a call that is done with goes.
cleared-Tracked :
    (s : RefreshCalls) (id other : ℕ)
    → Held s
    → other < s.next
    → eqb id other ≡ false
    → s.table (s.heap id).key ≡ some id
    → Tracked s.now
        (set_entry s.table (s.heap id).key none (s.heap other).key)
        other
        (s.heap other).progress
unfolding Held
cleared-Tracked s id other held lt f e = elim (Bool-cases ((s.heap id).key == (s.heap other).key)) [
  | inl t ↦
      let keys : (s.heap id).key ≡ (s.heap other).key = (==_iff _ _).0 t in
      rw t (
        Tracked-other s.now other (s.table (s.heap other).key) none (s.heap other).progress
          (apart id other (s.table (s.heap other).key) f (ap s.table (sym keys) ∙ e))
          (held other lt))
  | inr n ↦ rw n (held other lt)
]

ended_badly-Held :
    (s : RefreshCalls) (id : ℕ) (out : Redeemed)
    → Held s
    → id < s.next
    → (s.heap id).progress ≡ in_flight
    → Held (ended_badly id out s)
unfolding Held
ended_badly-Held s id out held lt e other lt' = elim (Bool-cases (eqb id other)) [
  | inl t ↦ rw t tt
  | inr f ↦ rw f (cleared-Tracked s id other held lt' f (in_table s id held lt e))
]

end_redeem-Held :
    (s : RefreshCalls) (id : ℕ) (out : Redeemed)
    → Held s
    → id < s.next
    → (s.heap id).progress ≡ in_flight
    → Held (end_redeem id out s)
unfolding end_redeem
end_redeem-Held s id (redeemed i t m) held lt e = ended_well-Held s id (redeemed i t m) held lt e
end_redeem-Held s id refresh_rejected held lt e = ended_badly-Held s id refresh_rejected held lt e
end_redeem-Held s id unreachable held lt e = ended_badly-Held s id unreachable held lt e

is_entry-some : (o : Option ℕ) (id : ℕ) → is_entry o id ≡ true → o ≡ some id
is_entry-some none id h = absurd cc
is_entry-some (some other) id h = ap some ((eqb_iff other id).0 h)

forget-Held :
    (s : RefreshCalls) (id t : ℕ) (out : Redeemed)
    → Held s
    → (s.heap id).progress ≡ succeeded t out
    → t + refresh_grace ≤ s.now
    → Held (forget id s)
unfolding Held forget
forget-Held s id t out held e over = go (is_entry (s.table (s.heap id).key) id) refl
  where
    go :
        (b : Bool)
        → is_entry (s.table (s.heap id).key) id ≡ b
        → Held (if b then record s { table = set_entry s.table (s.heap id).key none } else s)
    go false h other lt = held other lt
    go true h other lt = elim (Bool-cases (eqb id other)) [
      | inr f ↦ cleared-Tracked s id other held lt f (is_entry-some (s.table (s.heap id).key) id h)
      | inl same ↦
          Tracked-Over s.now other (set_entry s.table (s.heap id).key none (s.heap other).key)
            (s.heap other).progress
            (subst (λ x. Over s.now (s.heap x).progress) ((eqb_iff id other).0 same)
              (subst (Over s.now) (sym e) over))
    ]

begin_redeem-Held : (s : RefreshCalls) (key : Text) → Held s → Held (begin_redeem key s).1
unfolding begin_redeem
begin_redeem-Held s key held =
    begun (s.table key) (λ id h other lt e. Held-Over s key id other held h lt e)
  where
    AllOver : Redeeming → Type 0
    AllOver q =
        (id : ℕ)
        → q ≡ starts id
        → (other : ℕ) → other < s.next
        → (s.heap other).key ≡ key
        → Over s.now (s.heap other).progress

    chosen :
        (n : ℕ) (b : Bool)
        → AllOver (if b then (joins n, s) else started_call key s).0
        → Held (if b then (joins n, s) else started_call key s).1
    chosen n true h = held
    chosen n false h = started_call-Held s key held (h s.next refl)

    begun : (o : Option ℕ) → AllOver (join_or_start key s o).0 → Held (join_or_start key s o).1
    begun none h = started_call-Held s key held (h s.next refl)
    begun (some n) h = chosen n (joinable s.now (s.heap n).progress) h

step-Held : (s s' : RefreshCalls) → Held s → RedeemStep s s' → Held s'
unfolding Held
step-Held s s' held (passes d) = passed
  where
    passed : Held (record s { now = s.now + d })
    passed id lt =
        Tracked-passes s.now d id (s.table (s.heap id).key) (s.heap id).progress (held id lt)
step-Held s s' held (begins key) = begin_redeem-Held s key held
step-Held s s' held (ends id out lt e) = end_redeem-Held s id out held lt e
step-Held s s' held (forgets id t out e over) = forget-Held s id t out held e over

reachable-Held : (s : RefreshCalls) → RedeemReachable s → Held s
unfolding Held
reachable-Held s at_start = none_yet
  where
    none_yet : Held no_refresh_calls
    none_yet id lt = absurd (omega arith)
reachable-Held s (after {s = r} before step) = step-Held r s (reachable-Held r before) step

-- Whenever a request starts a redemption of its own, in whatever order requests and timers took the
-- lock before, no redemption of the same key, which stands for a source and a refresh token, is in
-- flight, and every one that succeeded did so as long ago as the grace.
pub begin_redeem-alone :
    (s : RefreshCalls) (key : Text) (id other : ℕ)
    → RedeemReachable s
    → (begin_redeem key s).0 ≡ starts id
    → other < s.next
    → (s.heap other).key ≡ key
    → Over s.now (s.heap other).progress
begin_redeem-alone s key id other reached h lt e =
    Held-Over s key id other (reachable-Held s reached) h lt e
