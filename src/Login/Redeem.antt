-- ===== src/Login/Redeem.antt =====
-- internal/authn/login_refresh.go: redeem, which shares one redemption of a refresh token among the
-- requests that carry it. A call is known by its address. The request to the provider is a parameter.
pub mod Alone
pub mod Exchange
mod Tests
use token_auth_proxy.Common.{
  ℕ, suc, ◌+◌, ◌*◌, ◌≤◌, ◌<◌, ◌≡◌, Bool, true, false, Option, none, some, [], eqb, leb,
  if◌then◌else◌,
}
use token_auth_proxy.Text.{Text, ◌==◌}
use token_auth_proxy.Login.{Redeemed, redeemed, refresh_rejected, unreachable}
use token_auth_proxy.Keys.Registry.{update}

-- refreshGrace
abbrev pub refresh_grace : ℕ
refresh_grace = 30 * 1000000000

-- refreshCall: how far it is, with the time at which it finished.
pub data Progress : Type 0 where
  in_flight : Progress
  succeeded : ℕ → Redeemed → Progress
  failed : ℕ → Redeemed → Progress

pub record RefreshCall : Type 0 where
  pub key : Text
  pub progress : Progress

-- The map refreshCalls and the calls themselves, which outlive their entries in it.
pub record RefreshCalls : Type 0 where
  pub now : ℕ
  pub next : ℕ
  pub heap : ℕ → RefreshCall
  pub table : Text → Option ℕ

abbrev pub no_call : RefreshCall
no_call = record { key = []; progress = in_flight }

abbrev pub no_refresh_calls : RefreshCalls
no_refresh_calls = record { now = 0; next = 0; heap = λ id. no_call; table = λ key. none }

abbrev pub set_entry : (Text → Option ℕ) → Text → Option ℕ → Text → Option ℕ
set_entry table key o k = if key == k then o else table k

-- Whether the result of a call is waited for or taken.
abbrev pub joinable : ℕ → Progress → Bool
joinable now in_flight = true
joinable now (succeeded t out) = leb now (t + refresh_grace)
joinable now (failed t out) = leb now (t + refresh_grace)

pub data Redeeming : Type 0 where
  joins starts : ℕ → Redeeming

abbrev started_call : Text → RefreshCalls → Redeeming × RefreshCalls
started_call key s = (
  starts s.next,
  record s {
    next = suc s.next;
    heap = update s.heap s.next (record { key = key; progress = in_flight });
    table = set_entry s.table key (some s.next);
  },
)

abbrev join_or_start : Text → RefreshCalls → Option ℕ → Redeeming × RefreshCalls
join_or_start key s none = started_call key s
join_or_start key s (some id) =
    if joinable s.now (s.heap id).progress then (joins id, s) else started_call key s

-- The first lock: join the call that is there, or start one.
unfoldable pub begin_redeem : Text → RefreshCalls → Redeeming × RefreshCalls
begin_redeem key s = join_or_start key s (s.table key)

-- The second lock. A failure is not remembered.
abbrev pub ended_well : ℕ → Redeemed → RefreshCalls → RefreshCalls
ended_well id out s = record s {
  heap = update s.heap id (record (s.heap id) { progress = succeeded s.now out });
}

abbrev pub ended_badly : ℕ → Redeemed → RefreshCalls → RefreshCalls
ended_badly id out s = record s {
  heap = update s.heap id (record (s.heap id) { progress = failed s.now out });
  table = set_entry s.table (s.heap id).key none;
}

unfoldable pub end_redeem : ℕ → Redeemed → RefreshCalls → RefreshCalls
end_redeem id (redeemed id_token token max_age) s =
    ended_well id (redeemed id_token token max_age) s
end_redeem id refresh_rejected s = ended_badly id refresh_rejected s
end_redeem id unreachable s = ended_badly id unreachable s

abbrev is_entry : Option ℕ → ℕ → Bool
is_entry none id = false
is_entry (some other) id = eqb other id

-- What the timer does once the grace is over.
unfoldable pub forget : ℕ → RefreshCalls → RefreshCalls
forget id s =
    if is_entry (s.table (s.heap id).key) id
    then record s { table = set_entry s.table (s.heap id).key none }
    else s

-- Time passes, and the requests and timers take the lock in any order.
pub data RedeemStep (s : RefreshCalls) : RefreshCalls → Type 0 where
  passes : (d : ℕ) → RedeemStep s (record s { now = s.now + d })
  begins : (key : Text) → RedeemStep s (begin_redeem key s).1
  ends :
      (id : ℕ) (out : Redeemed)
      → id < s.next
      → (s.heap id).progress ≡ in_flight
      → RedeemStep s (end_redeem id out s)
  forgets :
      (id t : ℕ) (out : Redeemed)
      → (s.heap id).progress ≡ succeeded t out
      → t + refresh_grace ≤ s.now
      → RedeemStep s (forget id s)

pub data RedeemReachable : RefreshCalls → Type 0 where
  at_start : RedeemReachable no_refresh_calls
  after : {s s' : RefreshCalls} → RedeemReachable s → RedeemStep s s' → RedeemReachable s'
