-- ===== src/Login/Redeem/Tests.antt =====
-- A refresh token that is redeemed, shared and redeemed again, and the theorem at concrete inputs.
use token_auth_proxy.Common.{ℕ, ◌+◌, ◌≤◌, ◌≡◌, refl, arith}
use token_auth_proxy.Text.{Text, text, ◌==◌}
use token_auth_proxy.Login.{Redeemed, redeemed}
use token_auth_proxy.Login.Redeem.{
  refresh_grace, RefreshCalls, no_refresh_calls, joins, starts, begin_redeem, end_redeem, passes,
  begins, ends, RedeemReachable, at_start, after,
}
use token_auth_proxy.Login.Redeem.Alone.{begin_redeem-alone}

abbrev key : Text
key = text "k"

abbrev tokens : Redeemed
tokens = redeemed (text "id") (text "next") 300

abbrev begun : RefreshCalls
begun = (begin_redeem key no_refresh_calls).1

abbrev done : RefreshCalls
done = end_redeem 0 tokens begun

abbrev later : ℕ → RefreshCalls
later d = record done { now = done.now + d }

joined : (begin_redeem key begun).0 ≡ joins 0
unfolding begin_redeem ◌==◌
joined = refl

-- The grace itself still counts.
joined_late : (begin_redeem key (later 30000000000)).0 ≡ joins 0
unfolding begin_redeem end_redeem ◌==◌
joined_late = refl

started_again : (begin_redeem key (later 30000000001)).0 ≡ starts 1
unfolding begin_redeem end_redeem ◌==◌
started_again = refl

reached : RedeemReachable (later 30000000001)
unfolding begin_redeem
reached =
    after (after (after at_start (begins key)) (ends 0 tokens (omega arith) refl))
      (passes 30000000001)

begin_redeem-alone_example : 0 + refresh_grace ≤ 30000000001
unfolding begin_redeem end_redeem
begin_redeem-alone_example =
    begin_redeem-alone (later 30000000001) key 1 0 reached started_again (omega arith) refl
