-- ===== src/Text/Join.antt =====
-- Texts joined by a byte that none of them holds can be told apart again.
use token_auth_proxy.Common.{
  ℕ, ◌≡◌, refl, sym, ap, ap₂, ◌∙◌, List, [], ◌∷◌, ◌++◌, some, none, All, append_assoc, Option,
}
use token_auth_proxy.Text.{Text, cut, join}
use token_auth_proxy.Text.Cut.{Free, cut-append, cut-Free}

pub join-append :
    (sep : ℕ) (p : Text) (ps : List Text) (q : Text) (qs : List Text)
    → join (sep ∷ []) (p ∷ ps) ++ (sep ∷ join (sep ∷ []) (q ∷ qs))
      ≡ join (sep ∷ []) (p ∷ (ps ++ (q ∷ qs)))
unfolding join
join-append sep p [] q qs = refl
join-append sep p (r ∷ rs) q qs =
    append_assoc p (sep ∷ join (sep ∷ []) (r ∷ rs)) (sep ∷ join (sep ∷ []) (q ∷ qs))
    ∙ ap (λ (x : Text). p ++ (sep ∷ x)) (join-append sep r rs q qs)

pub join_injective :
    (sep : ℕ) (p : Text) (ps : List Text) (q : Text) (qs : List Text)
    → All (Free sep) (p ∷ ps)
    → All (Free sep) (q ∷ qs)
    → join (sep ∷ []) (p ∷ ps) ≡ join (sep ∷ []) (q ∷ qs)
    → (p ≡ q) × (ps ≡ qs)
unfolding join
join_injective sep p [] q [] h k e = (e, refl)
join_injective sep p [] q (r ∷ rs) (h, _) (k, _) e = absurd (
    let c : ◌≡◌ {A = Option (Text × Text)} none (some (q, join (sep ∷ []) (r ∷ rs))) =
      sym (cut-Free sep p h) ∙ ap (cut sep) e ∙ cut-append sep q (join (sep ∷ []) (r ∷ rs)) k in
    cc)
join_injective sep p (r ∷ rs) q [] (h, _) (k, _) e = absurd (
    let c : ◌≡◌ {A = Option (Text × Text)} none (some (p, join (sep ∷ []) (r ∷ rs))) =
      sym (cut-Free sep q k)
      ∙ ap (cut sep) (sym e)
      ∙ cut-append sep p (join (sep ∷ []) (r ∷ rs)) h in
    cc)
join_injective sep p (r ∷ rs) q (t ∷ ts) (h, hs) (k, ks) e =
    let c : ◌≡◌ {A = Option (Text × Text)} (some (p, join (sep ∷ []) (r ∷ rs)))
        (some (q, join (sep ∷ []) (t ∷ ts))) =
      sym (cut-append sep p (join (sep ∷ []) (r ∷ rs)) h)
      ∙ ap (cut sep) e
      ∙ cut-append sep q (join (sep ∷ []) (t ∷ ts)) k in
    let (later, rest) = join_injective sep r rs t ts hs ks cc in
    (cc, ap₂ (λ (x : Text) (xs : List Text). x ∷ xs) later rest)
