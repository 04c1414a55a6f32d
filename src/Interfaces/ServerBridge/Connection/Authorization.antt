-- ===== src/Interfaces/ServerBridge/Connection/Authorization.antt =====
-- Who is admitted by `checkAuthorization` of ts-core/src/interfaces/server-bridge/route.ts.
use Prim.Native.String.{String}
use text.Mathlib.TextEquality.{eq_iff}
use mc_servant.Base.Text.{strip_prefix, trim}
use mc_servant.Base.Text.Trims.{trim_idem}
use mc_servant.Base.{◌≡◌, refl, ◌≢◌, ◌↔◌, ap, ◌∙◌, sym, Option, none, some, arith}
use mc_servant.Interfaces.ServerBridge.Connection.{check_authorization, check_bearer}

check_bearer-none :
    (o : Option String) (token : String)
    → (check_bearer o token ≡ none)
      ↔ ((token ≢ "") × ((rest : String) × (o ≡ some rest) × (trim rest ≡ token)))
unfolding check_bearer
check_bearer-none none token = (λ h. cc h, λ (n, (rest, p, q)). cc p)
check_bearer-none (some rest) token = (
  λ h. (
    ground (arith, eq_iff (trim rest) "", eq_iff (trim rest) token),
    (rest, refl, ground (arith, eq_iff (trim rest) token)),
  ),
  λ (n, (other, p, q)). ground (arith, eq_iff (trim rest) "", eq_iff (trim rest) token),
)

check_authorization-none :
    (header token : String)
    → (check_authorization (some header) token ≡ none) ↔ (
        (token ≢ "")
        × ((rest : String) × (strip_prefix "Bearer " header ≡ some rest) × (trim rest ≡ token)))
unfolding check_authorization strip_prefix
check_authorization-none header String.[] = (λ h. cc h, λ h. absurd (h.0 refl))
check_authorization-none String.[] (String.◌∷◌ c t) = (λ h. cc h, λ (n, (rest, p, q)). cc p)
check_authorization-none (String.◌∷◌ h header) (String.◌∷◌ c t) =
    check_bearer-none (strip_prefix "Bearer " (String.◌∷◌ h header)) (String.◌∷◌ c t)

refused : (token : String) → check_authorization none token ≢ none
unfolding check_authorization
refused String.[] h = cc h
refused (String.◌∷◌ c t) h = cc h

-- A request without the header is refused. One with it is admitted exactly if the configured token
-- is not empty and the header is "Bearer " before a rest that, trimmed, is the token; and so only if
-- the token has no white space around it.
pub check_authorization-admits :
    (header token : String)
    → (check_authorization none token ≢ none)
      × ((check_authorization (some header) token ≡ none) ↔ (
          (token ≢ "")
          × ((rest : String) × (strip_prefix "Bearer " header ≡ some rest) × (trim rest ≡ token))))
      × (check_authorization (some header) token ≡ none → trim token ≡ token)
check_authorization-admits header token = (
  refused token,
  check_authorization-none header token,
  λ h.
      let (filled, (rest, p, q)) = (check_authorization-none header token).0 h in
      sym (ap trim q) ∙ trim_idem rest ∙ q,
)
