-- ===== src/Util.antt =====
-- The package util: the supported currencies and the roles; api/rbac.go.
pub mod Password
pub mod Config
pub mod Random
use go2bank.Prelude.{
  String, Bool, true, false, List, [], ◌∷◌, ◌==◌, nat_eq, string_eq, if◌then◌else◌,
}

abbrev pub usd : String
usd = "USD"

abbrev pub eur : String
eur = "EUR"

abbrev pub cad : String
cad = "CAD"

-- `IsSupportedCurrency`
unfoldable pub is_supported_currency : String → Bool
is_supported_currency currency =
    if currency == usd then true else if currency == eur then true else currency == cad

abbrev pub depositor_role : String
depositor_role = "depositor"

abbrev pub banker_role : String
banker_role = "banker"

-- `roleCheck`
unfoldable pub role_check : String → List String → Bool
role_check user_role [] = false
role_check user_role (role ∷ accessible) =
    if user_role == role then true else role_check user_role accessible
