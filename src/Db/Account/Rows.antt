-- ===== src/Db/Account/Rows.antt =====
-- The rows of the accounts: what the WHERE of the queries selects.
use go2bank.Prelude.{
  ℕ, String, ◌≡◌, refl, ◌≢◌, Option, none, some, List, [], ◌∷◌, arith, ◌==◌, nat_eq, string_eq,
  if◌then◌else◌, filter,
}
use go2bank.Prelude.Int.{ℤ, pos}
use go2bank.Db.Model.{Account}

-- WHERE id = $1 LIMIT 1
unfoldable pub find_account : ℕ → List Account → Option Account
find_account id [] = none
find_account id (row ∷ rows) = if row.id == id then some row else find_account id rows

-- The update of the row with the key of `new`.
unfoldable pub replace_account : Account → List Account → List Account
replace_account new [] = []
replace_account new (row ∷ rows) =
    (if row.id == new.id then new else row) ∷ replace_account new rows

unfoldable pub delete_account_row : ℕ → List Account → List Account
delete_account_row id [] = []
delete_account_row id (row ∷ rows) =
    if row.id == id then delete_account_row id rows else row ∷ delete_account_row id rows

-- WHERE owner = $1
abbrev pub owned_by : String → List Account → List Account
owned_by owner rows = filter (λ a. a.owner == owner) rows

-- The balance that a look-up gives, zero for no account.
abbrev pub balance_of : Option Account → ℤ
balance_of none = pos 0
balance_of (some row) = row.balance

abbrev pub balance : ℕ → List Account → ℤ
balance id rows = balance_of (find_account id rows)

pub find_account-replace_self :
    (new old : Account) (rows : List Account)
    → find_account new.id rows ≡ some old
    → find_account new.id (replace_account new rows) ≡ some new
unfolding find_account replace_account
find_account-replace_self new old [] h = cc
find_account-replace_self new old (row ∷ rows) h =
    ground (arith, find_account-replace_self new old rows)

pub find_account-replace_ne :
    (id : ℕ) (new : Account) (rows : List Account)
    → id ≢ new.id
    → find_account id (replace_account new rows) ≡ find_account id rows
unfolding find_account replace_account
find_account-replace_ne id new [] h = refl
find_account-replace_ne id new (row ∷ rows) h =
    ground (arith, find_account-replace_ne id new rows h)

pub find_account-id :
    (id : ℕ) (row : Account) (rows : List Account) → find_account id rows ≡ some row → row.id ≡ id
unfolding find_account
find_account-id id row [] h = cc
find_account-id id row (r ∷ rows) h = ground (arith, find_account-id id row rows)
