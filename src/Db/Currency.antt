-- ===== src/Db/Currency.antt =====
-- db/sqlc/currency.sql.go: the table of exchange rates.
use go2bank.Prelude.{
  ℕ, String, refl, ◌≢◌, Option, none, some, List, [], ◌∷◌, ◌==◌, nat_eq, string_eq, if◌then◌else◌,
}
use go2bank.Db.Error.{no_rows}
use go2bank.Db.Model.{failed, Db, Currency}
use go2bank.Db.Query.{statement-HasRead, HasRead, Result, Query, ok, err, statement}

-- SELECT rate FROM currencies WHERE currency = $1 LIMIT 1
unfoldable pub find_rate : String → List Currency → Option ℕ
find_rate currency [] = none
find_rate currency (row ∷ rows) =
    if row.currency == currency then some row.rate else find_rate currency rows

abbrev pub rate_answer : Option ℕ → Result ℕ
rate_answer none = err no_rows
rate_answer (some rate) = ok rate

-- `GetExchangeRate`
unfoldable pub get_exchange_rate : String → Query ℕ
get_exchange_rate currency = statement λ db. (rate_answer (find_rate currency db.currencies), db)

pub get_exchange_rate-HasRead :
    (currency : String) (db : Db)
    → db.tx ≢ failed
    → HasRead (rate_answer (find_rate currency db.currencies)) db (get_exchange_rate currency db)
unfolding get_exchange_rate
get_exchange_rate-HasRead currency db h =
    statement-HasRead (rate_answer (find_rate currency db.currencies)) _ db (λ fs. refl) h
