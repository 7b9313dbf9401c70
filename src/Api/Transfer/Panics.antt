-- ===== src/Api/Transfer/Panics.antt =====
-- The second rate of `currencyExchange`: its branch for the status 500 reads the wrong error.
use go2bank.Prelude.{ℕ, String, ◌≡◌, refl, inl, inr, false, if◌then◌else◌, Bool-cases}
use go2bank.Prelude.Int.{ℤ}
use go2bank.Api.Gin.{fetch, World, panicked, Exit, ◌>>=◌}
use go2bank.Api.Transfer.{Float64, currency_exchange}
use go2bank.Db.Currency.{get_exchange_rate}
use go2bank.Db.Error.{Error, is_record_not_found}
use go2bank.Db.Model.{Db}
use go2bank.Db.Query.{Result, ok, err}

-- The first rate is found, and the query of the second one fails, with another error than that
-- of a missing row.
pub record SecondFails (from_currency to_currency : String) (db : Db) : Type 0 where
  pub rate : ℕ
  pub found : (get_exchange_rate from_currency db).0 ≡ ok rate
  pub why : Error
  pub failing : (get_exchange_rate to_currency (get_exchange_rate from_currency db).1).0 ≡ err why
  pub other : is_record_not_found why ≡ false

module _ {S : Type 0} (f : Float64) (from_currency to_currency : String) (amount : ℤ) where
  abbrev run : World S → Exit ℤ × World S
  run w = currency_exchange f from_currency to_currency amount w

  forwards :
      (w : World S) (first second : Result ℕ)
      → (get_exchange_rate from_currency w.db).0 ≡ first
      → (get_exchange_rate to_currency (get_exchange_rate from_currency w.db).1).0 ≡ second
      → (run w).0 ≡ panicked
      → SecondFails from_currency to_currency w.db
  unfolding currency_exchange ◌>>=◌ fetch
  forwards w (ok rate) (ok other) a b h = absurd (let g = rw (a, b) at h in cc)
  forwards w (ok rate) (err e) a b h = elim (Bool-cases (is_record_not_found e)) [
    | inl missing ↦ absurd (let g = rw (a, b, missing, if◌then◌else◌) at h in cc)
    | inr another ↦ record { rate = rate; found = a; why = e; failing = b; other = another }
  ]
  forwards w (err e) second a b h = absurd (let g = rw a at h in cc)

  -- The exchange panics exactly where the first rate is found and the query of the second fails
  -- with an error other than that of a missing row, and then it has written no answer: `errFrom`,
  -- which is nil there, has no text.
  pub currency_exchange_panics :
      (w : World S)
      → ((run w).0 ≡ panicked → SecondFails from_currency to_currency w.db)
        × (SecondFails from_currency to_currency w.db
            → ((run w).0 ≡ panicked) × ((run w).1.calls ≡ w.calls))
  unfolding currency_exchange ◌>>=◌ fetch
  currency_exchange_panics w = (
    forwards w _ _ refl refl,
    λ s. (
      rw (s.found, s.failing, s.other, if◌then◌else◌) refl,
      rw (s.found, s.failing, s.other, if◌then◌else◌) refl,
    ),
  )
