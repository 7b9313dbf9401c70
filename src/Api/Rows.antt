-- ===== src/Api/Rows.antt =====
-- The rows that a handler has read are those of the tables.
use go2bank.Prelude.{ℕ, String, ◌≡◌, sym, ◌∙◌, inl, inr, Option, none, some}
use go2bank.Api.Reading.{Reads-mono, fetch-Reads, query-Reads, Reads}
use go2bank.Db.Account.{get_account-HasRead, get_account, answered}
use go2bank.Db.Account.Rows.{find_account}
use go2bank.Db.Currency.{get_exchange_rate, get_exchange_rate-HasRead, find_rate, rate_answer}
use go2bank.Db.Model.{Account, idle}
use go2bank.Api.Gin.{fetch, query, World}
use go2bank.Db.Query.{ok}

answered-ok : (found : Option Account) {row : Account} → answered found ≡ ok row → found ≡ some row
answered-ok none h = absurd (cc)
answered-ok (some row) h = cc

rate_answer-ok : (found : Option ℕ) {rate : ℕ} → rate_answer found ≡ ok rate → found ≡ some rate
rate_answer-ok none h = absurd (cc)
rate_answer-ok (some rate) h = cc

module _ {S : Type 0} where
  pub find-Reads :
      (id : ℕ) (w : World S)
      → w.db.tx ≡ idle
      → Reads (fetch (get_account id)) w (λ row. find_account id w.db.accounts ≡ some row)
  find-Reads id w i =
      Reads-mono
        (fetch-Reads (get_account id) (λ t. answered (find_account id t.accounts))
          (get_account-HasRead id) w i)
        (λ row h. answered-ok _ h)

  pub rate-Reads :
      (currency : String) (w : World S)
      → w.db.tx ≡ idle
      → Reads
          (fetch (get_exchange_rate currency))
          w
          (λ rate. find_rate currency w.db.currencies ≡ some rate)
  rate-Reads currency w i =
      Reads-mono
        (fetch-Reads (get_exchange_rate currency)
          (λ t. rate_answer (find_rate currency t.currencies)) (get_exchange_rate-HasRead currency)
          w i)
        (λ rate h. rate_answer-ok _ h)

  pub rate_query-Reads :
      (currency : String) (w : World S)
      → w.db.tx ≡ idle
      → Reads
          (query (get_exchange_rate currency))
          w
          (λ r. (rate : ℕ) → r ≡ ok rate → find_rate currency w.db.currencies ≡ some rate)
  rate_query-Reads currency w i =
      Reads-mono
        (query-Reads (get_exchange_rate currency)
          (λ t. rate_answer (find_rate currency t.currencies)) (get_exchange_rate-HasRead currency)
          w i)
        (λ r c rate h. elim c [ inl e ↦ rate_answer-ok _ (sym e ∙ h) | inr (x, e) ↦ absurd (cc) ])
