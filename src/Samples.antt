-- ===== src/Samples.antt =====
-- A small bank for the tests: two users, an account of each, and a rate for each currency.
use go2bank.Prelude.{
  ℕ, ◌*◌, ◌/◌, String, len, ◌≡◌, true, Option, none, some, List, [], ◌∷◌, arith, eq_iff, ltb, ◌==◌,
  nat_eq, string_eq, if◌then◌else◌,
}
use go2bank.Prelude.Int.{pos, pos_part}
use go2bank.Util.Password.{Bcrypt}
use go2bank.Api.Binding.{Validator}
use go2bank.Api.Gin.{World}
use go2bank.Api.Transfer.{Float64, TransferRequest}
use go2bank.Token.{Payload}
use go2bank.Db.Model.{Account, Currency, User, Db, idle}
use go2bank.Db.Store.{TransferTxParams}

abbrev pub ann : User
ann = record {
  username = "ann";
  hashed_password = "h1";
  full_name = "Ann Lee";
  email = "ann@x.org";
  password_changed_at = 0;
  created_at = 1;
  role = "depositor";
  provider = "local";
}

abbrev pub bob : User
bob = record ann {
  username = "bob";
  hashed_password = "h2";
  full_name = "Bob Ray";
  email = "bob@x.org";
}

abbrev pub ann_account : Account
ann_account = record { id = 1; owner = "ann"; balance = pos 100; currency = "USD"; created_at = 2 }

abbrev pub bob_account : Account
bob_account = record { id = 2; owner = "bob"; balance = pos 5; currency = "EUR"; created_at = 3 }

abbrev pub rates : List Currency
rates =
    record { currency = "USD"; rate = 1; created_at = 0 }
    ∷ record { currency = "EUR"; rate = 2; created_at = 0 }
    ∷ []

abbrev pub bank : Db
bank = record {
  tables = record {
    users = ann ∷ bob ∷ [];
    accounts = ann_account ∷ bob_account ∷ [];
    entries =
        record { id = 1; account_id = 1; amount = pos 100; created_at = 2 }
        ∷ record { id = 2; account_id = 2; amount = pos 5; created_at = 3 }
        ∷ [];
    transfers = [];
    currencies = rates;
  };
  account_seq = 2;
  entry_seq = 2;
  transfer_seq = 0;
  now = 9;
  tx = idle;
  locks = [];
  faults = [];
}

-- 30 leave the first account, and 15 come to the second.
abbrev pub payment : TransferTxParams
payment = record {
  from_account_id = 1;
  to_account_id = 2;
  from_amount = pos 30;
  to_amount = pos 15;
}

-- Patterns of the validator that accept everything, and a float64 in thousandths.
abbrev pub lenient : Validator
lenient = record { alphanum = λ _. true; numeric = λ _. true; email = λ _. true }

abbrev pub thousandths : Float64
thousandths = record {
  from_int64 = λ a. pos_part a * 1000;
  mul = λ x y. x * y / 1000;
  div = λ x y. x * 1000 / y;
  to_int64 = λ x. pos (x / 1000);
}

abbrev pub ann_payload : Payload
ann_payload = record {
  id = "t1";
  username = "ann";
  role = "depositor";
  issued_at = 1;
  expired_at = pos 900;
}

abbrev pub ann_world : World Unit
ann_world = record { db = bank; kv = tt; payload = some ann_payload; calls = [] }

abbrev pub request : TransferRequest
request = record {
  from_account_id = pos 1;
  to_account_id = pos 2;
  amount = pos 30;
  currency = "USD";
  otp = "123456";
}

-- A bcrypt that hashes nothing.
abbrev pub plain_hash : String → Option String
plain_hash password = if ltb 72 (len password) then none else some password

pub plain_matches :
    (salt : ℕ) (password hash : String)
    → plain_hash password ≡ some hash
    → (hash == password) ≡ true
plain_matches salt password hash h = ground (arith, eq_iff hash password)

pub plain_too_long :
    (salt : ℕ) (password : String) → ltb 72 (len password) ≡ true → plain_hash password ≡ none
plain_too_long salt password h = ground arith

abbrev pub plain : Bcrypt
plain = record {
  generate = λ _ password. plain_hash password;
  matches = λ hash password. hash == password;
  matches-generate = plain_matches;
  too_long = plain_too_long;
}
