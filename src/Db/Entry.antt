-- ===== src/Db/Entry.antt =====
-- db/sqlc/entry.sql.go: the table of entries.
use go2bank.Prelude.{
  ℕ, ◌+◌, ◌≡◌, Option, none, some, List, [], ◌∷◌, ◌++◌, ◌==◌, nat_eq, string_eq, if◌then◌else◌,
  filter,
}
use go2bank.Prelude.Int.{ℤ, pos, ◌+ℤ◌, int_laws}
use go2bank.Db.Error.{no_rows, pg_error, foreign_key_violation}
use go2bank.Db.Model.{Account, Entry, Db}
use go2bank.Db.Query.{Query, ok, err, statement}
use go2bank.Db.Account.Rows.{find_account}
use go2bank.Db.Page.{page}

pub record CreateEntryParams : Type 0 where
  pub account_id : ℕ
  pub amount : ℤ

abbrev pub new_entry : CreateEntryParams → Db → Entry
new_entry arg db = record {
  id = db.entry_seq + 1;
  account_id = arg.account_id;
  amount = arg.amount;
  created_at = db.now;
}

abbrev next_entry : Db → Db
next_entry db = record db { entry_seq = db.entry_seq + 1 }

abbrev put_entries : List Entry → Db → Db
put_entries rows db = record db { tables = record db.tables { entries = rows } }

-- The foreign key on accounts decides, after the sequence has been read.
insert_entry : CreateEntryParams → Option Account → Query Entry
insert_entry arg none db = (err (pg_error foreign_key_violation), next_entry db)
insert_entry arg (some _) db =
    (ok (new_entry arg db), put_entries (db.entries ++ new_entry arg db ∷ []) (next_entry db))

-- `CreateEntry`
unfoldable pub create_entry : CreateEntryParams → Query Entry
unfolding insert_entry
create_entry arg = statement λ db. insert_entry arg (find_account arg.account_id db.accounts) db

find_entry : ℕ → List Entry → Option Entry
find_entry id [] = none
find_entry id (row ∷ rows) = if row.id == id then some row else find_entry id rows

answer : Option Entry → Query Entry
answer none db = (err no_rows, db)
answer (some row) db = (ok row, db)

-- `GetEntry`
unfoldable pub get_entry : ℕ → Query Entry
unfolding answer find_entry
get_entry id = statement λ db. answer (find_entry id db.entries) db

pub record ListEntriesParams : Type 0 where
  pub account_id : ℕ
  pub limit : ℤ
  pub offset : ℤ

-- `ListEntries`
unfoldable pub list_entries : ListEntriesParams → Query (List Entry)
list_entries arg = statement λ db. (
  page (λ row. row.id) arg.limit arg.offset
      (filter (λ row. row.account_id == arg.account_id) db.entries),
  db,
)

-- The sum of the amounts booked on an account.
unfoldable pub booked : ℕ → List Entry → ℤ
booked id [] = pos 0
booked id (row ∷ rows) = (if row.account_id == id then row.amount else pos 0) +ℤ booked id rows

pub booked-append :
    (id : ℕ) (rows : List Entry) (new : Entry)
    → booked id (rows ++ new ∷ [])
      ≡ booked id rows +ℤ (if new.account_id == id then new.amount else pos 0)
unfolding booked
booked-append id [] new = omega int_laws
booked-append id (row ∷ rows) new = rw (booked-append id rows new) (omega int_laws)
