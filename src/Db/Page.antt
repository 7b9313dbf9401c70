-- ===== src/Db/Page.antt =====
-- ORDER BY id LIMIT n OFFSET k, for the queries of db/sqlc that answer with many rows.
-- A negative LIMIT or OFFSET is an error of the server.
use go2bank.Prelude.{ℕ, List, [], ◌∷◌, leb, if◌then◌else◌, take, drop}
use go2bank.Prelude.Int.{ℤ, pos, pos_part, ltb_ℤ}
use go2bank.Db.Error.{pg_error}
use go2bank.Db.Query.{Result, ok, err}

module _ {A : Type 0} (key : A → ℕ) where
  pub insert_by : A → List A → List A
  insert_by a [] = a ∷ []
  insert_by a (b ∷ rows) = if leb (key a) (key b) then a ∷ b ∷ rows else b ∷ insert_by a rows

  unfoldable pub order_by : List A → List A
  unfolding insert_by
  order_by [] = []
  order_by (a ∷ rows) = insert_by a (order_by rows)

  unfoldable pub page : ℤ → ℤ → List A → Result (List A)
  unfolding order_by
  page limit offset rows =
      if ltb_ℤ limit (pos 0)
      then err (pg_error "2201W")
      else if ltb_ℤ offset (pos 0)
      then err (pg_error "2201X")
      else ok (take (pos_part limit) (drop (pos_part offset) (order_by rows)))
