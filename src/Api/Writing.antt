-- ===== src/Api/Writing.antt =====
-- The part of a handler that changes the store, by one query at its end.
use go2bank.Prelude.{ℕ, ◌≤◌, ◌≡◌, refl, ◌⊎◌, inl, inr, [], ◌∷◌, ◌++◌, arith, if◌then◌else◌}
use go2bank.Api.Gin.{
  ◌>>=◌, returned, Handler, Body, returned, Exit, World, respond, query, fetch, json, error,
  or_not_found,
}
use go2bank.Api.Reading.{Refused, Same}
use go2bank.Db.Error.{Error, is_record_not_found}
use go2bank.Db.Model.{Tables, Db}
use go2bank.Db.Query.{ok, err, ok, Result, err, Query}
use go2bank.Db.Query.Outcome.{Settles}

module _ {S : Type 0} where
  -- One answer with what the query gave, whose tables are as `Good` says.
  pub record Finished {A : Type 0} (code : ℕ) (body : A → Body)
      (Good : Tables → A → Tables → Type 0) (w : World S) (o : Exit Unit × World S) : Type 0 where
    pub result : A
    pub ended : o.0 ≡ returned
    pub calls : o.1.calls ≡ w.calls ++ json code (body result) ∷ []
    pub good : Good w.db.tables result o.1.db.tables

  module _ {A : Type 0} (code : ℕ) (body : A → Body) (Good : Tables → A → Tables → Type 0) where
    -- `k` answers `code` with the row, and a status of 400 or more with an error.
    pub record Closes (k : Result A → Handler S Unit) : Type 0 where
      pub on_ok : (a : A) (w : World S) → k (ok a) w ≡ respond code (body a) w
      pub status : Error → ℕ
      pub text : Error → Body
      pub is_error : (e : Error) → 400 ≤ status e
      pub on_err : (e : Error) (w : World S) → k (err e) w ≡ respond (status e) (text e) w

    Closes-cases :
        (k : Result A → Handler S Unit) (w : World S) (o : Result A × Db)
        → Closes k
        → Settles Good w.db.tables o
        → let out = k o.0 (record w { db = o.1 }) in Refused w out ⊎ Finished code body Good w out
    Closes-cases k w (ok a, d) c h =
        rw (c.on_ok a (record w { db = d }))
          (inr (record { result = a; ended = refl; calls = refl; good = h }))
    Closes-cases k w (err e, d) c h = rw (c.on_err e (record w { db = d })) (
        inl (record {
          code = c.status e;
          body = c.text e;
          is_error = c.is_error e;
          tables = h;
          calls = refl;
        }))

    pub query-Finished :
        (q : Query A) (k : Result A → Handler S Unit) (w : World S)
        → Closes k
        → Settles Good w.db.tables (q w.db)
        → let out = (query q >>= k) w in Refused w out ⊎ Finished code body Good w out
    unfolding ◌>>=◌
    query-Finished q k w c h = Closes-cases k w (q w.db) c h

    or_not_found-Closes : Closes (λ r. or_not_found r >>= λ a. respond code (body a))
    unfolding ◌>>=◌
    or_not_found-Closes = record {
      on_ok = λ a w. refl;
      status = λ e. if is_record_not_found e then 404 else 500;
      text = error;
      is_error = λ e. ground arith;
      on_err = λ e w. refl;
    }

    pub fetch-Finished :
        (q : Query A) (w : World S)
        → Settles Good w.db.tables (q w.db)
        → let out = (fetch q >>= λ a. respond code (body a)) w in
          Refused w out ⊎ Finished code body Good w out
    unfolding ◌>>=◌ fetch
    fetch-Finished q w h = Closes-cases _ w (q w.db) or_not_found-Closes h

  -- What goes on from a world that was only read keeps its meaning there.
  pub Finished-Same :
      {A : Type 0} {code : ℕ} {body : A → Body} {Good : Tables → A → Tables → Type 0}
      {w w' : World S} {o : Exit Unit × World S}
      → Same w w'
      → Finished code body Good w' o
      → Finished code body Good w o
  Finished-Same {Good} {o} s f = record {
    result = f.result;
    ended = f.ended;
    calls = rw (← s.calls) f.calls;
    good = rw (← s.tables) f.good;
  }
