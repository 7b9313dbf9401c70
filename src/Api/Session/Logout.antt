-- ===== src/Api/Session/Logout.antt =====
-- What `logoutUser` does as a whole.
use go2bank.Prelude.{
  String, ◌≡◌, refl, ◌∙◌, ◌⊎◌, inl, inr, Option, none, some, [], ◌∷◌, ◌++◌, append-snoc,
}
use go2bank.Prelude.Int.{negsuc}
use go2bank.Redis.Sparing.{Spares, IsKeyed, Spares-get}
use go2bank.Api.Session.Asking.{delete_session-Reads}
use go2bank.Api.Session.Renewal.{no_name, delete_session-gone}
use go2bank.Api.Gin.{
  panicked, go_on, next, returned, call, World, Exit, notice, respond, json, Handler, set_cookie,
  ◌>>=◌, ◌>>◌,
}
use go2bank.Api.Reading.{ReadsTo, Refused}
use go2bank.Api.Session.{sid_key, delete_session, Request, check_session, logout_user_handler}
use go2bank.Db.Model.{idle}
use go2bank.Redis.{KvStore, IsMap}

module _ {S : Type 0} (kv : KvStore S) (request : Request) where
  -- The session of the cookie is gone, so that it renews no token, whatever calls of the key-value
  -- store come in between, as long as none sets or deletes its name; and the cookies are deleted.
  pub record LoggedOut (w : World S) (o : Exit Unit × World S) : Type 0 where
    pub sid : String
    pub cookie : request.cookie "sid" ≡ some sid
    pub refused :
        (later : Request) (v : World S)
        → Spares kv (sid_key sid) o.1.kv v.kv
        → later.cookie "sid" ≡ some sid
        → (check_session kv later v).0 ≡ returned
    pub tables : o.1.db.tables ≡ w.db.tables
    pub calls :
        o.1.calls
        ≡ w.calls
          ++ set_cookie "sid" "" (negsuc 0)
            ∷ set_cookie "access_token" "" (negsuc 0)
            ∷ set_cookie "_gorilla_csrf" "" (negsuc 0)
            ∷ json 200 (notice "message" "logout successfully")
            ∷ []

  -- There was no session to end.
  pub record NoSession (w : World S) (o : Exit Unit × World S) : Type 0 where
    pub cookie : request.cookie "sid" ≡ none
    pub left :
        o.1 ≡ record w { calls = w.calls ++ json 200 (notice "message" "logout successfully") ∷ [] }

  -- What is done after the deletion of the session has ended.
  abbrev delete_cookies : Handler S Unit
  delete_cookies = do
    call (set_cookie "sid" "" (negsuc 0))
    call (set_cookie "access_token" "" (negsuc 0))
    call (set_cookie "_gorilla_csrf" "" (negsuc 0))

  abbrev goodbye : Handler S Unit
  goodbye = respond 200 (notice "message" "logout successfully")

  abbrev after_delete : Exit Unit × World S → Exit Unit × World S
  after_delete d = let c = go_on d.0 (λ _. delete_cookies) d.1 in go_on c.0 (λ _. goodbye) c.1

  after_delete-safe :
      IsMap kv
      → IsKeyed kv
      → (w : World S) (text sid : String) (d : Exit Unit × World S)
      → request.cookie "sid" ≡ some sid
      → delete_session kv text sid w ≡ d
      → ReadsTo w (λ _. Unit) d
      → Refused w (after_delete d) ⊎ LoggedOut w (after_delete d)
  unfolding ◌>>=◌
  after_delete-safe m k w text sid (next tt, v) c e (same, _) = inr (record {
    sid = sid;
    cookie = c;
    refused = λ later u spared asks.
        no_name kv m later sid u
          (Spares-get m k spared ∙ delete_session-gone kv m later text sid w v e) asks;
    tables = same.tables;
    calls = rw (same.calls, append-snoc, append-snoc, append-snoc) refl;
  })
  after_delete-safe m k w text sid (returned, v) c e h = inl h
  after_delete-safe m k w text sid (panicked, v) c e h = inl h

  -- A request to log out is refused, or had no session cookie and is answered 200, or its session
  -- renews no token as long as no call sets or deletes the session's name, the three cookies are
  -- deleted and the answer is 200. No table changes. The store of values is a map, and a command on
  -- one key leaves the value at another.
  pub logout_user_handler-safe :
      IsMap kv
      → IsKeyed kv
      → (w : World S) → w.db.tx ≡ idle
      → let o = logout_user_handler kv request w in Refused w o ⊎ (NoSession w o ⊎ LoggedOut w o)
  unfolding logout_user_handler ◌>>=◌
  logout_user_handler-safe m k w i = by_cookie _ refl
    where
      by_cookie :
          (c : Option String)
          → request.cookie "sid" ≡ c
          → let o = logout_user_handler kv request w in
            Refused w o ⊎ (NoSession w o ⊎ LoggedOut w o)
      by_cookie none e = rw e (inr (inl (record { cookie = e; left = refl })))
      by_cookie (some sid) e =
          rw e
            (elim (after_delete-safe m k w _ sid _ e refl (delete_session-Reads kv _ sid w i).at) [
              | inl refused ↦ inl refused
              | inr done_so ↦ inr (inr done_so)
            ])
