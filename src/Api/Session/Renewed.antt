-- ===== src/Api/Session/Renewed.antt =====
-- What `renewAccessToken` does as a whole.
use go2bank.Prelude.{
  ℕ, ◌≤◌, String, ◌≡◌, refl, ap, ◌∙◌, ◌≢◌, ◌⊎◌, inl, inr, Option, some, [], ◌∷◌, ◌++◌, arith,
  if◌then◌else◌, Bool-cases, append-snoc,
}
use go2bank.Api.Middleware.Window.{kept}
use go2bank.Util.Config.{Config}
use go2bank.Api.Gin.{
  respond, go_on, call, Handler, returned, panicked, ◌>>=◌, ◌>>◌, next, json, Call, World, Body,
  Exit, set_same_site_lax, set_cookie, notice,
}
use go2bank.Api.Reading.{Same-trans, Same, ReadsTo, bind_eq-Reads, Refused, bind-Reads, fetch-Reads}
use go2bank.Api.Session.{
  any_error, check_errors, save_session, seconds, user_agent_key, sid_key,
  renew_access_token_handler, ip_key, Draw, Request,
}
use go2bank.Api.Session.Asking.{
  save_session-Reads, or_error-Reads, delete_session-Reads, check_session-Reads,
}
use go2bank.Api.Session.Checked.{check_session-IsSession, IsSession}
use go2bank.Api.Session.Renewal.{
  delete_session-gone, save_session-IsSaved, save_session-other, IsSaved,
}
use go2bank.Db.Error.{Error, message}
use go2bank.Db.Model.{User, idle}
use go2bank.Db.Query.{err}
use go2bank.Db.User.{user_of-ok, find_user, user_of, get_user-HasRead}
use go2bank.Redis.{IsMap, KvStore}
use go2bank.Token.{Paseto, Maker}

-- The keys of a new session are none of the three of the old one.
pub record IsNew (sid old : String) : Type 0 where
  pub name : sid_key old ≢ sid_key sid
  pub user_agent : sid_key old ≢ user_agent_key sid
  pub ip : sid_key old ≢ ip_key sid

module _ {S : Type 0} (kv : KvStore S) (config : Config) (request : Request) (draw : Draw) where
  -- The request came with a session that stands, of a user who exists.
  pub record MayRenew (w : World S) : Type 0 where
    pub sid : String
    pub username : String
    pub found : User
    pub stands : IsSession kv request sid username w.kv
    pub is_user : find_user username w.db.users ≡ some found

  abbrev sid_cookie : Call
  sid_cookie = set_cookie "sid" draw.session_id (seconds config.refresh_token_duration)

  -- An answer of status 400 or more after the cookie of a new session, which may not be stored.
  pub record HalfRenewed (w : World S) (o : Exit Unit × World S) : Type 0 where
    pub may : MayRenew w
    pub code : ℕ
    pub body : Body
    pub is_error : 400 ≤ code
    pub tables : o.1.db.tables ≡ w.db.tables
    pub calls : o.1.calls ≡ w.calls ++ set_same_site_lax ∷ sid_cookie ∷ json code body ∷ []

  -- The new session stands for the same user agent and address, and the old one is gone.
  pub record Renewed (w : World S) (o : Exit Unit × World S) : Type 0 where
    pub may : MayRenew w
    pub token : String
    pub tables : o.1.db.tables ≡ w.db.tables
    pub saved : IsSaved kv request draw.session_id may.found.username o.1.kv
    pub gone :
        IsNew draw.session_id may.sid
        → (kv.get (sid_key may.sid) o.1.kv).0 ≡ err (message "redis: nil")
    pub calls :
        o.1.calls
        ≡ w.calls
          ++ set_same_site_lax
            ∷ sid_cookie
            ∷ set_cookie "access_token" token (seconds config.access_token_duration)
            ∷ json 200 (notice "status" "success")
            ∷ []

  -- What is done once the old session is deleted.
  pub set_new : String → User → Handler S Unit
  set_new token found = do
    call set_same_site_lax
    call sid_cookie
    save_session kv "failed to set session in redis when renewing access token" request
        draw.session_id found.username config.refresh_token_duration
    call (set_cookie "access_token" token (seconds config.access_token_duration))
    respond 200 (notice "status" "success")

  check_errors-ends :
      (text : String) (e1 e2 e3 : Option Error) (w : World S)
      → (check_errors kv text e1 e2 e3 w).0 ≢ panicked
  unfolding check_errors
  check_errors-ends text e1 e2 e3 w h = elim (Bool-cases (any_error e1 e2 e3)) [
    | inl e ↦ absurd (let k = rw (e, if◌then◌else◌) at h in cc)
    | inr e ↦ absurd (let k = rw (e, if◌then◌else◌) at h in cc)
  ]

  save_session-ends :
      (text : String) (asked : Request) (sid username : String) (duration : ℕ) (w : World S)
      → (save_session kv text asked sid username duration w).0 ≢ panicked
  unfolding save_session ◌>>=◌
  save_session-ends text asked sid username duration w h = check_errors-ends text _ _ _ _ h

  set_new-safe :
      IsMap kv
      → (w w' : World S) (may : MayRenew w) (token : String) → Same w w'
      → (kv.get (sid_key may.sid) w'.kv).0 ≡ err (message "redis: nil")
      → let o = set_new token may.found w' in HalfRenewed w o ⊎ Renewed w o
  unfolding set_new ◌>>=◌
  set_new-safe m w w' may token same gone =
      by_end _ refl
        (save_session-Reads kv text request draw.session_id may.found.username
          config.refresh_token_duration w6 same.idle_still).at
    where
      text : String
      text = "failed to set session in redis when renewing access token"

      w6 : World S
      w6 = record w' { calls = (w'.calls ++ set_same_site_lax ∷ []) ++ sid_cookie ∷ [] }

      by_end :
          (o : Exit Unit × World S)
          → save_session kv text request draw.session_id may.found.username
              config.refresh_token_duration w6
            ≡ o
          → ReadsTo w6 (λ _. Unit) o
          → let out =
              go_on o.0
                (λ _. do
                  call (set_cookie "access_token" token (seconds config.access_token_duration))
                  respond 200 (notice "status" "success"))
                o.1 in
            HalfRenewed w out ⊎ Renewed w out
      by_end (next tt, v) e (kept, _) = inr (record {
        may = may;
        token = token;
        tables = kept.tables ∙ same.tables;
        saved =
            save_session-IsSaved kv m request draw.session_id may.found.username
              config.refresh_token_duration text w6 v e;
        gone = λ new.
            save_session-other kv m request text draw.session_id may.found.username
              (sid_key may.sid) config.refresh_token_duration w6 v e new.name new.user_agent new.ip
            ∙ gone;
        calls = rw (kept.calls, same.calls, append-snoc, append-snoc, append-snoc) refl;
      })
      by_end (returned, v) e h = inl (record {
        may = may;
        code = h.code;
        body = h.body;
        is_error = h.is_error;
        tables = h.tables ∙ same.tables;
        calls = rw (h.calls, same.calls, append-snoc, append-snoc) refl;
      })
      by_end (panicked, v) e h =
          absurd (save_session-ends _ _ _ _ _ w6 (ap (λ (o : Exit Unit × World S). o.0) e))

  -- A request to renew the access token is refused, with one answer of status 400 or more, or it
  -- came with a session that stands, of the same user agent and address and of a user who exists.
  -- Then it is answered with an error after
  -- the cookie of the new session, or the new session is stored for
  -- that user, the old one is gone, and the answer is 200. No table changes. The store of values is
  -- a map, and the new id is none of those that make up the keys of the old one.
  pub renew_access_token_handler-safe :
      IsMap kv
      → (paseto : Paseto) (maker : Maker) (w : World S) → w.db.tx ≡ idle
      → let o = renew_access_token_handler kv paseto maker config request draw w in
        Refused w o ⊎ (HalfRenewed w o ⊎ Renewed w o)
  unfolding renew_access_token_handler set_new
  renew_access_token_handler-safe m paseto maker w i =
      let Good = λ (o : Exit Unit × World S). HalfRenewed w o ⊎ Renewed w o in
      bind_eq-Reads Good _ _ w (check_session-Reads kv request w i) λ session w1 e1 s1 _.
        let (stands, same1) = check_session-IsSession kv m request w w1 session e1 in
        bind_eq-Reads Good _ _ w1
          (fetch-Reads _ (λ t. user_of (find_user session.1 t.users)) (get_user-HasRead session.1)
            w1 s1.idle_still)
          λ found w2 e2 s2 row.
            bind-Reads Good _ _ w2 (or_error-Reads kv 500 _ w2 s2.idle_still (omega arith))
              λ token w3 s3 _.
                bind_eq-Reads Good _ _ w3 (delete_session-Reads kv _ session.0 w3 s3.idle_still)
                  λ _ w4 e4 s4 _. inr (
                    set_new-safe m w w4
                      (record {
                        sid = session.0;
                        username = session.1;
                        found = found;
                        stands = stands;
                        is_user = user_of-ok _ found (rw (← s1.tables) row);
                      })
                      token.0 (Same-trans s1 (Same-trans s2 (Same-trans s3 s4)))
                      (delete_session-gone kv m request _ session.0 w3 w4 e4))
