-- ===== src/Api/Session/Renewal.antt =====
-- A session that is saved passes the checks of `renewAccessToken`.
use go2bank.Prelude.{
  ℕ, ◌+◌, String, count, ◌≡◌, refl, ap, ◌∙◌, ◌≢◌, inl, inr, false, Option, none, some, arith, leb,
  Bool-cases,
}
use go2bank.Redis.Sparing.{Spares, IsKeyed, Spares-get}
use go2bank.Api.Gin.{returned, World, Exit, ◌>>=◌, next}
use go2bank.Db.Error.{message, Error}
use go2bank.Db.Query.{Result-cases, err, ok}
use go2bank.Redis.{pair_path, KvStore, IsMap}
use go2bank.Api.Session.{
  delete_session, check_session, check_errors, save_session, Request, user_agent_key, sid_key,
  ip_key,
}
use text.Mathlib.TextPositions.{eq_refl}
use text.Mathlib.TextLemmas.{append_cancel_left, length-append}

-- The keys of one session are different.
sid≢user_agent : (sid : String) → sid_key sid ≢ user_agent_key sid
sid≢user_agent sid h =
    let e = ap count h in
    let l = length-append (sid_key sid) ":user_agent" in absurd (omega (arith, e, l))

user_agent≢ip : (sid : String) → user_agent_key sid ≢ ip_key sid
user_agent≢ip sid h =
    let e = append_cancel_left (sid_key sid) ":user_agent" ":ip" h in
    let f = ap count e in absurd (omega (arith, f))

sid≢ip : (sid : String) → sid_key sid ≢ ip_key sid
sid≢ip sid h =
    let e = ap count h in let l = length-append (sid_key sid) ":ip" in absurd (omega (arith, e, l))

positive : (n : ℕ) → leb (n + 1) 0 ≡ false
positive n = ground arith

module _ {S : Type 0} (kv : KvStore S) where
  -- What three calls of `Set` leave, where they all go through.
  pub record IsSaved (request : Request) (sid username : String) (s : S) : Type 0 where
    pub name_at : (kv.get (sid_key sid) s).0 ≡ ok username
    pub user_agent_at : (kv.get (user_agent_key sid) s).0 ≡ ok (request.header "User-Agent")
    pub ip_at : (kv.get (ip_key sid) s).0 ≡ ok request.client_ip

  module _ (m : IsMap kv) (request : Request) (sid username : String) (duration : ℕ) where
    abbrev set1 : S → Option Error × S
    set1 s = kv.set (sid_key sid) username duration s

    abbrev set2 : S → Option Error × S
    set2 s = kv.set (user_agent_key sid) (request.header "User-Agent") duration s

    abbrev set3 : S → Option Error × S
    set3 s = kv.set (ip_key sid) request.client_ip duration s

    three_sets :
        (s : S)
        → (set1 s).0 ≡ none
        → (set2 (set1 s).1).0 ≡ none
        → (set3 (set2 (set1 s).1).1).0 ≡ none
        → IsSaved request sid username (set3 (set2 (set1 s).1).1).1
    three_sets s a b c =
        let s1 = (set1 s).1 in
        let s2 = (set2 s1).1 in
        record {
          name_at =
              m.get-set_other (ip_key sid) request.client_ip (sid_key sid) duration s2 (sid≢ip sid)
              ∙ m.get-set_other (user_agent_key sid) (request.header "User-Agent") (sid_key sid)
                  duration s1 (sid≢user_agent sid)
              ∙ m.get-set (sid_key sid) username duration s s1 (pair_path (set1 s) a);
          user_agent_at =
              m.get-set_other (ip_key sid) request.client_ip (user_agent_key sid) duration s2
                (user_agent≢ip sid)
              ∙ m.get-set (user_agent_key sid) (request.header "User-Agent") duration s1 s2
                  (pair_path (set2 s1) b);
          ip_at =
              m.get-set (ip_key sid) request.client_ip duration s2 (set3 s2).1
                (pair_path (set3 s2) c);
        }

    check_errors-next :
        (text : String) (e1 e2 e3 : Option Error) (w w' : World S)
        → check_errors kv text e1 e2 e3 w ≡ (next tt, w')
        → (e1 ≡ none) × (e2 ≡ none) × (e3 ≡ none) × (w ≡ w')
    unfolding check_errors
    check_errors-next text none none none w w' h =
        (refl, refl, refl, ap (λ (o : Exit Unit × World S). o.1) h)
    check_errors-next text none none (some _) w w' h = cc
    check_errors-next text none (some _) e3 w w' h = cc
    check_errors-next text (some _) e2 e3 w w' h = cc

    pub save_session-IsSaved :
        (text : String) (w w' : World S)
        → save_session kv text request sid username duration w ≡ (next tt, w')
        → IsSaved request sid username w'.kv
    unfolding save_session ◌>>=◌
    save_session-IsSaved text w w' h =
        let (a, b, c, e) = check_errors-next text _ _ _ _ w' h in rw (← e) (three_sets w.kv a b c)

    check_session-next :
        (w : World S)
        → IsSaved request sid username w.kv
        → request.cookie "sid" ≡ some sid
        → check_session kv request w ≡ (next (sid, username), w)
    unfolding check_session ◌>>=◌
    check_session-next w saved cookie =
        let (n, known) = m.exists_of_get (sid_key sid) username w.kv saved.name_at in
        rw
          (
            cookie,
            known,
            m.exists-reads (sid_key sid) w.kv,
            positive n,
            saved.name_at,
            m.get-reads (sid_key sid) w.kv,
            saved.user_agent_at,
            m.get-reads (user_agent_key sid) w.kv,
            saved.ip_at,
            m.get-reads (ip_key sid) w.kv,
            eq_refl (request.header "User-Agent"),
            eq_refl request.client_ip,
          )
          refl

  -- A session that was saved without an error lets its user renew the access token: a later request
  -- with its id, the same user agent and the same address passes the checks as that user, and
  -- nothing changes. The store of values is a map, and time does not pass.
  pub check_session-save_session :
      IsMap kv
      → (request later : Request) (text sid username : String) (duration : ℕ) (w w' : World S)
      → save_session kv text request sid username duration w ≡ (next tt, w')
      → later.cookie "sid" ≡ some sid
      → later.header "User-Agent" ≡ request.header "User-Agent"
      → later.client_ip ≡ request.client_ip
      → check_session kv later w' ≡ (next (sid, username), w')
  check_session-save_session m request later text sid username duration w w' h cookie agent ip =
      let saved = save_session-IsSaved m request sid username duration text w w' h in
      check_session-next m later sid username duration w'
        (record {
          name_at = saved.name_at;
          user_agent_at = rw agent saved.user_agent_at;
          ip_at = rw ip saved.ip_at;
        })
        cookie

  deleted_name :
      IsMap kv
      → (sid : String) (s : S) → (kv.del (sid_key sid) s).0 ≡ none
      → (kv.get
          (sid_key sid)
          (kv.del (ip_key sid) (kv.del (user_agent_key sid) (kv.del (sid_key sid) s).1).1).1).0
        ≡ err (message "redis: nil")
  deleted_name m sid s a =
      m.get-del_other (ip_key sid) (sid_key sid) _ (sid≢ip sid)
      ∙ m.get-del_other (user_agent_key sid) (sid_key sid) _ (sid≢user_agent sid)
      ∙ m.get-del (sid_key sid) s _ (pair_path (kv.del (sid_key sid) s) a)

  pub no_name :
      IsMap kv
      → (later : Request) (sid : String) (w : World S)
      → (kv.get (sid_key sid) w.kv).0 ≡ err (message "redis: nil")
      → later.cookie "sid" ≡ some sid
      → (check_session kv later w).0 ≡ returned
  unfolding check_session ◌>>=◌
  no_name m later sid w gone cookie = elim (Result-cases (kv.exists (sid_key sid) w.kv).0) [
    | inl (e, refused) ↦ rw (cookie, refused) refl
    | inr (n, found) ↦ elim (Bool-cases (leb n 0)) [
      | inl none_left ↦ rw (cookie, found, none_left) refl
      | inr some_left ↦ rw (cookie, found, some_left, m.exists-reads (sid_key sid) w.kv, gone) refl
    ]
  ]

  pub delete_session-gone :
      IsMap kv
      → (request : Request) (text sid : String) (w w' : World S)
      → delete_session kv text sid w ≡ (next tt, w')
      → (kv.get (sid_key sid) w'.kv).0 ≡ err (message "redis: nil")
  unfolding delete_session ◌>>=◌
  delete_session-gone m request text sid w w' h =
      let (a, b, c, e) = check_errors-next m request sid "" 0 text _ _ _ _ w' h in
      rw (← e) (deleted_name m sid w.kv a)

  pub save_session-other :
      IsMap kv
      → (request : Request) (text sid username key : String) (duration : ℕ) (w w' : World S)
      → save_session kv text request sid username duration w ≡ (next tt, w')
      → key ≢ sid_key sid
      → key ≢ user_agent_key sid
      → key ≢ ip_key sid
      → (kv.get key w'.kv).0 ≡ (kv.get key w.kv).0
  unfolding save_session ◌>>=◌
  save_session-other m request text sid username key duration w w' h x y z =
      let (a, b, c, e) = check_errors-next m request sid username duration text _ _ _ _ w' h in
      rw (← e) (
        m.get-set_other (ip_key sid) request.client_ip key duration _ z
        ∙ m.get-set_other (user_agent_key sid) (request.header "User-Agent") key duration _ y
        ∙ m.get-set_other (sid_key sid) username key duration w.kv x)

  -- A session that was deleted without an error is refused from then on, whatever calls of the
  -- key-value store come in between, as long as none sets or deletes the name of that session.
  pub check_session-delete_session :
      IsMap kv
      → IsKeyed kv
      → (later : Request) (text sid : String) (w w' v : World S)
      → delete_session kv text sid w ≡ (next tt, w')
      → Spares kv (sid_key sid) w'.kv v.kv
      → later.cookie "sid" ≡ some sid
      → (check_session kv later v).0 ≡ returned
  check_session-delete_session m k later text sid w w' v h spared cookie =
      no_name m later sid v (Spares-get m k spared ∙ delete_session-gone m later text sid w w' h)
        cookie
