-- ===== src/Api/Session/Checked.antt =====
-- What the checks of `renewAccessToken` have established where they pass.
use go2bank.Prelude.{
  ℕ, String, ◌≡◌, refl, sym, ap, ◌∙◌, inl, inr, Option, none, some, eq_iff, leb, ◌==◌, nat_eq,
  string_eq, if◌then◌else◌, Bool-cases,
}
use go2bank.Api.Gin.{next-injective, World, bind_next_rec, next}
use go2bank.Api.Session.{
  on_kv, check_exists, ip_key, check_session, sid_key, or_expired, check_same, text_of,
  user_agent_key, or_unauthorized, Request,
}
use go2bank.Db.Query.{err, Result, ok}
use go2bank.Redis.{KvStore, IsMap}

module _ {S : Type 0} (kv : KvStore S) where
  -- The session that the cookie names is stored, with the request's user agent and address. A value
  -- that is not found counts as the empty text.
  pub record IsSession (request : Request) (sid username : String) (s : S) : Type 0 where
    pub cookie : request.cookie "sid" ≡ some sid
    pub name_at : (kv.get (sid_key sid) s).0 ≡ ok username
    pub user_agent_at : text_of kv (kv.get (user_agent_key sid) s).0 ≡ request.header "User-Agent"
    pub ip_at : text_of kv (kv.get (ip_key sid) s).0 ≡ request.client_ip

  or_expired-next :
      (c : Option String) (w w' : World S) (sid : String)
      → or_expired kv c w ≡ (next sid, w')
      → (c ≡ some sid) × (w ≡ w')
  unfolding or_expired
  or_expired-next none w w' sid h = cc
  or_expired-next (some t) w w' sid h = let (a, b) = next-injective h in (rw a refl, b)

  check_exists-next : (n : Result ℕ) (w w' : World S) → check_exists kv n w ≡ (next tt, w') → w ≡ w'
  unfolding check_exists
  check_exists-next (ok n) w w' h = elim (Bool-cases (leb n 0)) [
    | inl e ↦ absurd (let k = rw (e, if◌then◌else◌) at h in cc)
    | inr e ↦ (next-injective (rw (e, if◌then◌else◌) at h)).1
  ]
  check_exists-next (err e) w w' h = cc

  or_unauthorized-next :
      (r : Result String) (w w' : World S) (a : String)
      → or_unauthorized kv r w ≡ (next a, w')
      → (r ≡ ok a) × (w ≡ w')
  unfolding or_unauthorized
  or_unauthorized-next (ok t) w w' a h = let (e, f) = next-injective h in (rw e refl, f)
  or_unauthorized-next (err e) w w' a h = cc

  check_same-next :
      (stored current text : String) (w w' : World S)
      → check_same kv stored current text w ≡ (next tt, w')
      → (stored ≡ current) × (w ≡ w')
  unfolding check_same
  check_same-next stored current text w w' h = elim (Bool-cases (stored == current)) [
    | inl e ↦ ((eq_iff stored current).0 e, (next-injective (rw (e, if◌then◌else◌) at h)).1)
    | inr e ↦ absurd (let k = rw (e, if◌then◌else◌) at h in cc)
  ]

  on_kv-reads :
      {A : Type 0} (op : S → A × S) (w w' : World S) (a : A)
      → ((s : S) → (op s).1 ≡ s)
      → on_kv kv op w ≡ (next a, w')
      → ((op w.kv).0 ≡ a) × (w ≡ w')
  on_kv-reads op w w' a reads h =
      let (e, f) = next-injective h in (e, ap (λ s. record w { kv = s }) (sym (reads w.kv)) ∙ f)

  -- The checks pass only for a session that stands, and leave the world.
  pub check_session-IsSession :
      IsMap kv
      → (request : Request) (w w' : World S) (session : String × String)
      → check_session kv request w ≡ (next session, w')
      → IsSession request session.0 session.1 w.kv × (w ≡ w')
  unfolding check_session
  check_session-IsSession m request w w' session h = bind_next_rec _ _ w h λ sid w1 h1 r1.
      bind_next_rec _ _ w1 r1 λ n w2 h2 r2. bind_next_rec _ _ w2 r2 λ _ w3 h3 r3.
        bind_next_rec _ _ w3 r3 λ found w4 h4 r4. bind_next_rec _ _ w4 r4 λ username w5 h5 r5.
          bind_next_rec _ _ w5 r5 λ agent w6 h6 r6. bind_next_rec _ _ w6 r6 λ ip w7 h7 r7.
            bind_next_rec _ _ w7 r7 λ _ w8 h8 r8. bind_next_rec _ _ w8 r8 λ _ w9 h9 r9.
              let (cookie, e1) = or_expired-next _ w w1 sid h1 in
              let (_, e2) =
                on_kv-reads (kv.exists (sid_key sid)) w1 w2 n (m.exists-reads (sid_key sid)) h2 in
              let e3 = check_exists-next n w2 w3 h3 in
              let (got, e4) =
                on_kv-reads (kv.get (sid_key sid)) w3 w4 found (m.get-reads (sid_key sid)) h4 in
              let (name, e5) = or_unauthorized-next found w4 w5 username h5 in
              let (got_agent, e6) =
                on_kv-reads (kv.get (user_agent_key sid)) w5 w6 agent
                  (m.get-reads (user_agent_key sid)) h6 in
              let (got_ip, e7) =
                on_kv-reads (kv.get (ip_key sid)) w6 w7 ip (m.get-reads (ip_key sid)) h7 in
              let (same_agent, e8) = check_same-next _ _ _ w7 w8 h8 in
              let (same_ip, e9) = check_same-next _ _ _ w8 w9 h9 in
              let (is_session, e10) = next-injective r9 in
              rw (← is_session) (
                record { cookie = cookie; name_at = cc; user_agent_at = cc; ip_at = cc },
                e1 ∙ e2 ∙ e3 ∙ e4 ∙ e5 ∙ e6 ∙ e7 ∙ e8 ∙ e9 ∙ e10,
              )
