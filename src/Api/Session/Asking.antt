-- ===== src/Api/Session/Asking.antt =====
-- The parts of a session's handler that answer once or go on, with the tables left.
use go2bank.Prelude.{
  ℕ, ◌≤◌, String, ◌≡◌, refl, ◌⊎◌, inl, inr, Option, none, some, arith, leb, ◌==◌, nat_eq, string_eq,
  if◌then◌else◌, Bool-cases,
}
use go2bank.Api.Gin.{World}
use go2bank.Api.Reading.{Reads, respond-Reads, Reads-bind, done-Reads}
use go2bank.Api.Session.{
  or_error, save_session, check_session, or_unauthorized, on_kv, check_exists, Request, check_same,
  delete_session, or_expired, any_error, check_errors,
}
use go2bank.Db.Error.{Error}
use go2bank.Db.Model.{idle}
use go2bank.Db.Query.{err, Result, ok}
use go2bank.Redis.{KvStore}

module _ {S : Type 0} (kv : KvStore S) where
  on_kv-Reads :
      {A : Type 0} (op : S → A × S) (w : World S)
      → w.db.tx ≡ idle
      → Reads (on_kv kv op) w (λ _. Unit)
  on_kv-Reads op w i = record {
    at = (record { tables = refl; idle_still = i; payload = refl; calls = refl }, tt);
  }

  or_expired-Reads :
      (c : Option String) (w : World S) → w.db.tx ≡ idle → Reads (or_expired kv c) w (λ _. Unit)
  unfolding or_expired
  or_expired-Reads none w i = respond-Reads 401 _ w (omega arith)
  or_expired-Reads (some sid) w i = done-Reads sid w i tt

  check_exists-Reads :
      (n : Result ℕ) (w : World S) → w.db.tx ≡ idle → Reads (check_exists kv n) w (λ _. Unit)
  unfolding check_exists
  check_exists-Reads (ok n) w i = elim (Bool-cases (leb n 0)) [
    | inl e ↦ rw (e, if◌then◌else◌) (respond-Reads 401 _ w (omega arith))
    | inr e ↦ rw (e, if◌then◌else◌) (done-Reads tt w i tt)
  ]
  check_exists-Reads (err e) w i = respond-Reads 401 _ w (omega arith)

  or_unauthorized-Reads :
      (r : Result String) (w : World S)
      → w.db.tx ≡ idle
      → Reads (or_unauthorized kv r) w (λ _. Unit)
  unfolding or_unauthorized
  or_unauthorized-Reads (ok t) w i = done-Reads t w i tt
  or_unauthorized-Reads (err e) w i = respond-Reads 401 _ w (omega arith)

  check_same-Reads :
      (stored current text : String) (w : World S)
      → w.db.tx ≡ idle
      → Reads (check_same kv stored current text) w (λ _. Unit)
  unfolding check_same
  check_same-Reads stored current text w i = elim (Bool-cases (stored == current)) [
    | inl e ↦ rw (e, if◌then◌else◌) (done-Reads tt w i tt)
    | inr e ↦ rw (e, if◌then◌else◌) (respond-Reads 401 _ w (omega arith))
  ]

  pub check_session-Reads :
      (request : Request) (w : World S)
      → w.db.tx ≡ idle
      → Reads (check_session kv request) w (λ _. Unit)
  unfolding check_session
  check_session-Reads request w i = Reads-bind _ _ w (or_expired-Reads _ w i) λ sid w1 s1 _.
      Reads-bind _ _ w1 (on_kv-Reads _ w1 s1.idle_still) λ n w2 s2 _.
        Reads-bind _ _ w2 (check_exists-Reads n w2 s2.idle_still) λ _ w3 s3 _.
          Reads-bind _ _ w3 (on_kv-Reads _ w3 s3.idle_still) λ found w4 s4 _.
            Reads-bind _ _ w4 (or_unauthorized-Reads found w4 s4.idle_still) λ name w5 s5 _.
              Reads-bind _ _ w5 (on_kv-Reads _ w5 s5.idle_still) λ agent w6 s6 _.
                Reads-bind _ _ w6 (on_kv-Reads _ w6 s6.idle_still) λ ip w7 s7 _.
                  Reads-bind _ _ w7 (check_same-Reads _ _ _ w7 s7.idle_still) λ _ w8 s8 _.
                    Reads-bind _ _ w8 (check_same-Reads _ _ _ w8 s8.idle_still)
                      λ _ w9 s9 _. done-Reads _ w9 s9.idle_still tt

  pub or_error-Reads :
      {A : Type 0} (code : ℕ) (r : A ⊎ Error) (w : World S)
      → w.db.tx ≡ idle
      → 400 ≤ code
      → Reads (or_error kv code r) w (λ a. r ≡ inl a)
  unfolding or_error
  or_error-Reads code (inl a) w i h = done-Reads a w i refl
  or_error-Reads code (inr e) w i h = respond-Reads code _ w h

  check_errors-Reads :
      (text : String) (e1 e2 e3 : Option Error) (w : World S)
      → w.db.tx ≡ idle
      → Reads (check_errors kv text e1 e2 e3) w (λ _. Unit)
  unfolding check_errors
  check_errors-Reads text e1 e2 e3 w i = elim (Bool-cases (any_error e1 e2 e3)) [
    | inl e ↦ rw (e, if◌then◌else◌) (respond-Reads 500 _ w (omega arith))
    | inr e ↦ rw (e, if◌then◌else◌) (done-Reads tt w i tt)
  ]

  pub delete_session-Reads :
      (text sid : String) (w : World S)
      → w.db.tx ≡ idle
      → Reads (delete_session kv text sid) w (λ _. Unit)
  unfolding delete_session
  delete_session-Reads text sid w i = Reads-bind _ _ w (on_kv-Reads _ w i) λ e1 w1 s1 _.
      Reads-bind _ _ w1 (on_kv-Reads _ w1 s1.idle_still) λ e2 w2 s2 _.
        Reads-bind _ _ w2 (on_kv-Reads _ w2 s2.idle_still)
          λ e3 w3 s3 _. check_errors-Reads text e1 e2 e3 w3 s3.idle_still

  pub save_session-Reads :
      (text : String) (request : Request) (sid username : String) (duration : ℕ) (w : World S)
      → w.db.tx ≡ idle
      → Reads (save_session kv text request sid username duration) w (λ _. Unit)
  unfolding save_session
  save_session-Reads text request sid username duration w i =
      Reads-bind _ _ w (on_kv-Reads _ w i) λ e1 w1 s1 _.
        Reads-bind _ _ w1 (on_kv-Reads _ w1 s1.idle_still) λ e2 w2 s2 _.
          Reads-bind _ _ w2 (on_kv-Reads _ w2 s2.idle_still)
            λ e3 w3 s3 _. check_errors-Reads text e1 e2 e3 w3 s3.idle_still
