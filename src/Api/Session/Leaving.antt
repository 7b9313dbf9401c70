-- ===== src/Api/Session/Leaving.antt =====
-- The parts of a session's handler that leave the store.
use go2bank.Prelude.{ℕ, String, ◌≡◌, refl, ◌⊎◌, inl, inr, Option, if◌then◌else◌, Bool-cases}
use go2bank.Api.Gin.{World, Body, respond}
use go2bank.Api.Quiet.{done-Quiet, on_kv-Quiet, Quiet, Quiet-bind}
use go2bank.Api.Session.{any_error, check_errors, Request, save_session, or_error}
use go2bank.Db.Error.{Error}
use go2bank.Redis.{KvStore}

module _ {S : Type 0} (kv : KvStore S) where
  pub respond-Quiet :
      {A : Type 0} {Fact : A → World S → Type 0} (code : ℕ) (body : Body) (w : World S)
      → Quiet (respond code body) w Fact
  respond-Quiet code body w = record { at = refl }

  pub or_error-Quiet :
      {A : Type 0} (code : ℕ) (r : A ⊎ Error) (w : World S)
      → Quiet (or_error kv code r) w (λ a _. r ≡ inl a)
  unfolding or_error
  or_error-Quiet code (inl a) w = done-Quiet a w refl
  or_error-Quiet code (inr e) w = respond-Quiet code _ w

  check_errors-Quiet :
      (text : String) (e1 e2 e3 : Option Error) (w : World S)
      → Quiet (check_errors kv text e1 e2 e3) w (λ _ _. Unit)
  unfolding check_errors
  check_errors-Quiet text e1 e2 e3 w = elim (Bool-cases (any_error e1 e2 e3)) [
    | inl e ↦ rw (e, if◌then◌else◌) (respond-Quiet 500 _ w)
    | inr e ↦ rw (e, if◌then◌else◌) (done-Quiet tt w tt)
  ]

  pub save_session-Quiet :
      (text : String) (request : Request) (sid username : String) (duration : ℕ) (w : World S)
      → Quiet (save_session kv text request sid username duration) w (λ _ _. Unit)
  unfolding save_session
  save_session-Quiet text request sid username duration w =
      Quiet-bind _ _ w (on_kv-Quiet kv _ w) λ e1 w1 s1 _.
        Quiet-bind _ _ w1 (on_kv-Quiet kv _ w1) λ e2 w2 s2 _.
          Quiet-bind _ _ w2 (on_kv-Quiet kv _ w2) λ e3 w3 s3 _. check_errors-Quiet text e1 e2 e3 w3
