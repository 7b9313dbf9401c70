-- ===== src/Api/Quiet.antt =====
-- The parts of a middleware that leave the store and the payload: they answer, set headers, and
-- call the key-value store.
use go2bank.Prelude.{ℕ, ◌≡◌, refl, ◌∙◌, ◌⊎◌, inl, inr, Option, none, some}
use go2bank.Api.Gin.{
  Exit, call, json, panic, done, returned, World, must_get, panicked, stop, granted, go_on, abort,
  Call, Body, Handler, ◌>>=◌, next,
}
use go2bank.Api.Middleware.{json_and_abort, abort_with, abort_with_return}
use go2bank.Api.Session.{on_kv}
use go2bank.Redis.{KvStore}
use go2bank.Token.{Payload}

module _ {S : Type 0} where
  pub record Stays (w w' : World S) : Type 0 where
    pub db : w'.db ≡ w.db
    pub payload : w'.payload ≡ w.payload

  abbrev pub QuietTo : {A : Type 0} → World S → (A → World S → Type 0) → Exit A × World S → Type 0
  QuietTo w Fact (next a, w') = Stays w w' × Fact a w'
  QuietTo w Fact (returned, w') = w'.db ≡ w.db
  QuietTo w Fact (panicked, w') = w'.db ≡ w.db

  pub record Quiet {A : Type 0} (m : Handler S A) (w : World S) (Fact : A → World S → Type 0)
      : Type 0 where
    pub at : QuietTo w Fact (m w)

  pub Stays-refl : (w : World S) → Stays w w
  Stays-refl w = record { db = refl; payload = refl }

  pub Stays-trans : {u v w : World S} → Stays u v → Stays v w → Stays u w
  Stays-trans s t = record { db = t.db ∙ s.db; payload = t.payload ∙ s.payload }

  go_on-Quiet :
      {A B : Type 0} {Fact : A → World S → Type 0} (Good : Exit B × World S → Type 0)
      (f : A → Handler S B) (w : World S) (o : Exit A × World S)
      → QuietTo w Fact o
      → ((a : A) (w' : World S) → Stays w w' → Fact a w' → ((f a w').1.db ≡ w'.db) ⊎ Good (f a w'))
      → ((go_on o.0 f o.1).1.db ≡ w.db) ⊎ Good (go_on o.0 f o.1)
  go_on-Quiet Good f w (next a, w') (s, fact) k = elim (k a w' s fact) [
    | inl h ↦ inl (h ∙ s.db)
    | inr g ↦ inr g
  ]
  go_on-Quiet Good f w (returned, w') h k = inl h
  go_on-Quiet Good f w (panicked, w') h k = inl h

  -- A block that begins quietly leaves the store, or does well what is left of it.
  pub bind-Quiet :
      {A B : Type 0} {Fact : A → World S → Type 0} (Good : Exit B × World S → Type 0)
      (m : Handler S A) (f : A → Handler S B) (w : World S)
      → Quiet m w Fact
      → ((a : A) (w' : World S) → Stays w w' → Fact a w' → ((f a w').1.db ≡ w'.db) ⊎ Good (f a w'))
      → (((m >>= f) w).1.db ≡ w.db) ⊎ Good ((m >>= f) w)
  unfolding ◌>>=◌
  bind-Quiet Good m f w q k = go_on-Quiet Good f w (m w) q.at k

  QuietTo-Stays :
      {B : Type 0} (Then : B → World S → Type 0) {w w' : World S} (o : Exit B × World S)
      → Stays w w'
      → QuietTo w' Then o
      → QuietTo w Then o
  QuietTo-Stays Then (next b, v) s (t, fact) = (Stays-trans s t, fact)
  QuietTo-Stays Then (returned, v) s h = h ∙ s.db
  QuietTo-Stays Then (panicked, v) s h = h ∙ s.db

  go_on-QuietTo :
      {A B : Type 0} {Fact : A → World S → Type 0} (Then : B → World S → Type 0)
      (f : A → Handler S B) (w : World S) (o : Exit A × World S)
      → QuietTo w Fact o
      → ((a : A) (w' : World S) → Stays w w' → Fact a w' → Quiet (f a) w' Then)
      → QuietTo w Then (go_on o.0 f o.1)
  go_on-QuietTo Then f w (next a, w') (s, fact) k = QuietTo-Stays Then _ s (k a w' s fact).at
  go_on-QuietTo Then f w (returned, w') h k = h
  go_on-QuietTo Then f w (panicked, w') h k = h

  pub Quiet-bind :
      {A B : Type 0} {Fact : A → World S → Type 0} {Then : B → World S → Type 0} (m : Handler S A)
      (f : A → Handler S B) (w : World S)
      → Quiet m w Fact
      → ((a : A) (w' : World S) → Stays w w' → Fact a w' → Quiet (f a) w' Then)
      → Quiet (m >>= f) w Then
  unfolding ◌>>=◌
  Quiet-bind {Then} m f w q k = record { at = go_on-QuietTo Then f w (m w) q.at k }

  weaken-QuietTo :
      {A : Type 0} (Fact Then : A → World S → Type 0) (w : World S) (o : Exit A × World S)
      → QuietTo w Fact o
      → ((a : A) (w' : World S) → Fact a w' → Then a w')
      → QuietTo w Then o
  weaken-QuietTo Fact Then w (next a, v) q k = (q.0, k a v q.1)
  weaken-QuietTo Fact Then w (returned, v) q k = q
  weaken-QuietTo Fact Then w (panicked, v) q k = q

  pub Quiet-weaken :
      {A : Type 0} {Fact Then : A → World S → Type 0} {m : Handler S A} {w : World S}
      → Quiet m w Fact
      → ((a : A) (w' : World S) → Fact a w' → Then a w')
      → Quiet m w Then
  Quiet-weaken {Fact} {Then} {m} {w} q k = record { at = weaken-QuietTo Fact Then w (m w) q.at k }

  pub done-Quiet :
      {A : Type 0} {Fact : A → World S → Type 0} (a : A) (w : World S)
      → Fact a w
      → Quiet (done a) w Fact
  done-Quiet a w fact = record { at = (Stays-refl w, fact) }

  pub call-Quiet : (c : Call) (w : World S) → Quiet (call c) w (λ _ _. Unit)
  call-Quiet c w = record { at = (record { db = refl; payload = refl }, tt) }

  -- A call on the context leaves the key-value store.
  pub call-Still : (c : Call) (w : World S) → Quiet (call c) w (λ _ w'. w'.kv ≡ w.kv)
  call-Still c w = record { at = (record { db = refl; payload = refl }, refl) }

  pub stop-Quiet : {A : Type 0} {Fact : A → World S → Type 0} (w : World S) → Quiet stop w Fact
  stop-Quiet w = record { at = refl }

  pub panic-Quiet : {A : Type 0} {Fact : A → World S → Type 0} (w : World S) → Quiet panic w Fact
  panic-Quiet w = record { at = refl }

  pub json_and_abort-Quiet :
      {A : Type 0} {Fact : A → World S → Type 0} (code : ℕ) (body : Body) (w : World S)
      → Quiet (json_and_abort code body) w Fact
  json_and_abort-Quiet code body w =
      Quiet-bind _ _ w (call-Quiet (json code body) w)
        λ _ w1 s1 _. Quiet-bind _ _ w1 (call-Quiet abort w1) λ _ w2 s2 _. stop-Quiet w2

  pub abort_with-Quiet :
      (code : ℕ) (body : Body) (w : World S) → Quiet (abort_with code body) w (λ _ _. Unit)
  abort_with-Quiet code body w =
      Quiet-bind _ _ w (call-Quiet abort w) λ _ w1 s1 _. call-Quiet (json code body) w1

  pub abort_with-Still :
      (code : ℕ) (body : Body) (w : World S) → Quiet (abort_with code body) w (λ _ w'. w'.kv ≡ w.kv)
  abort_with-Still code body w =
      Quiet-bind _ _ w (call-Still abort w) λ _ w1 s1 e. rw (← e) (call-Still (json code body) w1)

  pub abort_with_return-Quiet :
      {A : Type 0} {Fact : A → World S → Type 0} (code : ℕ) (body : Body) (w : World S)
      → Quiet (abort_with_return code body) w Fact
  abort_with_return-Quiet code body w =
      Quiet-bind _ _ w (abort_with-Quiet code body w) λ _ w1 s1 _. stop-Quiet w1

  pub on_kv-Quiet :
      {A : Type 0} (kv : KvStore S) (op : S → A × S) (w : World S)
      → Quiet (on_kv kv op) w (λ a w'. (a ≡ (op w.kv).0) × (w'.kv ≡ (op w.kv).1))
  on_kv-Quiet kv op w = record { at = (record { db = refl; payload = refl }, (refl, refl)) }

  granted-QuietTo :
      (p : Option Payload) (w : World S)
      → w.payload ≡ p
      → QuietTo w (λ auth w'. (w.payload ≡ some auth) × (w'.kv ≡ w.kv)) (granted p w)
  granted-QuietTo none w e = refl
  granted-QuietTo (some auth) w e = (Stays-refl w, (e, refl))

  pub must_get-Quiet :
      (w : World S) → Quiet must_get w (λ auth w'. (w.payload ≡ some auth) × (w'.kv ≡ w.kv))
  must_get-Quiet w = record { at = granted-QuietTo w.payload w refl }
