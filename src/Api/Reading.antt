-- ===== src/Api/Reading.antt =====
-- The parts of a handler that only read: the request, the payload, and rows of the store.
use go2bank.Prelude.{
  ℕ, ◌≤◌, ◌≡◌, refl, ◌∙◌, ◌≢◌, ◌⊎◌, inl, inr, Bool, true, Option, none, some, [], ◌∷◌, ◌++◌, arith,
  if◌then◌else◌, Bool-cases,
}
use go2bank.Db.Store.Locks.{holds}
use go2bank.Api.Binding.{should_bind}
use go2bank.Db.Error.{Error}
use go2bank.Token.{Payload}
use go2bank.Api.Gin.{
  granted, query, go_on, must_get, or_not_found, fetch, next, returned, panicked, ◌>>=◌, respond,
  panicked, returned, json, Handler, done, panic, Body, World, Exit,
}
use go2bank.Db.Model.{Tables, failed, Db, idle}
use go2bank.Db.Query.{Query, Result, ok, err, HasRead}

module _ {S : Type 0} where
  -- A part that goes on has left all that a later part reads.
  pub record Same (w w' : World S) : Type 0 where
    pub tables : w'.db.tables ≡ w.db.tables
    pub idle_still : w'.db.tx ≡ idle
    pub payload : w'.payload ≡ w.payload
    pub calls : w'.calls ≡ w.calls

  -- One answer was written, with a status of 400 or more, and the tables are left.
  pub record Answered (w w' : World S) : Type 0 where
    pub code : ℕ
    pub body : Body
    pub is_error : 400 ≤ code
    pub tables : w'.db.tables ≡ w.db.tables
    pub calls : w'.calls ≡ w.calls ++ json code body ∷ []

  -- Nothing was written, and the tables are left.
  pub record Crashed (w w' : World S) : Type 0 where
    pub tables : w'.db.tables ≡ w.db.tables
    pub calls : w'.calls ≡ w.calls

  -- How a handler ends without doing its work.
  abbrev pub Refused : {A : Type 0} → World S → Exit A × World S → Type 0
  Refused w (next _, w') = ⊥
  Refused w (returned, w') = Answered w w'
  Refused w (panicked, w') = Crashed w w'

  Refused-Same :
      {A : Type 0} {w w' : World S} (o : Exit A × World S) → Same w w' → Refused w' o → Refused w o
  Refused-Same (next _, _) s r = r
  Refused-Same (returned, _) s r = record {
    code = r.code;
    body = r.body;
    is_error = r.is_error;
    tables = r.tables ∙ s.tables;
    calls = rw (← s.calls) r.calls;
  }
  Refused-Same (panicked, _) s r = record {
    tables = r.tables ∙ s.tables;
    calls = r.calls ∙ s.calls;
  }

  -- An end with an error, or a value such that `Fact` holds, with all left as it was.
  abbrev pub ReadsTo : {A : Type 0} → World S → (A → Type 0) → Exit A × World S → Type 0
  ReadsTo w Fact (next a, w') = Same w w' × Fact a
  ReadsTo w Fact (returned, w') = Answered w w'
  ReadsTo w Fact (panicked, w') = Crashed w w'

  -- `m` only reads.
  pub record Reads {A : Type 0} (m : Handler S A) (w : World S) (Fact : A → Type 0) : Type 0 where
    pub at : ReadsTo w Fact (m w)

  pub Same-trans : {u v w : World S} → Same u v → Same v w → Same u w
  Same-trans s t = record {
    tables = t.tables ∙ s.tables;
    idle_still = t.idle_still;
    payload = t.payload ∙ s.payload;
    calls = t.calls ∙ s.calls;
  }

  go_on-Reads :
      {A B : Type 0} {Fact : A → Type 0} (Good : Exit B × World S → Type 0) (f : A → Handler S B)
      (w : World S) (o : Exit A × World S)
      → ReadsTo w Fact o
      → ((a : A) (w' : World S) → Same w w' → Fact a → Refused w' (f a w') ⊎ Good (f a w'))
      → Refused w (go_on o.0 f o.1) ⊎ Good (go_on o.0 f o.1)
  go_on-Reads Good f w (next a, w') (same, fact) k = elim (k a w' same fact) [
    | inl h ↦ inl (Refused-Same _ same h)
    | inr g ↦ inr g
  ]
  go_on-Reads Good f w (returned, w') h k = inl h
  go_on-Reads Good f w (panicked, w') h k = inl h

  -- A block that begins by reading is refused, or does well what is left of it.
  pub bind-Reads :
      {A B : Type 0} {Fact : A → Type 0} (Good : Exit B × World S → Type 0) (m : Handler S A)
      (f : A → Handler S B) (w : World S)
      → Reads m w Fact
      → ((a : A) (w' : World S) → Same w w' → Fact a → Refused w' (f a w') ⊎ Good (f a w'))
      → Refused w ((m >>= f) w) ⊎ Good ((m >>= f) w)
  unfolding ◌>>=◌
  bind-Reads Good m f w r k = go_on-Reads Good f w (m w) r.at k

  -- The same, for what is left with the equation of the first part.
  pub bind_eq-Reads :
      {A B : Type 0} {Fact : A → Type 0} (Good : Exit B × World S → Type 0) (m : Handler S A)
      (f : A → Handler S B) (w : World S)
      → Reads m w Fact
      → ((a : A) (w' : World S)
          → m w ≡ (next a, w')
          → Same w w'
          → Fact a
          → Refused w' (f a w') ⊎ Good (f a w'))
      → Refused w ((m >>= f) w) ⊎ Good ((m >>= f) w)
  unfolding ◌>>=◌
  bind_eq-Reads {A} {B} {Fact} Good m f w r k = by_end (m w) refl r.at
    where
      by_end :
          (o : Exit A × World S)
          → m w ≡ o
          → ReadsTo w Fact o
          → Refused w (go_on o.0 f o.1) ⊎ Good (go_on o.0 f o.1)
      by_end (next a, w') e (same, fact) = elim (k a w' e same fact) [
        | inl h ↦ inl (Refused-Same _ same h)
        | inr g ↦ inr g
      ]
      by_end (returned, w') e h = inl h
      by_end (panicked, w') e h = inl h

  ReadsTo-Same :
      {B : Type 0} (Then : B → Type 0) {w w' : World S} (o : Exit B × World S)
      → Same w w'
      → ReadsTo w' Then o
      → ReadsTo w Then o
  ReadsTo-Same Then (next b, v) s (t, fact) = (Same-trans s t, fact)
  ReadsTo-Same Then (returned, v) s h = Refused-Same {A = Unit} (returned, v) s h
  ReadsTo-Same Then (panicked, v) s h = Refused-Same {A = Unit} (panicked, v) s h

  go_on-ReadsTo :
      {A B : Type 0} {Fact : A → Type 0} (Then : B → Type 0) (f : A → Handler S B) (w : World S)
      (o : Exit A × World S)
      → ReadsTo w Fact o
      → ((a : A) (w' : World S) → Same w w' → Fact a → Reads (f a) w' Then)
      → ReadsTo w Then (go_on o.0 f o.1)
  go_on-ReadsTo Then f w (next a, w') (same, fact) k =
      ReadsTo-Same Then _ same (k a w' same fact).at
  go_on-ReadsTo Then f w (returned, w') h k = h
  go_on-ReadsTo Then f w (panicked, w') h k = h

  -- Reading twice.
  pub Reads-bind :
      {A B : Type 0} {Fact : A → Type 0} {Then : B → Type 0} (m : Handler S A) (f : A → Handler S B)
      (w : World S)
      → Reads m w Fact
      → ((a : A) (w' : World S) → Same w w' → Fact a → Reads (f a) w' Then)
      → Reads (m >>= f) w Then
  unfolding ◌>>=◌
  Reads-bind {Then} m f w r k = record { at = go_on-ReadsTo Then f w (m w) r.at k }

  Same-refl : (w : World S) → w.db.tx ≡ idle → Same w w
  Same-refl w i = record { tables = refl; idle_still = i; payload = refl; calls = refl }

  pub done-Reads :
      {A : Type 0} {Fact : A → Type 0} (a : A) (w : World S)
      → w.db.tx ≡ idle
      → Fact a
      → Reads (done a) w Fact
  done-Reads a w i fact = record { at = (Same-refl w i, fact) }

  pub respond-Reads :
      {A : Type 0} {Fact : A → Type 0} (code : ℕ) (body : Body) (w : World S)
      → 400 ≤ code
      → Reads (respond code body) w Fact
  respond-Reads code body w h = record {
    at = record { code = code; body = body; is_error = h; tables = refl; calls = refl };
  }

  pub panic-Reads : {A : Type 0} {Fact : A → Type 0} (w : World S) → Reads panic w Fact
  panic-Reads w = record { at = record { tables = refl; calls = refl } }

  pub should_bind-Reads :
      {A : Type 0} (holds : A → Bool) (body : Option A) (w : World S)
      → w.db.tx ≡ idle
      → Reads (should_bind holds body) w (λ req. (body ≡ some req) × (holds req ≡ true))
  unfolding should_bind
  should_bind-Reads holds none w i = respond-Reads 400 _ w (omega arith)
  should_bind-Reads holds (some req) w i = elim (Bool-cases (holds req)) [
    | inl e ↦ rw (e, if◌then◌else◌) (done-Reads req w i (refl, e))
    | inr e ↦ rw (e, if◌then◌else◌) (respond-Reads 400 _ w (omega arith))
  ]

  granted-ReadsTo :
      (p : Option Payload) (w : World S)
      → w.db.tx ≡ idle
      → w.payload ≡ p
      → ReadsTo w (λ auth. w.payload ≡ some auth) (granted p w)
  granted-ReadsTo none w i e = record { tables = refl; calls = refl }
  granted-ReadsTo (some auth) w i e = (Same-refl w i, e)

  pub must_get-Reads :
      (w : World S) → w.db.tx ≡ idle → Reads must_get w (λ auth. w.payload ≡ some auth)
  must_get-Reads w i = record { at = granted-ReadsTo w.payload w i refl }

  -- A query that only reads, with its error as a value.
  module _ {A : Type 0} (q : Query A) (answer : Tables → Result A)
      (reads : (db : Db) → db.tx ≢ failed → HasRead (answer db.tables) db (q db)) where
    pub query-Reads :
        (w : World S)
        → w.db.tx ≡ idle
        → Reads (query q) w (λ r. (r ≡ answer w.db.tables) ⊎ ((e : Error) × (r ≡ err e)))
    query-Reads w i =
        let h = reads w.db (λ e. cc) in
        record {
          at = (
            record {
              tables = h.same;
              idle_still = ground (arith, h.tx);
              payload = refl;
              calls = refl;
            },
            elim h.answered [ inl e ↦ inl e | inr (x, e, _) ↦ inr (x, e) ],
          );
        }

    or_not_found-Reads :
        (r : Result A) (w : World S) (t : Tables)
        → w.db.tx ≡ idle
        → (r ≡ answer t) ⊎ ((e : Error) × (r ≡ err e))
        → Reads (or_not_found r) w (λ a. answer t ≡ ok a)
    or_not_found-Reads (ok a) w t i c = done-Reads a w i (ground arith)
    or_not_found-Reads (err e) w t i c = respond-Reads _ _ w (ground arith)

    pub fetch-Reads :
        (w : World S) → w.db.tx ≡ idle → Reads (fetch q) w (λ a. answer w.db.tables ≡ ok a)
    unfolding fetch
    fetch-Reads w i =
        Reads-bind _ _ w (query-Reads w i)
          (λ r w' same c. or_not_found-Reads r w' w.db.tables same.idle_still c)

  ReadsTo-mono :
      {A : Type 0} (Fact Then : A → Type 0) (w : World S) (o : Exit A × World S)
      → ((a : A) → Fact a → Then a)
      → ReadsTo w Fact o
      → ReadsTo w Then o
  ReadsTo-mono Fact Then w (next a, w') k (same, fact) = (same, k a fact)
  ReadsTo-mono Fact Then w (returned, w') k h = h
  ReadsTo-mono Fact Then w (panicked, w') k h = h

  pub Reads-mono :
      {A : Type 0} {Fact Then : A → Type 0} {m : Handler S A} {w : World S}
      → Reads m w Fact
      → ((a : A) → Fact a → Then a)
      → Reads m w Then
  Reads-mono {Fact} {Then} {m} {w} r k = record { at = ReadsTo-mono Fact Then w (m w) k r.at }
