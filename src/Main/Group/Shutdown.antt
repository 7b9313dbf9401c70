-- ===== src/Main/Group/Shutdown.antt =====
-- How the program shuts down.
use go2bank.Prelude.{
  ℕ, ◌+◌, ◌≤◌, ◌<◌, ◌≡◌, refl, sym, ap, ◌∙◌, ◌⊎◌, inl, inr, Bool, true, false, Option, none, some,
  arith, Bool-cases,
}
use go2bank.Db.Error.{Error}
use go2bank.Main.{or_fatal}
use go2bank.Main.Group.{
  worker_stops, server_closes, listener_closed, listener_failed, starts, interrupted, steps,
  served_error, AllReturned, main_ends, Group, IsErrGroup, server_closed, first_of, close_server,
  ErrGroup, stop_worker, GroupStep, stop_listening, GroupRun,
}

abbrev bit : Bool → ℕ
bit true = 1
bit false = 0

bit-le : (b : Bool) → bit b ≤ 1
bit-le true = omega arith
bit-le false = omega arith

bit-eq-zero : {c : Bool} (b : Bool) → (b ≡ true → c ≡ true) → c ≡ false → bit b ≡ 0
bit-eq-zero true h k = let e = h refl in absurd (cc)
bit-eq-zero false h k = refl

module _ {E : Type 0} (errgroup : ErrGroup E) (is_group : IsErrGroup errgroup) where
  abbrev IsDone : Group E → Type 0
  IsDone g = errgroup.is_done g.group ≡ true

  record Sound (n : ℕ) (e : Option Error) (g : Group E) : Type 0 where
    kept : errgroup.wait g.group ≡ e
    closed : g.http_closed ≡ g.closer_returned
    stopped : g.worker_stopped ≡ g.worker_returned
    counted : n ≡ bit g.worker_returned + bit g.listener_returned + bit g.closer_returned
    worker_done : g.worker_returned ≡ true → IsDone g
    listener_done : g.listener_returned ≡ true → IsDone g
    closer_done : g.closer_returned ≡ true → IsDone g

  is_done-stays :
      (f : Option Error) (e : E)
      → errgroup.is_done e ≡ true
      → errgroup.is_done (errgroup.go_returned f e) ≡ true
  is_done-stays none e h = is_group.is_done-go_returned e ∙ h
  is_done-stays (some x) e h = is_group.is_done-failed x e

  wait-kept :
      {e : Option Error} (f : Option Error) (g : E)
      → errgroup.wait g ≡ e
      → errgroup.wait (errgroup.go_returned f g) ≡ first_of e f
  wait-kept f g h = is_group.wait-go_returned f g ∙ ap (λ k. first_of k f) h

  Sound-step :
      {n : ℕ} {e f : Option Error} {g g' : Group E}
      → Sound n e g
      → GroupStep errgroup g f g'
      → Sound (n + 1) (first_of e f) g'
  unfolding stop_worker stop_listening close_server served_error
  Sound-step {g} s (worker_stops d r) =
      let still = is_done-stays none g.group d in
      record {
        kept = wait-kept none g.group s.kept;
        closed = s.closed;
        stopped = refl;
        counted = omega (arith, s.counted, ap bit r);
        worker_done = λ _. still;
        listener_done = λ _. still;
        closer_done = λ _. still;
      }
  Sound-step {g} s (server_closes shut d r) =
      let still = is_done-stays shut g.group d in
      record {
        kept = wait-kept shut g.group s.kept;
        closed = refl;
        stopped = s.stopped;
        counted = omega (arith, s.counted, ap bit r);
        worker_done = λ _. still;
        listener_done = λ _. still;
        closer_done = λ _. still;
      }
  Sound-step {g} s (listener_closed c r) =
      let still = is_done-stays none g.group (s.closer_done (sym s.closed ∙ c)) in
      record {
        kept = wait-kept none g.group s.kept;
        closed = s.closed;
        stopped = s.stopped;
        counted = omega (arith, s.counted, ap bit r);
        worker_done = λ _. still;
        listener_done = λ _. still;
        closer_done = λ _. still;
      }
  Sound-step {g} s (listener_failed x r) =
      let now = is_group.is_done-failed x g.group in
      record {
        kept = wait-kept (some x) g.group s.kept;
        closed = s.closed;
        stopped = s.stopped;
        counted = omega (arith, s.counted, ap bit r);
        worker_done = λ _. now;
        listener_done = λ _. now;
        closer_done = λ _. now;
      }

  GroupRun-Sound : {n : ℕ} {e : Option Error} {g : Group E} → GroupRun errgroup n e g → Sound n e g
  GroupRun-Sound starts = record {
    kept = is_group.wait-with_context;
    closed = refl;
    stopped = refl;
    counted = refl;
    worker_done = λ h. absurd (cc);
    listener_done = λ h. absurd (cc);
    closer_done = λ h. absurd (cc);
  }
  GroupRun-Sound (interrupted {g} r) =
      let s = GroupRun-Sound r in
      let now = is_group.is_done-interrupt g.group in
      record {
        kept = is_group.wait-interrupt g.group ∙ s.kept;
        closed = s.closed;
        stopped = s.stopped;
        counted = s.counted;
        worker_done = λ _. now;
        listener_done = λ _. now;
        closer_done = λ _. now;
      }
  GroupRun-Sound (steps r step) = Sound-step (GroupRun-Sound r) step

  -- A goroutine can go on.
  abbrev CanStep : Group E → Type 0
  CanStep g = (f : Option Error) × (g' : Group E) × GroupStep errgroup g f g'

  returned_or_step :
      {n : ℕ} {e : Option Error} (g : Group E)
      → Sound n e g
      → IsDone g
      → AllReturned errgroup g ⊎ CanStep g
  returned_or_step g s d = elim (Bool-cases g.worker_returned) [
    | inr w ↦ inr (none, stop_worker errgroup g, worker_stops d w)
    | inl w ↦ elim (Bool-cases g.closer_returned) [
      | inr k ↦ inr (none, close_server errgroup none g, server_closes none d k)
      | inl k ↦ elim (Bool-cases g.listener_returned) [
        | inr l ↦
            inr (none, stop_listening errgroup server_closed g, listener_closed (s.closed ∙ k) l)
        | inl l ↦ inl (w, l, k)
      ]
    ]
  ]

  steps_left : {n : ℕ} {e : Option Error} {g : Group E} → Sound n e g → CanStep g → n < 3
  steps_left s (f, g', step) =
      let t = Sound-step s step in
      omega (
        arith,
        t.counted,
        bit-le g'.worker_returned,
        bit-le g'.listener_returned,
        bit-le g'.closer_returned,
      )

  main_ends-first :
      (g : Group E) (e : Option Error)
      → errgroup.wait g.group ≡ e
      → main_ends errgroup g ≡ or_fatal "error from wait group" e
  unfolding main_ends
  main_ends-first g e h = rw h refl

  -- Once the context is done, by a signal or by a goroutine that failed, the program ends, in
  -- whatever order the goroutines take turns: one of them can go on, or all have returned after
  -- three steps, the processor and the server of HTTP have been shut down, and `main` ends as the
  -- first error that a goroutine returned says. No goroutine returns before.
  pub GroupRun-ends :
      {n : ℕ} {e : Option Error} {g : Group E}
      → GroupRun errgroup n e g
      → ((errgroup.is_done g.group ≡ false) × (n ≡ 0))
        ⊎ ((n < 3) × (f : Option Error) × (g' : Group E) × GroupStep errgroup g f g')
        ⊎ ((n ≡ 3)
            × AllReturned errgroup g
            × (g.worker_stopped ≡ true)
            × (g.http_closed ≡ true)
            × (main_ends errgroup g ≡ or_fatal "error from wait group" e))
  GroupRun-ends {n} {e} {g} r =
      let s = GroupRun-Sound r in
      elim (Bool-cases (errgroup.is_done g.group)) [
        | inr d ↦ inl (
          d,
          omega (
            arith,
            s.counted,
            bit-eq-zero g.worker_returned s.worker_done d,
            bit-eq-zero g.listener_returned s.listener_done d,
            bit-eq-zero g.closer_returned s.closer_done d,
          ),
        )
        | inl d ↦ elim (returned_or_step g s d) [
          | inr more ↦ inr (inl (steps_left s more, more.0, more.1, more.2))
          | inl all ↦ inr (
              inr (
                omega (arith, s.counted, ap bit all.0, ap bit all.1, ap bit all.2),
                all,
                s.stopped ∙ all.0,
                s.closed ∙ all.2,
                main_ends-first g e s.kept,
              ))
        ]
      ]
