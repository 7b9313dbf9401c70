-- ===== src/Main/Group.antt =====
-- main.go: the goroutines of the wait group, from the start of the program to its end. The group
-- itself is the library errgroup, an argument.
pub mod Shutdown
use go2bank.Prelude.{ℕ, ◌+◌, ◌≡◌, Bool, true, false, Option, none, some}
use go2bank.Api.Server.{served}
use go2bank.Db.Error.{Error}
use go2bank.Main.{Start, or_fatal}

-- A group with its context: what a goroutine returns, a signal, and what `Wait` returns at the end.
pub record ErrGroup (E : Type 0) : Type 0 where
  pub with_context : E
  pub go_returned : Option Error → E → E
  pub interrupt : E → E
  pub is_done : E → Bool
  pub wait : E → Option Error

abbrev pub first_of : Option Error → Option Error → Option Error
first_of none f = f
first_of (some e) f = some e

-- What the library documents: the first error is kept, and cancels the context.
pub record IsErrGroup {E : Type 0} (errgroup : ErrGroup E) : Type 0 where
  pub with_context-is_done : errgroup.is_done errgroup.with_context ≡ false
  pub wait-with_context : errgroup.wait errgroup.with_context ≡ none
  pub wait-go_returned :
      (f : Option Error) (e : E)
      → errgroup.wait (errgroup.go_returned f e) ≡ first_of (errgroup.wait e) f
  pub is_done-failed :
      (x : Error) (e : E) → errgroup.is_done (errgroup.go_returned (some x) e) ≡ true
  pub is_done-go_returned :
      (e : E) → errgroup.is_done (errgroup.go_returned none e) ≡ errgroup.is_done e
  pub is_done-interrupt : (e : E) → errgroup.is_done (errgroup.interrupt e) ≡ true
  pub wait-interrupt : (e : E) → errgroup.wait (errgroup.interrupt e) ≡ errgroup.wait e

-- What `ListenAndServe` returns: `http.ErrServerClosed`, or a failure of the listener.
pub data Served : Type 0 where
  server_closed : Served
  listen_failed : Error → Served

pub served_error : Served → Option Error
served_error server_closed = none
served_error (listen_failed e) = some e

-- The group, whether the processor and the server of HTTP have been told to shut down, and which
-- goroutines have returned.
pub record Group (E : Type 0) : Type 0 where
  pub group : E
  pub worker_stopped : Bool
  pub http_closed : Bool
  pub worker_returned : Bool
  pub listener_returned : Bool
  pub closer_returned : Bool

module _ {E : Type 0} (errgroup : ErrGroup E) where
  abbrev pub new_group : Group E
  new_group = record {
    group = errgroup.with_context;
    worker_stopped = false;
    http_closed = false;
    worker_returned = false;
    listener_returned = false;
    closer_returned = false;
  }

  abbrev pub notify : Group E → Group E
  notify g = record g { group = errgroup.interrupt g.group }

  -- The goroutine of `runTaskProcessor`, once the context is done.
  unfoldable pub stop_worker : Group E → Group E
  stop_worker g = record g {
    worker_stopped = true;
    worker_returned = true;
    group = errgroup.go_returned none g.group;
  }

  -- The first goroutine of `runGinServer`, when `ListenAndServe` returns.
  unfoldable pub stop_listening : Served → Group E → Group E
  unfolding served_error
  stop_listening served g = record g {
    listener_returned = true;
    group = errgroup.go_returned (served_error served) g.group;
  }

  -- The second one, once the context is done, with the error of `Shutdown`.
  unfoldable pub close_server : Option Error → Group E → Group E
  close_server shut g = record g {
    http_closed = true;
    closer_returned = true;
    group = errgroup.go_returned shut g.group;
  }

  -- A goroutine that has not returned takes its step, with the error that it returns. The listener
  -- returns that the server is closed only if `Shutdown` has been called.
  pub data GroupStep (g : Group E) : Option Error → Group E → Type 0 where
    worker_stops :
        errgroup.is_done g.group ≡ true
        → g.worker_returned ≡ false
        → GroupStep g none (stop_worker g)
    server_closes :
        (shut : Option Error)
        → errgroup.is_done g.group ≡ true
        → g.closer_returned ≡ false
        → GroupStep g shut (close_server shut g)
    listener_closed :
        g.http_closed ≡ true
        → g.listener_returned ≡ false
        → GroupStep g none (stop_listening server_closed g)
    listener_failed :
        (e : Error)
        → g.listener_returned ≡ false
        → GroupStep g (some e) (stop_listening (listen_failed e) g)

  -- The states of the group after some steps of the goroutines, with the first error of them. A
  -- signal cancels the context at any time.
  pub data GroupRun : ℕ → Option Error → Group E → Type 0 where
    starts : GroupRun 0 none new_group
    interrupted :
        {n : ℕ} {e : Option Error} {g : Group E} → GroupRun n e g → GroupRun n e (notify g)
    steps :
        {n : ℕ} {e f : Option Error} {g g' : Group E}
        → GroupRun n e g
        → GroupStep g f g'
        → GroupRun (n + 1) (first_of e f) g'

  -- `waitGroup.Wait()` returns.
  abbrev pub AllReturned : Group E → Type 0
  AllReturned g =
      (g.worker_returned ≡ true) × (g.listener_returned ≡ true) × (g.closer_returned ≡ true)

  -- The end of `main`, once `waitGroup.Wait()` has returned.
  unfoldable pub main_ends : Group E → Start Unit
  main_ends g = or_fatal "error from wait group" (errgroup.wait g.group)
