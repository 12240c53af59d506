-- ===== src/Client/Launch/Connects.antt =====
-- `Connect` and `Disconnect` (tsf/Ohagey/OhageyEngineClient.cpp): what they report and leave.
use ohagey.Common.{
  ℕ, zero, suc, ◌≡◌, refl, sym, ap, ◌∙◌, Bool, true, false, ◌&&◌, Option, none, some, ◌==◌,
  if◌then◌else◌, Bool-cases, Option-cases, inl, inr,
}
use ohagey.Common.Text.{Text}
use ohagey.Client.Os.{Os, Client, Do, call, is_connected, Always, bind-Always, if-Always}
use ohagey.Client.Launch.{
  pipe_name, name_for, connect_named, launch_engine, await_free, await_engine, start_and_await,
  say_why, refused, created, attempt_pipe, connect_loop, connect, disconnect, give_up,
  error_pipe_busy, error_file_not_found,
}

module _ (os : Os) where
  -- What is reported is whether there is a connection.
  abbrev Agrees : Bool × Client os → Type 0
  Agrees (connected, c) = connected ≡ is_connected os c

  give_up-Agrees : Always Agrees (give_up os)
  give_up-Agrees c = refl

  await_free-Agrees :
      (name : Text) (again : Do os Bool)
      → Always Agrees again
      → Always Agrees (await_free os name again)
  unfolding await_free
  await_free-Agrees name again h =
      bind-Always Agrees (call os (os.wait_named_pipe name 1000))
        (λ free. if free then again else give_up os)
        (λ free. if-Always Agrees free again (give_up os) h give_up-Agrees)

  start_and_await-Agrees :
      (name : Text) (again : Do os Bool)
      → Always Agrees again
      → Always Agrees (start_and_await os name again)
  unfolding start_and_await
  start_and_await-Agrees name again h =
      bind-Always Agrees (launch_engine os)
        (λ launched. if launched then await_engine os name again else give_up os)
        (λ launched.
          if-Always Agrees launched (await_engine os name again) (give_up os) (λ c. h _)
            give_up-Agrees)

  refused-Agrees :
      (name : Text) (attempt : ℕ) (again : Do os Bool) (error : ℕ)
      → Always Agrees again
      → Always Agrees (refused os name attempt again error)
  unfolding refused
  refused-Agrees name attempt again error h =
      let missing = error == error_file_not_found && attempt == 0 in
      if-Always Agrees (error == error_pipe_busy) (await_free os name again)
        (if missing then start_and_await os name again else say_why os error)
        (await_free-Agrees name again h)
        (if-Always Agrees missing (start_and_await os name again) (say_why os error)
          (start_and_await-Agrees name again h) (λ c. unfold say_why in refl))

  created-Agrees :
      (name : Text) (attempt : ℕ) (again : Do os Bool)
      → Always Agrees again
      → (p : Option ℕ) (c : Client os)
      → Agrees (created os name attempt again p (record c { pipe = p }))
  created-Agrees name attempt again h (some handle) c = refl
  created-Agrees name attempt again h none c = refused-Agrees name attempt again _ h _

  attempt_pipe-Agrees :
      (name : Text) (attempt : ℕ) (again : Do os Bool)
      → Always Agrees again
      → Always Agrees (attempt_pipe os name attempt again)
  unfolding attempt_pipe
  attempt_pipe-Agrees name attempt again h c =
      let m = call os (os.create_file name) c in created-Agrees name attempt again h m.0 m.1

  connect_loop-Agrees :
      (turns attempt : ℕ) (name : Text) (c : Client os)
      → Agrees (connect_loop os turns attempt name c)
  unfolding connect_loop
  connect_loop-Agrees zero attempt name c = refl
  connect_loop-Agrees (suc turns) attempt name c =
      attempt_pipe-Agrees name attempt (connect_loop os turns (suc attempt) name)
        (connect_loop-Agrees turns (suc attempt) name) c

  name_for-pipe : (id : Option ℕ) (c : Client os) → (name_for os id c).1.pipe ≡ c.pipe
  name_for-pipe none c = refl
  name_for-pipe (some id) c = refl

  pipe_name-pipe : (c : Client os) → (pipe_name os c).1.pipe ≡ c.pipe
  unfolding pipe_name
  pipe_name-pipe c = name_for-pipe (os.session_id c.world).0 _

  connect_named-Agrees :
      (name : Option Text) (c : Client os)
      → is_connected os c ≡ false
      → Agrees (connect_named os name c)
  connect_named-Agrees none c h = sym h
  connect_named-Agrees (some name) c h = connect_loop-Agrees 2 0 name c

  pub connect-Agrees : Always Agrees (connect os)
  unfolding connect
  connect-Agrees c = elim (Bool-cases (is_connected os c)) [
    | inl e ↦ rw e (sym e)
    | inr e ↦ rw e (
        connect_named-Agrees (pipe_name os c).0 (pipe_name os c).1
          (ap (λ (p : Option ℕ). elim p [ none ↦ false | some _ ↦ true ]) (pipe_name-pipe c) ∙ e))
  ]

  pub disconnect-pipe : (c : Client os) → (disconnect os c).1.pipe ≡ none
  unfolding disconnect
  disconnect-pipe c = elim (Option-cases c.pipe) [ inl e ↦ rw e | inr (handle, e) ↦ rw e ]

  -- `Connect` reports a success exactly when it leaves a connection; it does nothing where there is
  -- one already, and `Disconnect` always leaves none.
  pub connect_lem :
      (c : Client os)
      → ((connect os c).0 ≡ is_connected os (connect os c).1)
        × (is_connected os c ≡ true → connect os c ≡ (true, c))
        × ((disconnect os c).1.pipe ≡ none)
  unfolding connect
  connect_lem c = (connect-Agrees c, λ e. rw e, disconnect-pipe c)
