-- ===== src/Client/Keeps.antt =====
-- What the operations below the calls of tsf/Ohagey/OhageyEngineClient.cpp leave alone: the next
-- request id and the last status.
use ohagey.Common.{
  ℕ, zero, suc, ◌≡◌, refl, ◌∙◌, Bool, true, false, ◌&&◌, Option, none, some, ◌==◌, if◌then◌else◌,
  Bool-cases, Option-cases, inl, inr,
}
use ohagey.Common.Text.{Text}
use ohagey.Client.Os.{Os, Client, Do, call, effect, is_connected, pure, ◌>>=◌}
use ohagey.Client.Launch.{
  name_for, pipe_name, engine_path, path_of, close_process, start_with, set_pipe, too_soon, quoted,
  start_engine, launch_engine, give_up, await_free, await_engine, start_and_await, say_why, refused,
  created, attempt_pipe, connect_loop, connect_named, connect, disconnect, error_pipe_busy,
  error_file_not_found, post_launch_wait_ms,
}

module _ (os : Os) where
  pub record Same (c c' : Client os) : Type 0 where
    pub id : c'.next_request_id ≡ c.next_request_id
    pub status : c'.last_status ≡ c.last_status

  pub same : (c : Client os) → Same c c
  same c = record { id = refl; status = refl }

  pub Same-then : (c c' c'' : Client os) → Same c c' → Same c' c'' → Same c c''
  Same-then c c' c'' h k = record { id = k.id ∙ h.id; status = k.status ∙ h.status }

  abbrev pub Keeps : {A : Type 0} → Do os A → Type 0
  Keeps m = (c : Client os) → Same c (m c).1

  pub bind-Keeps :
      {A B : Type 0} (m : Do os A) (k : A → Do os B)
      → Keeps m
      → ((a : A) → Keeps (k a))
      → Keeps (m >>= k)
  bind-Keeps m k hm hk c = Same-then c (m c).1 (k (m c).0 (m c).1).1 (hm c) (hk (m c).0 (m c).1)

  pub if-Keeps :
      {A : Type 0} (b : Bool) (m k : Do os A) → Keeps m → Keeps k → Keeps (if b then m else k)
  if-Keeps true m k hm hk = hm
  if-Keeps false m k hm hk = hk

  -- A call of the system, and a field of the client that is neither of the two.
  call-Keeps : {A : Type 0} (f : os.World → A × os.World) → Keeps (call os f)
  call-Keeps f c = record { id = refl; status = refl }

  effect-Keeps : (f : os.World → os.World) → Keeps (effect os f)
  effect-Keeps f c = record { id = refl; status = refl }

  set_pipe-Keeps : (p : Option ℕ) → Keeps (set_pipe os p)
  set_pipe-Keeps p c = record { id = refl; status = refl }

  pure-Keeps : {A : Type 0} (a : A) → Keeps (pure {os = os} a)
  pure-Keeps a c = same c

  name_for-Keeps : (id : Option ℕ) → Keeps (name_for os id)
  name_for-Keeps none c = same c
  name_for-Keeps (some id) c = same c

  pipe_name-Keeps : Keeps (pipe_name os)
  unfolding pipe_name
  pipe_name-Keeps =
      bind-Keeps (call os os.session_id) (name_for os) (call-Keeps os.session_id) name_for-Keeps

  path_of-Keeps : (self : Option ℕ) → Keeps (path_of os self)
  path_of-Keeps none c = same c
  path_of-Keeps (some handle) c = record { id = refl; status = refl }

  engine_path-Keeps : Keeps (engine_path os)
  unfolding engine_path
  engine_path-Keeps =
      bind-Keeps (call os os.module_handle) (path_of os) (call-Keeps os.module_handle) path_of-Keeps

  close_process-Keeps : (p : Option (ℕ × ℕ)) → Keeps (close_process os p)
  close_process-Keeps none c = same c
  close_process-Keeps (some (h_thread, h_process)) c = record { id = refl; status = refl }

  start_with-Keeps : (path : Option Text) → Keeps (start_with os path)
  start_with-Keeps none c = same c
  start_with-Keeps (some p) c =
      let m = call os (os.create_process p (quoted os p)) c in
      Same-then c m.1 _ (record { id = refl; status = refl }) (close_process-Keeps m.0 m.1)

  start_engine-Keeps : Keeps (start_engine os)
  unfolding start_engine
  start_engine-Keeps =
      bind-Keeps (engine_path os) (start_with os) engine_path-Keeps start_with-Keeps

  launch_engine-Keeps : Keeps (launch_engine os)
  unfolding launch_engine
  launch_engine-Keeps c =
      elim (Bool-cases (too_soon os c.last_launch_tick (os.tick_count c.world).0)) [
        | inl e ↦ rw e record { id = refl; status = refl }
        | inr e ↦
            rw e (Same-then c _ _ (record { id = refl; status = refl }) (start_engine-Keeps _))
      ]

  give_up-Keeps : Keeps (give_up os)
  give_up-Keeps c = record { id = refl; status = refl }

  await_free-Keeps :
      (name : Text) (again : Do os Bool) → Keeps again → Keeps (await_free os name again)
  unfolding await_free
  await_free-Keeps name again h =
      bind-Keeps (call os (os.wait_named_pipe name 1000))
        (λ free. if free then again else give_up os) (call-Keeps (os.wait_named_pipe name 1000))
        (λ free. if-Keeps free again (give_up os) h give_up-Keeps)

  start_and_await-Keeps :
      (name : Text) (again : Do os Bool) → Keeps again → Keeps (start_and_await os name again)
  unfolding start_and_await
  start_and_await-Keeps name again h =
      bind-Keeps (launch_engine os)
        (λ launched. if launched then await_engine os name again else give_up os)
        launch_engine-Keeps
        (λ launched.
          if-Keeps launched (await_engine os name again) (give_up os)
            (bind-Keeps (call os (os.wait_named_pipe name post_launch_wait_ms)) (λ _. again)
              (call-Keeps (os.wait_named_pipe name post_launch_wait_ms)) (λ _. h))
            give_up-Keeps)

  say_why-Keeps : (error : ℕ) → Keeps (say_why os error)
  unfolding say_why
  say_why-Keeps error c = record { id = refl; status = refl }

  refused-Keeps :
      (name : Text) (attempt : ℕ) (again : Do os Bool) (error : ℕ)
      → Keeps again
      → Keeps (refused os name attempt again error)
  unfolding refused
  refused-Keeps name attempt again error h =
      let missing = error == error_file_not_found && attempt == 0 in
      if-Keeps (error == error_pipe_busy) (await_free os name again)
        (if missing then start_and_await os name again else say_why os error)
        (await_free-Keeps name again h)
        (if-Keeps missing (start_and_await os name again) (say_why os error)
          (start_and_await-Keeps name again h) (say_why-Keeps error))

  created-Keeps :
      (name : Text) (attempt : ℕ) (again : Do os Bool)
      → Keeps again
      → (p : Option ℕ) → Keeps (created os name attempt again p)
  created-Keeps name attempt again h (some handle) c = same c
  created-Keeps name attempt again h none c =
      let m = call os os.last_error c in
      Same-then c m.1 _ (record { id = refl; status = refl })
        (refused-Keeps name attempt again m.0 h m.1)

  connect_loop-Keeps :
      (turns attempt : ℕ) (name : Text) → Keeps (connect_loop os turns attempt name)
  unfolding connect_loop attempt_pipe
  connect_loop-Keeps zero attempt name c = give_up-Keeps c
  connect_loop-Keeps (suc turns) attempt name c =
      let again = connect_loop os turns (suc attempt) name in
      let m = call os (os.create_file name) c in
      Same-then c (record m.1 { pipe = m.0 }) _ (record { id = refl; status = refl })
        (created-Keeps name attempt again (connect_loop-Keeps turns (suc attempt) name) m.0
          (record m.1 { pipe = m.0 }))

  connect_named-Keeps : (name : Option Text) → Keeps (connect_named os name)
  connect_named-Keeps none c = same c
  connect_named-Keeps (some name) c = connect_loop-Keeps 2 0 name c

  pub connect-Keeps : Keeps (connect os)
  unfolding connect
  connect-Keeps c = elim (Bool-cases (is_connected os c)) [
    | inl e ↦ rw e (same c)
    | inr e ↦
        rw e (bind-Keeps (pipe_name os) (connect_named os) pipe_name-Keeps connect_named-Keeps c)
  ]

  pub disconnect-Keeps : Keeps (disconnect os)
  unfolding disconnect
  disconnect-Keeps c = elim (Option-cases c.pipe) [
    | inl e ↦ rw e (record { id = refl; status = refl })
    | inr (handle, e) ↦ rw e (record { id = refl; status = refl })
  ]
