-- ===== src/Client/Launch/Throttle.antt =====
-- `LaunchEngine` (tsf/Ohagey/OhageyEngineClient.cpp): how often it starts a process.
use ohagey.Common.{
  ℕ, ◌+◌, ◌-◌, ◌%◌, ◌^◌, ◌≤◌, ◌<◌, ◌≡◌, refl, ap, ◌∙◌, true, false, Option, none, some, arith,
}
use ohagey.Common.Text.{Text}
use ohagey.Client.Os.{Os, Client, call}
use ohagey.Client.Launch.{
  path_of, engine_path, close_process, start_with, start_engine, launch_engine, too_soon, quoted,
}

module _ (os : Os) where
  path_of-tick :
      (self : Option ℕ) (c : Client os)
      → (path_of os self c).1.last_launch_tick ≡ c.last_launch_tick
  path_of-tick none c = refl
  path_of-tick (some handle) c = refl

  close_process-tick :
      (p : Option (ℕ × ℕ)) (c : Client os)
      → (close_process os p c).1.last_launch_tick ≡ c.last_launch_tick
  close_process-tick none c = refl
  close_process-tick (some (t, p)) c = refl

  start_with-tick :
      (path : Option Text) (c : Client os)
      → (start_with os path c).1.last_launch_tick ≡ c.last_launch_tick
  start_with-tick none c = refl
  start_with-tick (some p) c =
      let m = call os (os.create_process p (quoted os p)) c in close_process-tick m.0 m.1

  start_engine-tick : (c : Client os) → (start_engine os c).1.last_launch_tick ≡ c.last_launch_tick
  unfolding start_engine engine_path
  start_engine-tick c =
      let self = call os os.module_handle c in
      let path = path_of os self.0 self.1 in
      start_with-tick path.0 path.1 ∙ path_of-tick self.0 self.1

  launch_tick :
      (c : Client os)
      → too_soon os c.last_launch_tick (os.tick_count c.world).0 ≡ false
      → (launch_engine os c).1.last_launch_tick ≡ (os.tick_count c.world).0
  unfolding launch_engine
  launch_tick c e = rw e (start_engine-tick _)

  held_back :
      (c : Client os)
      → too_soon os c.last_launch_tick (os.tick_count c.world).0 ≡ true
      → launch_engine os c ≡ (false, record c { world = (os.tick_count c.world).1 })
  unfolding launch_engine
  held_back c e = rw e

  soon_lem :
      (last now : ℕ)
      → 0 < last
      → last ≤ now
      → now < last + 5000
      → now < 2 ^ 64
      → too_soon os last now ≡ true
  soon_lem last now h order soon word =
      let gap : (now + 2 ^ 64 - last) % 2 ^ 64 < 5000 = omega arith in ground (arith, gap)

  -- A launch that was not held back holds back the next one, if the clock then shows less than five
  -- seconds more: nothing is started and only the clock is read, whatever came of the first one. The
  -- clock counts 64 bits, does not run backwards in between, and did not show 0.
  pub launch_throttled :
      (c d : Client os)
      → too_soon os c.last_launch_tick (os.tick_count c.world).0 ≡ false
      → d.last_launch_tick ≡ (launch_engine os c).1.last_launch_tick
      → 0 < (os.tick_count c.world).0
      → (os.tick_count c.world).0 ≤ (os.tick_count d.world).0
      → (os.tick_count d.world).0 < (os.tick_count c.world).0 + 5000
      → (os.tick_count d.world).0 < 2 ^ 64
      → launch_engine os d ≡ (false, record d { world = (os.tick_count d.world).1 })
  launch_throttled c d first same started order soon word = held_back d (
      ap (λ (t : ℕ). too_soon os t (os.tick_count d.world).0) (same ∙ launch_tick c first)
      ∙ soon_lem _ _ started order soon word)
