-- ===== src/Client/Frame/Completes.antt =====
-- `WriteAll` and `ReadAll` (tsf/Ohagey/OhageyEngineClient.cpp) finish: no turn is missing.
use ohagey.Common.{
  ℕ, zero, suc, ◌-◌, ◌^◌, ◌≤◌, ◌<◌, ◌≡◌, refl, ap, ◌∙◌, Bool, true, false, Option, none, some, [],
  ◌∷◌, ◌++◌, ◌==◌, arith, length, take, drop, length-drop,
}
use ohagey.Wire.{Bytes}
use ohagey.Client.Os.{Os, Client, Do}
use ohagey.Client.Frame.{
  dword, write_file, read_file, next_write, write_loop, write_all, next_read, read_loop, read_all,
}

-- A pipe whose other end takes and gives a byte at least with each call.
pub record Flows (os : Os) : Type 0 where
  pub writes :
      (h : Option ℕ) (bs : Bytes) (w : os.World)
      → 0 < length bs
      → (n : ℕ) × ((os.write_file h bs w).0 ≡ some n) × (0 < n)
  pub reads :
      (h : Option ℕ) (size : ℕ) (w : os.World)
      → 0 < size
      → (bs : Bytes) × ((os.read_file h size w).0 ≡ some bs) × (0 < length bs)

length-take : (n : ℕ) (bs : Bytes) → n ≤ length bs → length (take n bs) ≡ n
length-take zero bs h = refl
length-take (suc n) [] h = absurd (omega arith)
length-take (suc n) (b ∷ bs) h = omega (arith, length-take n bs (omega arith))

module _ (os : Os) (flows : Flows os) where
  next_write_goes :
      (written : Option ℕ) (n : ℕ) (go : ℕ → Do os Bool) (c : Client os)
      → written ≡ some n
      → 0 < n
      → next_write os written go c ≡ go n c
  next_write_goes none n go c e h = cc
  next_write_goes (some m) n go c e h =
      let same : m ≡ n = cc in
      let more : (m == 0) ≡ false = ground arith in rw more (ap (λ x. go x c) same)

  write_loop-true :
      (fuel : ℕ) (bs : Bytes) (c : Client os)
      → length bs ≤ fuel
      → length bs < 2 ^ 32
      → (write_loop os fuel bs c).0 ≡ true
  unfolding write_loop
  write_loop-true zero [] c h small = refl
  write_loop-true (suc fuel) [] c h small = refl
  write_loop-true zero (b ∷ bs) c h small = absurd (omega arith)
  write_loop-true (suc fuel) (b ∷ bs) c h small =
      let all = b ∷ bs in
      let piece = take (dword (length all)) all in
      let whole : dword (length all) ≡ length all = omega arith in
      let some_left : 0 < length piece =
        omega (arith, whole, length-take (dword (length all)) all (omega (arith, whole))) in
      let (n, e, pos) = flows.writes c.pipe piece c.world some_left in
      let m = write_file os piece c in
      ap (λ (p : Bool × Client os). p.0)
        (next_write_goes m.0 n (λ k. write_loop os fuel (drop k all)) m.1 e pos)
      ∙ write_loop-true fuel (drop n all) m.1 (omega (arith, length-drop n all))
          (omega (arith, length-drop n all))

  next_read_goes :
      (read : Option Bytes) (bs : Bytes) (go : Bytes → Do os (Option Bytes)) (c : Client os)
      → read ≡ some bs
      → 0 < length bs
      → next_read os read go c ≡ go bs c
  next_read_goes none bs go c e h = cc
  next_read_goes (some cs) bs go c e h =
      let same : cs ≡ bs = cc in
      let more : (length cs == 0) ≡ false = ground (arith, ap length same) in
      rw more (ap (λ x. go x c) same)

  read_loop-some :
      (fuel left : ℕ) (got : Bytes) (c : Client os)
      → left ≤ fuel
      → left < 2 ^ 32
      → (all : Bytes) × ((read_loop os fuel left got c).0 ≡ some all)
  unfolding read_loop
  read_loop-some zero zero got c h small = (got, refl)
  read_loop-some (suc fuel) zero got c h small = (got, refl)
  read_loop-some zero (suc left) got c h small = absurd (omega arith)
  read_loop-some (suc fuel) (suc left) got c h small =
      let (bs, e, pos) = flows.reads c.pipe (dword (suc left)) c.world (omega arith) in
      let m = read_file os (dword (suc left)) c in
      let (all, found) =
        read_loop-some fuel (suc left - length bs) (got ++ bs) m.1 (omega arith) (omega arith) in
      (
        all,
        ap (λ (p : Option Bytes × Client os). p.0)
              (next_read_goes m.0 bs (λ x. read_loop os fuel (suc left - length x) (got ++ x)) m.1 e
                pos)
            ∙ found,
      )

  -- Over a pipe that moves a byte at least with each call, both loops come to an end with success,
  -- for any size that a DWORD holds.
  pub transfers_complete :
      (bs : Bytes) (size : ℕ) (c : Client os)
      → length bs < 2 ^ 32
      → size < 2 ^ 32
      → ((write_all os bs c).0 ≡ true) × ((got : Bytes) × ((read_all os size c).0 ≡ some got))
  unfolding write_all read_all
  transfers_complete bs size c hb hs = (
    write_loop-true (length bs) bs c (omega arith) hb,
    read_loop-some size size [] c (omega arith) hs,
  )
