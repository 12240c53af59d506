-- ===== src/Client/Frame/Transfers.antt =====
-- `WriteAll` and `ReadAll` (tsf/Ohagey/OhageyEngineClient.cpp) over a pipe that moves the bytes in
-- pieces.
use ohagey.Common.{
  ℕ, zero, suc, ◌-◌, ◌≤◌, ◌≡◌, refl, sym, ap, ◌∙◌, Bool, true, false, Option, none, some, [], ◌∷◌,
  ◌++◌, append-nil, append_assoc, ◌==◌, arith, if◌then◌else◌, length, length-append, take, drop,
  take-append-drop, Bool-cases, inl, inr,
}
use ohagey.Wire.{Bytes}
use ohagey.Client.Os.{Os, Client, Do, pure}
use ohagey.Client.Frame.{
  dword, write_file, read_file, next_write, write_loop, write_all, next_read, read_loop, read_all,
}

-- The two transfers leave the client's own fields alone.
module _ (os : Os) where
  abbrev SamePipe : {A : Type 0} → Client os → A × Client os → Type 0
  SamePipe c (a, c') = c'.pipe ≡ c.pipe

  next_write-pipe :
      (written : Option ℕ) (go : ℕ → Do os Bool) (c c' : Client os)
      → c'.pipe ≡ c.pipe
      → ((n : ℕ) → SamePipe c (go n c'))
      → SamePipe c (next_write os written go c')
  next_write-pipe none go c c' h k = h
  next_write-pipe (some n) go c c' h k = elim (Bool-cases (n == 0)) [
    | inl e ↦ rw e h
    | inr e ↦ rw e (k n)
  ]

  write_loop-pipe : (fuel : ℕ) (bs : Bytes) (c : Client os) → SamePipe c (write_loop os fuel bs c)
  unfolding write_loop
  write_loop-pipe zero [] c = refl
  write_loop-pipe (suc fuel) [] c = refl
  write_loop-pipe zero (b ∷ bs) c = refl
  write_loop-pipe (suc fuel) (b ∷ bs) c =
      let m = write_file os (take (dword (length (b ∷ bs))) (b ∷ bs)) c in
      next_write-pipe m.0 (λ n. write_loop os fuel (drop n (b ∷ bs))) c m.1 refl
        (λ n. write_loop-pipe fuel (drop n (b ∷ bs)) _)

  pub write_all-pipe : (bs : Bytes) (c : Client os) → (write_all os bs c).1.pipe ≡ c.pipe
  unfolding write_all
  write_all-pipe bs c = write_loop-pipe (length bs) bs c

  next_read-pipe :
      (read : Option Bytes) (go : Bytes → Do os (Option Bytes)) (c c' : Client os)
      → c'.pipe ≡ c.pipe
      → ((bs : Bytes) → SamePipe c (go bs c'))
      → SamePipe c (next_read os read go c')
  next_read-pipe none go c c' h k = h
  next_read-pipe (some bs) go c c' h k = elim (Bool-cases (length bs == 0)) [
    | inl e ↦ rw e h
    | inr e ↦ rw e (k bs)
  ]

  read_loop-pipe :
      (fuel left : ℕ) (got : Bytes) (c : Client os) → SamePipe c (read_loop os fuel left got c)
  unfolding read_loop
  read_loop-pipe zero zero got c = refl
  read_loop-pipe (suc fuel) zero got c = refl
  read_loop-pipe zero (suc left) got c = refl
  read_loop-pipe (suc fuel) (suc left) got c =
      let m = read_file os (dword (suc left)) c in
      next_read-pipe m.0 (λ bs. read_loop os fuel (suc left - length bs) (got ++ bs)) c m.1 refl
        (λ bs. read_loop-pipe fuel (suc left - length bs) (got ++ bs) _)

  pub read_all-pipe : (size : ℕ) (c : Client os) → (read_all os size c).1.pipe ≡ c.pipe
  unfolding read_all
  read_all-pipe size c = read_loop-pipe size size [] c

-- What WriteFile and ReadFile promise: some beginning of the bytes is added to what was sent, and
-- the bytes read are the next ones that were not read, no more than asked for.
pub record PipeLaw (os : Os) : Type 0 where
  pub sent : os.World → Bytes
  pub unread : os.World → Bytes
  pub writes :
      (h : Option ℕ) (bs : Bytes) (w : os.World) (n : ℕ)
      → (os.write_file h bs w).0 ≡ some n
      → (n ≤ length bs) × (sent (os.write_file h bs w).1 ≡ sent w ++ take n bs)
  pub reads :
      (h : Option ℕ) (size : ℕ) (w : os.World) (bs : Bytes)
      → (os.read_file h size w).0 ≡ some bs
      → (length bs ≤ size) × (unread w ≡ bs ++ unread (os.read_file h size w).1)

take-take : (n d : ℕ) (bs : Bytes) → n ≤ length (take d bs) → take n (take d bs) ≡ take n bs
take-take zero d bs h = refl
take-take (suc n) zero bs h = absurd (omega arith)
take-take (suc n) (suc d) [] h = refl
take-take (suc n) (suc d) (b ∷ bs) h = ap (λ t. b ∷ t) (take-take n d bs (omega arith))

some_same : {got all : Bytes} → some got ≡ some all → all ≡ got
some_same {got} {all} e = cc

-- A success of `if b then return false` is that of what follows.
unless_true :
    {os : Os} (b : Bool) (m : Do os Bool) (c : Client os) (P : Bool × Client os → Type 0)
    → ((m c).0 ≡ true → P (m c))
    → ((if b then pure false else m) c).0 ≡ true
    → P ((if b then pure false else m) c)
unless_true true m c P h e = cc
unless_true false m c P h e = h e

unless_some :
    {os : Os} (b : Bool) (m : Do os (Option Bytes)) (c : Client os)
    (P : Option Bytes × Client os → Type 0) (got : Bytes)
    → ((m c).0 ≡ some got → P (m c))
    → ((if b then pure none else m) c).0 ≡ some got
    → P ((if b then pure none else m) c)
unless_some true m c P got h e = cc
unless_some false m c P got h e = h e

module _ (os : Os) (law : PipeLaw os) where
  next_write_sent :
      (written : Option ℕ) (go : ℕ → Do os Bool) (bs : Bytes) (c c' : Client os)
      → ((n : ℕ) → written ≡ some n → law.sent c'.world ≡ law.sent c.world ++ take n bs)
      → ((n : ℕ) → (go n c').0 ≡ true → law.sent (go n c').1.world ≡ law.sent c'.world ++ drop n bs)
      → (next_write os written go c').0 ≡ true
      → law.sent (next_write os written go c').1.world ≡ law.sent c.world ++ bs
  next_write_sent none go bs c c' h k e = cc
  next_write_sent (some n) go bs c c' h k e =
      unless_true (n == 0) (go n) c' (λ p. law.sent p.1.world ≡ law.sent c.world ++ bs)
        (λ good.
          k n good
          ∙ ap (λ t. t ++ drop n bs) (h n refl)
          ∙ append_assoc (law.sent c.world) (take n bs) (drop n bs)
          ∙ ap (λ t. law.sent c.world ++ t) (take-append-drop n bs))
        e

  write_loop_sent :
      (fuel : ℕ) (bs : Bytes) (c : Client os)
      → (write_loop os fuel bs c).0 ≡ true
      → law.sent (write_loop os fuel bs c).1.world ≡ law.sent c.world ++ bs
  unfolding write_loop
  write_loop_sent zero [] c e = sym (append-nil (law.sent c.world))
  write_loop_sent (suc fuel) [] c e = sym (append-nil (law.sent c.world))
  write_loop_sent zero (b ∷ bs) c e = cc
  write_loop_sent (suc fuel) (b ∷ bs) c e =
      let all = b ∷ bs in
      let piece = take (dword (length all)) all in
      let m = write_file os piece c in
      next_write_sent m.0 (λ n. write_loop os fuel (drop n all)) all c m.1
        (λ n s.
          let (few, more) = law.writes c.pipe piece c.world n s in
          more ∙ ap (λ t. law.sent c.world ++ t) (take-take n (dword (length all)) all few))
        (λ n. write_loop_sent fuel (drop n all) m.1) e

  -- What was read in front, how many are left, and the bytes on the pipe.
  record Gets (w : os.World) (got : Bytes) (left : ℕ) (all : Bytes) (w' : os.World) : Type 0 where
    fresh : Bytes
    whole : all ≡ got ++ fresh
    enough : length fresh ≡ left
    taken : law.unread w ≡ fresh ++ law.unread w'

  next_read_got :
      (read : Option Bytes) (go : Bytes → Do os (Option Bytes)) (left : ℕ) (got all : Bytes)
      (w : os.World) (c' : Client os)
      → ((bs : Bytes)
          → read ≡ some bs
          → (length bs ≤ left) × (law.unread w ≡ bs ++ law.unread c'.world))
      → ((bs : Bytes)
          → (go bs c').0 ≡ some all
          → Gets c'.world (got ++ bs) (left - length bs) all (go bs c').1.world)
      → (next_read os read go c').0 ≡ some all
      → Gets w got left all (next_read os read go c').1.world
  next_read_got none go left got all w c' h k e = cc
  next_read_got (some bs) go left got all w c' h k e =
      unless_some (length bs == 0) (go bs) c' (λ p. Gets w got left all p.1.world) all
        (λ good.
          let g = k bs good in
          let (few, more) = h bs refl in
          record {
            fresh = bs ++ g.fresh;
            whole = g.whole ∙ append_assoc got bs g.fresh;
            enough = omega (arith, few, g.enough, length-append bs g.fresh);
            taken = more ∙ ap (λ t. bs ++ t) g.taken ∙ sym (append_assoc bs g.fresh _);
          })
        e

  read_loop_got :
      (fuel left : ℕ) (got all : Bytes) (c : Client os)
      → (read_loop os fuel left got c).0 ≡ some all
      → Gets c.world got left all (read_loop os fuel left got c).1.world
  unfolding read_loop
  read_loop_got zero zero got all c e = record {
    fresh = [];
    whole = some_same e ∙ sym (append-nil got);
    enough = refl;
    taken = refl;
  }
  read_loop_got (suc fuel) zero got all c e = record {
    fresh = [];
    whole = some_same e ∙ sym (append-nil got);
    enough = refl;
    taken = refl;
  }
  read_loop_got zero (suc left) got all c e = cc
  read_loop_got (suc fuel) (suc left) got all c e =
      let m = read_file os (dword (suc left)) c in
      next_read_got m.0 (λ bs. read_loop os fuel (suc left - length bs) (got ++ bs)) (suc left) got
        all c.world m.1
        (λ bs s.
          let (few, more) = law.reads c.pipe (dword (suc left)) c.world bs s in (omega arith, more))
        (λ bs. read_loop_got fuel (suc left - length bs) (got ++ bs) all m.1) e

  -- However the pipe cuts the bytes into pieces, if each system call keeps what it promises: a
  -- write that reports success has added exactly the given bytes, in order, to what was sent, and
  -- a read that succeeds has taken exactly as many bytes as were asked for, the next ones, in
  -- order.
  pub transfers_whole :
      (bs got : Bytes) (size : ℕ) (c : Client os)
      → ((write_all os bs c).0 ≡ true
          → law.sent (write_all os bs c).1.world ≡ law.sent c.world ++ bs)
        × ((read_all os size c).0 ≡ some got
            → (length got ≡ size)
              × (law.unread c.world ≡ got ++ law.unread (read_all os size c).1.world))
  unfolding write_all read_all
  transfers_whole bs got size c = (
    write_loop_sent (length bs) bs c,
    λ e.
        let g = read_loop_got size size [] got c e in
        (
          ap length g.whole ∙ g.enough,
          g.taken ∙ ap (λ t. t ++ law.unread (read_all os size c).1.world) (sym g.whole),
        ),
  )
