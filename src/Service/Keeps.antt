-- ===== src/Service/Keeps.antt =====
-- What every step of a handler keeps (tsf/SampleIME/KeyHandler.cpp), put together from the parts.
use ohagey.Common.{Bool, true, false, Option, none, some, if◌then◌else◌}
use ohagey.Client.Os.{Os}
use ohagey.Service.{Tsf, TextService, Handler, follow, pure, ◌>>=◌, ◌>>◌}

module _ {os : Os} {tsf : Tsf} (P : TextService os tsf → Type 0) where
  abbrev pub Keeps : {A : Type 0} → Handler os tsf A → Type 0
  Keeps m = (s : TextService os tsf) → P s → P (m s).1

  follow-Keeps :
      {A B : Type 0} (k : A → Handler os tsf B) (r : Option A × TextService os tsf)
      → ((a : A) → Keeps (k a))
      → P r.1
      → P (follow k r).1
  follow-Keeps k (none, s) later h = h
  follow-Keeps k (some a, s) later h = later a s h

  pub bind-Keeps :
      {A B : Type 0} (m : Handler os tsf A) (k : A → Handler os tsf B)
      → Keeps m
      → ((a : A) → Keeps (k a))
      → Keeps (m >>= k)
  bind-Keeps m k first later s h = follow-Keeps k (m s) later (first s h)

  pub then-Keeps :
      {A B : Type 0} (m : Handler os tsf A) (k : Handler os tsf B)
      → Keeps m
      → Keeps k
      → Keeps (m >> k)
  then-Keeps m k first later = bind-Keeps m (λ a. k) first (λ a. later)

  pub if-Keeps :
      {A : Type 0} (b : Bool) (m k : Handler os tsf A)
      → Keeps m
      → Keeps k
      → Keeps (if b then m else k)
  if-Keeps true m k first second = first
  if-Keeps false m k first second = second

  pub pure-Keeps : {A : Type 0} (a : A) → Keeps (pure {os = os} {tsf = tsf} a)
  pure-Keeps a s h = h
