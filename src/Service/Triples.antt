-- ===== src/Service/Triples.antt =====
-- Handlers (tsf/SampleIME/KeyHandler.cpp) that reach a result without a fault, and what then holds.
use mathlib.Core.Path.{subst}
use ohagey.Common.{◌≡◌, sym, Bool, true, Option, none, some, if◌then◌else◌}
use ohagey.Client.Os.{Os}
use ohagey.Service.{Tsf, TextService, Handler, ask, ask_composition, fault, follow, ◌>>=◌}
use ohagey.Service.Keeps.{Keeps}

module _ {os : Os} {tsf : Tsf} where
  abbrev pub Holds :
      {A : Type 0} → (A → TextService os tsf → Type 0) → Option A × TextService os tsf → Type 0
  Holds Q (none, s) = ⊥
  Holds Q (some a, s) = Q a s

  -- From a state that P holds of, no fault, and Q of the result and the state.
  abbrev pub Triple :
      {A : Type 0}
      → (TextService os tsf → Type 0)
      → Handler os tsf A
      → (A → TextService os tsf → Type 0)
      → Type 0
  Triple P m Q = (s : TextService os tsf) → P s → Holds Q (m s)

  follow-Holds :
      {A B : Type 0} (Q : A → TextService os tsf → Type 0) (R : B → TextService os tsf → Type 0)
      (k : A → Handler os tsf B) (r : Option A × TextService os tsf)
      → Holds Q r
      → ((a : A) → Triple (Q a) (k a) R)
      → Holds R (follow k r)
  follow-Holds Q R k (none, s) h later = h
  follow-Holds Q R k (some a, s) h later = later a s h

  pub bind-Triple :
      {A B : Type 0} (P : TextService os tsf → Type 0) (Q : A → TextService os tsf → Type 0)
      (R : B → TextService os tsf → Type 0) (m : Handler os tsf A) (k : A → Handler os tsf B)
      → Triple P m Q
      → ((a : A) → Triple (Q a) (k a) R)
      → Triple P (m >>= k) R
  bind-Triple P Q R m k first later s h = follow-Holds Q R k (m s) (first s h) later

  weaken-Holds :
      {A : Type 0} (Q R : A → TextService os tsf → Type 0) (r : Option A × TextService os tsf)
      → ((a : A) (s : TextService os tsf) → Q a s → R a s)
      → Holds Q r
      → Holds R r
  weaken-Holds Q R (none, s) each h = h
  weaken-Holds Q R (some a, s) each h = each a s h

  pub weaken-Triple :
      {A : Type 0} (P : TextService os tsf → Type 0) (Q R : A → TextService os tsf → Type 0)
      (m : Handler os tsf A)
      → Triple P m Q
      → ((a : A) (s : TextService os tsf) → Q a s → R a s)
      → Triple P m R
  weaken-Triple P Q R m t each s h = weaken-Holds Q R (m s) each (t s h)

  and-Holds :
      {A : Type 0} (C : TextService os tsf → Type 0) (Q : A → TextService os tsf → Type 0)
      (r : Option A × TextService os tsf)
      → Holds Q r
      → C r.1
      → Holds (λ a s. Q a s × C s) r
  and-Holds C Q (none, s) h c = h
  and-Holds C Q (some a, s) h c = (h, c)

  -- What a handler brings about and what it keeps.
  pub and-Triple :
      {A : Type 0} (P C : TextService os tsf → Type 0) (Q : A → TextService os tsf → Type 0)
      (m : Handler os tsf A)
      → Triple P m Q
      → Keeps C m
      → Triple (λ s. P s × C s) m (λ a s. Q a s × C s)
  and-Triple P C Q m t k s (h, c) = and-Holds C Q (m s) (t s h) (k s c)

module _ {os : Os} {tsf : Tsf} {A B : Type 0} (P : TextService os tsf → Type 0)
    (R : B → TextService os tsf → Type 0) (f : tsf.World → A × tsf.World) (x : A)
    (k : A → Handler os tsf B) (answer : (w : tsf.World) → (f w).0 ≡ x)
    (carried : (s : TextService os tsf) (w : tsf.World) → P s → P (record s { world = w })) where
  -- A call whose answer is known goes on with that answer.
  pub known-Triple : Triple P (k x) R → Triple P (ask os tsf f >>= k) R
  known-Triple t s h =
      subst (λ (a : A). Holds R (k a (ask os tsf f s).1)) (sym (answer s.world))
        (t (ask os tsf f s).1 (carried s (f s.world).1 h))

  pub known_composition-Triple :
      ((s : TextService os tsf) → P s → s.is_composing ≡ true)
      → Triple P (k x) R
      → Triple P (ask_composition os tsf f >>= k) R
  known_composition-Triple composing t s h =
      subst (λ (b : Bool). Holds R (follow k (if b then ask os tsf f s else fault os tsf s)))
        (sym (composing s h)) (known-Triple t s h)
