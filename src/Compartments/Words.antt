-- ===== src/Compartments/Words.antt =====
-- Flags and words of the compartments (tsf/SampleIME/CompositionProcessorEngine.cpp): how they are
-- read, written and compared.
use ohagey.Common.{
  ℕ, ◌≡◌, refl, sym, ap, ◌∙◌, Bool, true, false, not, ◌&&◌, Option, none, some, ◌==◌, ==_iff, arith,
}
use ohagey.Compartments.{
  Cell, unreachable, unset, holds, Conversion, get_compartment_bool, get_compartment_dword,
  set_compartment, Compartments, same, same_mode, brought, bit_from, set_if_changed,
}
use ohagey.Compartments.Preserved.{toggle}

get-set_bool :
    (c : Cell Bool) (b a : Bool)
    → get_compartment_bool c ≡ some b
    → get_compartment_bool (set_compartment a c) ≡ some a
get-set_bool unreachable b a e = absurd (grind arith)
get-set_bool unset b a e = refl
get-set_bool (holds _) b a e = refl

pub get-set_dword :
    (c : Cell Conversion) (m a : Conversion)
    → get_compartment_dword c ≡ some m
    → get_compartment_dword (set_compartment a c) ≡ some a
get-set_dword unreachable m a e = absurd (grind arith)
get-set_dword unset m a e = refl
get-set_dword (holds _) m a e = refl

same-≡ : (a b : Bool) → same a b ≡ true → a ≡ b
same-≡ true true e = refl
same-≡ true false e = sym e
same-≡ false true e = e
same-≡ false false e = refl

and_parts : (a b : Bool) → (a && b) ≡ true → (a ≡ true) × (b ≡ true)
and_parts true b e = (refl, e)
and_parts false b e = absurd (grind arith)

abbrev pub word : Bool → Bool → Bool → ℕ → Conversion
word native full_shape symbol others = record {
  native = native;
  full_shape = full_shape;
  symbol = symbol;
  others = others;
}

pub word-≡ :
    (a a' b b' c c' : Bool) (d d' : ℕ)
    → a ≡ a'
    → b ≡ b'
    → c ≡ c'
    → d ≡ d'
    → word a b c d ≡ word a' b' c' d'
word-≡ a a' b b' c c' d d' p q r e = cc

pub same_mode-≡ : (a b : Conversion) → same_mode a b ≡ true → a ≡ b
same_mode-≡ a b e =
    let (front, others) =
      and_parts (same a.native b.native && same a.full_shape b.full_shape && same a.symbol b.symbol)
        (a.others == b.others) e in
    let (shapes, symbols) =
      and_parts (same a.native b.native && same a.full_shape b.full_shape) (same a.symbol b.symbol)
        front in
    let (natives, fulls) =
      and_parts (same a.native b.native) (same a.full_shape b.full_shape) shapes in
    word-≡ a.native b.native a.full_shape b.full_shape a.symbol b.symbol a.others b.others
      (same-≡ a.native b.native natives) (same-≡ a.full_shape b.full_shape fulls)
      (same-≡ a.symbol b.symbol symbols) ((==_iff a.others b.others).0 others)

pub brought-same :
    (bit : Bool) (o : Option Bool) (c : Cell Bool) → o ≡ some bit → brought o bit c ≡ c
brought-same true none c e = refl
brought-same true (some true) c e = refl
brought-same true (some false) c e = absurd (grind arith)
brought-same false none c e = refl
brought-same false (some true) c e = absurd (grind arith)
brought-same false (some false) c e = refl

pub brought-get :
    (bit : Bool) (o : Option Bool) (c : Cell Bool) (b : Bool)
    → o ≡ some b
    → get_compartment_bool c ≡ o
    → get_compartment_bool (brought o bit c) ≡ some bit
brought-get bit none c b e h = absurd (grind arith)
brought-get true (some true) c b e h = h
brought-get true (some false) c b e h = get-set_bool c false true h
brought-get false (some true) c b e h = get-set_bool c true false h
brought-get false (some false) c b e h = h

bit_from-flag : (flag bit : Bool) → bit_from (some flag) bit ≡ flag
bit_from-flag true true = refl
bit_from-flag true false = refl
bit_from-flag false true = refl
bit_from-flag false false = refl

pub bit_from-read : (o : Option Bool) (flag bit : Bool) → o ≡ some flag → bit_from o bit ≡ flag
bit_from-read o flag bit e = ap (λ (p : Option Bool). bit_from p bit) e ∙ bit_from-flag flag bit

pub toggle-get :
    (c : Cell Bool) (b : Bool)
    → get_compartment_bool c ≡ some b
    → get_compartment_bool (toggle c) ≡ some (not b)
toggle-get unreachable b e = absurd (grind arith)
toggle-get unset true e = absurd (grind arith)
toggle-get unset false e = refl
toggle-get (holds true) true e = refl
toggle-get (holds true) false e = absurd (grind arith)
toggle-get (holds false) true e = absurd (grind arith)
toggle-get (holds false) false e = refl

same_refl : (b : Bool) → same b b ≡ true
same_refl true = refl
same_refl false = refl

same_mode_refl : (m : Conversion) → same_mode m m ≡ true
same_mode_refl m =
    rw (same_refl m.native, same_refl m.full_shape, same_refl m.symbol)
      ((==_iff m.others m.others).1 refl)

pub set_if_changed-same : (m : Conversion) (s : Compartments) → set_if_changed m m s ≡ s
set_if_changed-same m s = rw (same_mode_refl m) refl

pub bring_three :
    (a b c : Cell Bool) (s : Compartments)
    → a ≡ s.double_single_byte
    → b ≡ s.punctuation
    → c ≡ s.keyboard_open
    → (record s { double_single_byte = a; punctuation = b; keyboard_open = c }) ≡ s
bring_three a b c s p q r = cc
