-- ===== src/Wire/Discipline.antt =====
-- Every method of `Reader` (tsf/Ohagey/OhageyWire.cpp) on any bytes: what it reports and how far
-- it goes.
use mathlib.Core.Path.{subst}
use Prim.Native.Nat.{bit_and}
use ohagey.Common.{
  ℕ, zero, suc, ◌+◌, ◌≤◌, ◌<◌, ◌≡◌, refl, sym, ap, true, false, Option, none, some, [], ◌∷◌, arith,
  ◌==◌, if◌then◌else◌, length, length-drop, Bool-cases, inl, inr,
}
use ohagey.Wire.{
  advance, continue, add_group, Bytes, Reader, reader, Read, WireType, varint, fixed64,
  length_delimited, start_group, end_group, fixed32, ◌>>=◌, ◌>>◌, require, next_byte,
  read_varint_loop, read_varint, read_tag, read_uint32, read_int32, read_bool, read_message,
  skip_field,
}
use ohagey.Wire.Text.{CodePage, read_string}

abbrev pub failed : Bytes → Reader
failed bs = record { rest = bs; ok = false }

-- Success moves forward and leaves the reader good; a refusal leaves it failed.
abbrev pub Progress {ℓ} : {A : Type ℓ} → Bytes → Option A × Reader → Type 0
Progress bs (some a, r) = (r.ok ≡ true) × (length r.rest < length bs)
Progress bs (none, r) = (r.ok ≡ false) × (length r.rest ≤ length bs)

pub record IsDisciplined {A : Type 0} (m : Read A) : Type 0 where
  pub sticky : (bs : Bytes) → m (failed bs) ≡ (none, failed bs)
  pub progress : (bs : Bytes) → Progress bs (m (reader bs))

Progress-weaken {ℓ} :
    {A : Type ℓ} (b : ℕ) (bs : Bytes) (x : Option A × Reader) → Progress bs x → Progress (b ∷ bs) x
Progress-weaken b bs (none, r) h = (h.0, omega arith)
Progress-weaken b bs (some a, r) h = (h.0, omega arith)

-- One round on a byte: the last one, or the rounds that follow.
varint_step :
    (n shift result b : ℕ) (bs : Bytes)
    → read_varint_loop (suc n) shift result (reader (b ∷ bs)) ≡ (
        if bit_and b 0x80 == 0
        then (some (add_group result b shift), reader bs)
        else read_varint_loop n (shift + 7) (add_group result b shift) (reader bs))
unfolding read_varint_loop require next_byte
varint_step n shift result b bs = ground arith

read_varint_loop-Progress :
    (n shift result : ℕ) (bs : Bytes) → Progress bs (read_varint_loop n shift result (reader bs))
unfolding read_varint_loop require next_byte
read_varint_loop-Progress zero shift result bs = ground arith
read_varint_loop-Progress (suc n) shift result [] = ground arith
read_varint_loop-Progress (suc n) shift result (b ∷ bs) =
    rw varint_step (elim (Bool-cases (bit_and b 0x80 == 0)) [
      | inl last ↦ rw last (refl, omega arith)
      | inr more ↦ rw more (
          Progress-weaken b bs _
            (read_varint_loop-Progress n (shift + 7) (add_group result b shift) bs))
    ])

read_varint-IsDisciplined : IsDisciplined read_varint
unfolding read_varint
read_varint-IsDisciplined = record {
  sticky = λ bs. refl;
  progress = λ bs. read_varint_loop-Progress 10 0 0 bs;
}

-- What a method does with the number that it read: it goes on from the same reader.
abbrev After {ℓ} : {A : Type ℓ} → Bytes → Option A × Reader → Type 0
After bs (some a, r) = (r.ok ≡ true) × (length r.rest ≤ length bs)
After bs (none, r) = (r.ok ≡ false) × (length r.rest ≤ length bs)

After→Progress {ℓ} :
    {A : Type ℓ} (bs cs : Bytes) (x : Option A × Reader)
    → length cs < length bs
    → After cs x
    → Progress bs x
After→Progress bs cs (none, r) lt h = (h.0, omega arith)
After→Progress bs cs (some a, r) lt h = (h.0, omega arith)

good_reader : (r : Reader) → r.ok ≡ true → r ≡ reader r.rest
good_reader r h = ground arith

module _ {A B : Type 0} (m : Read A) (f : A → Read B) (d : IsDisciplined m)
    (g : (a : A) (bs : Bytes) → After bs (f a (reader bs))) where
  then-Progress : (bs : Bytes) (x : Option A × Reader) → Progress bs x → Progress bs (continue f x)
  then-Progress bs (none, r) h = h
  then-Progress bs (some a, r) h =
      After→Progress bs r.rest (f a r) h.1
        (subst (λ x. After r.rest (f a x)) (sym (good_reader r h.0)) (g a r.rest))

  then-IsDisciplined : IsDisciplined (m >>= f)
  then-IsDisciplined = record {
    sticky = λ bs. ap (continue f) (d.sticky bs);
    progress = λ bs. then-Progress bs (m (reader bs)) (d.progress bs);
  }

read_tag-IsDisciplined : IsDisciplined read_tag
unfolding read_tag
read_tag-IsDisciplined =
    then-IsDisciplined read_varint _ read_varint-IsDisciplined (λ tag bs. ground arith)

read_uint32-IsDisciplined : IsDisciplined read_uint32
unfolding read_uint32
read_uint32-IsDisciplined =
    then-IsDisciplined read_varint _ read_varint-IsDisciplined (λ raw bs. (refl, omega arith))

read_int32-IsDisciplined : IsDisciplined read_int32
unfolding read_int32
read_int32-IsDisciplined =
    then-IsDisciplined read_varint _ read_varint-IsDisciplined (λ raw bs. (refl, omega arith))

read_bool-IsDisciplined : IsDisciplined read_bool
unfolding read_bool
read_bool-IsDisciplined =
    then-IsDisciplined read_varint _ read_varint-IsDisciplined (λ raw bs. (refl, omega arith))

read_message-IsDisciplined : IsDisciplined read_message
unfolding read_message
read_message-IsDisciplined =
    then-IsDisciplined read_varint _ read_varint-IsDisciplined
      (λ size bs. ground (arith, length-drop size bs))

read_string-IsDisciplined : (cp : CodePage) → IsDisciplined (read_string cp)
unfolding read_string
read_string-IsDisciplined cp =
    then-IsDisciplined read_varint _ read_varint-IsDisciplined
      (λ size bs. ground (arith, length-drop size bs))

fixed_step : (n : ℕ) (bs : Bytes) → 0 < n → Progress bs ((do require n; advance n) (reader bs))
unfolding require
fixed_step n bs h = ground (arith, length-drop n bs)

skip_field-IsDisciplined : (t : WireType) → IsDisciplined (skip_field t)
unfolding skip_field
skip_field-IsDisciplined varint =
    then-IsDisciplined read_varint _ read_varint-IsDisciplined (λ raw bs. (refl, omega arith))
skip_field-IsDisciplined fixed64 = record {
  sticky = λ bs. unfold require in refl;
  progress = λ bs. fixed_step 8 bs (omega arith);
}
skip_field-IsDisciplined length_delimited =
    then-IsDisciplined read_message _ read_message-IsDisciplined (λ body bs. (refl, omega arith))
skip_field-IsDisciplined fixed32 = record {
  sticky = λ bs. unfold require in refl;
  progress = λ bs. fixed_step 4 bs (omega arith);
}
skip_field-IsDisciplined start_group = record {
  sticky = λ bs. refl;
  progress = λ bs. (refl, omega arith);
}
skip_field-IsDisciplined end_group = record {
  sticky = λ bs. refl;
  progress = λ bs. (refl, omega arith);
}

-- Every read of the reader on any bytes: one that succeeds moves forward by a byte at least and
-- leaves the reader good, one that refuses leaves it failed, and a failed reader refuses every
-- later read and does not move.
pub reads-IsDisciplined :
    (cp : CodePage)
    → IsDisciplined read_tag
      × IsDisciplined read_varint
      × IsDisciplined read_uint32
      × IsDisciplined read_int32
      × IsDisciplined read_bool
      × IsDisciplined (read_string cp)
      × IsDisciplined read_message
      × ((t : WireType) → IsDisciplined (skip_field t))
reads-IsDisciplined cp = (
  read_tag-IsDisciplined,
  read_varint-IsDisciplined,
  read_uint32-IsDisciplined,
  read_int32-IsDisciplined,
  read_bool-IsDisciplined,
  read_string-IsDisciplined cp,
  read_message-IsDisciplined,
  skip_field-IsDisciplined,
)
