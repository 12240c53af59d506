-- ===== src/Romaji/Buffer/Typing.antt =====
-- `BufferAfterKeystroke` (tsf/Ohagey/RomajiKana.cpp) on a buffer of kana and letters.
use mathlib.Core.Path.{ap₂, subst}
use ohagey.Romaji.Prefix.{pop_back-prefix}
use ohagey.Common.{
  ℕ, ◌≤◌, ◌<◌, ◌≡◌, refl, sym, ap, ◌∙◌, Bool, true, false, ◌&&◌, [], All-pop_back,
  pop_back-append_cons, ◌∷◌, ◌++◌, append-nil, append_assoc, arith, if◌then◌else◌, Bool-cases, inl,
  inr, All, All-append, every, pop_back,
}
use ohagey.Common.Text.{Text}
use ohagey.Romaji.Rules.{is_lower}
use ohagey.Romaji.Table.{IsWide}
use ohagey.Romaji.Kana.{RomajiKana, fresh, rebuild, rebuilt, is_upper, is_accepted, lower_case}
use ohagey.Romaji.Output.{IsPending, rebuild_output, rebuild_pending}
use ohagey.Romaji.State.{letters, append_accepted, append_rejected, fresh-IsRebuilt}
use ohagey.Romaji.Buffer.{replay, buffer_after_keystroke}
use ohagey.Romaji.Buffer.Split.{IsAscii, settled_part, pending_part}

-- A letter as the converter keeps it.
pub record IsLetter (c : ℕ) : Type 0 where
  pub accepted : is_accepted c ≡ true
  pub lower : lower_case c ≡ c

IsLetter-ascii : (c : ℕ) → IsLetter c → c < 0x80
unfolding is_accepted is_lower is_upper
IsLetter-ascii c h = ground (arith, h.accepted)

pub letters-IsAscii : (p : Text) → All IsLetter p → IsAscii p
letters-IsAscii [] h = tt
letters-IsAscii (c ∷ p) h = (IsLetter-ascii c h.0, letters-IsAscii p h.1)

lower_case-IsLetter : (c : ℕ) → is_accepted c ≡ true → IsLetter (lower_case c)
unfolding is_accepted lower_case is_lower is_upper
lower_case-IsLetter c h = record { accepted = ground arith; lower = ground arith }

and_true : (b : Bool) → (b && true) ≡ b
and_true b = ground arith

and_assoc : (a b c : Bool) → ((a && b) && c) ≡ (a && (b && c))
and_assoc a b c = ground arith

-- Replaying letters is one rebuild from those that are accepted.
replay_lem :
    (r cs : Text) (ok : Bool)
    → replay cs (rebuilt r, ok) ≡ (rebuilt (r ++ letters cs), ok && every is_accepted cs)
unfolding replay rebuilt
replay_lem r [] ok = ap₂ (λ x b. (rebuilt x, b)) (sym (append-nil r)) (sym (and_true ok))
replay_lem r (c ∷ cs) ok = elim (Bool-cases (is_accepted c)) [
  | inl a ↦
      ap (step cs) (append_accepted c (rebuilt r) a)
      ∙ replay_lem (r ++ lower_case c ∷ []) cs (ok && true)
      ∙ rw a (
          ap₂ (λ x b. (rebuilt x, b)) (append_assoc r (lower_case c ∷ []) (letters cs))
            (and_assoc ok true (every is_accepted cs)))
  | inr n ↦
      ap (step cs) (append_rejected c (rebuilt r) n)
      ∙ replay_lem r cs (ok && false)
      ∙ rw n (ap₂ (λ x b. (rebuilt x, b)) refl (and_assoc ok false (every is_accepted cs)))
]
  where
    step : Text → RomajiKana × Bool → RomajiKana × Bool
    step cs q = replay cs (q.0, ok && q.1)

pub letters_self : (p : Text) → All IsLetter p → letters p ≡ p
letters_self [] h = refl
letters_self (c ∷ p) h = rw (h.0.accepted) (ap₂ (λ x y. x ∷ y) h.0.lower (letters_self p h.1))

letters-append : (p q : Text) → letters (p ++ q) ≡ letters p ++ letters q
letters-append [] q = refl
letters-append (c ∷ p) q = elim (Bool-cases (is_accepted c)) [
  | inl a ↦ rw a (ap (λ t. lower_case c ∷ t) (letters-append p q))
  | inr n ↦ rw n (letters-append p q)
]

every-snoc :
    (p : Text) (ch : ℕ) → All IsLetter p → every is_accepted (p ++ ch ∷ []) ≡ is_accepted ch
every-snoc [] ch h = and_true (is_accepted ch)
every-snoc (c ∷ p) ch h = rw (h.0.accepted) (every-snoc p ch h.1)

replay-fresh :
    (p : Text) (ch : ℕ)
    → All IsLetter p
    → replay (p ++ ch ∷ []) (fresh, true) ≡ (rebuilt (letters (p ++ ch ∷ [])), is_accepted ch)
replay-fresh p ch h =
    ap (λ c. replay (p ++ ch ∷ []) (c, true)) fresh-IsRebuilt
    ∙ replay_lem [] (p ++ ch ∷ []) true
    ∙ ap (λ b. (rebuilt (letters (p ++ ch ∷ [])), b)) (every-snoc p ch h)

-- What stays of the buffer and what the keystroke makes of the letters behind it.
abbrev pub retyped : Text → Text → Text
retyped s q = s ++ ((rebuild q).0 ++ (rebuild q).1)

letters-snoc :
    (p : Text) (ch : ℕ)
    → All IsLetter p
    → is_accepted ch ≡ true
    → letters (p ++ ch ∷ []) ≡ p ++ lower_case ch ∷ []
letters-snoc p ch h a =
    letters-append p (ch ∷ []) ∙ rw a (ap (λ q. q ++ lower_case ch ∷ []) (letters_self p h))

-- On kana followed by letters, an accepted keystroke leaves the kana and replaces the letters by
-- the rebuild of them with the new one; any other keystroke is appended as it came.
pub keystroke_lem :
    (s p : Text) (ch : ℕ)
    → IsWide s
    → All IsLetter p
    → buffer_after_keystroke (s ++ p) ch
      ≡ (if is_accepted ch then retyped s (p ++ lower_case ch ∷ []) else (s ++ p) ++ ch ∷ [])
unfolding buffer_after_keystroke rebuilt
keystroke_lem s p ch hs hp =
    let ascii = letters-IsAscii p hp in
    rw (settled_part s p hs ascii, pending_part s p hs ascii, replay-fresh p ch hp)
      (elim (Bool-cases (is_accepted ch)) [
        | inl a ↦ rw a (ap (retyped s) (letters-snoc p ch hp a))
        | inr n ↦ rw n
      ])

-- A buffer that typing makes: kana, then letters that are none or the beginning of a spelling.
pub record IsBuffer (b : Text) : Type 0 where
  pub settled : Text
  pub pending : Text
  pub splits : b ≡ settled ++ pending
  pub settled-IsWide : IsWide settled
  pub pending-letters : All IsLetter pending
  pub pending-IsPending : IsPending pending

pub data Stroke : Type 0 where
  type_key : ℕ → Stroke
  drop_last : Stroke

-- A backspace drops the last character of the buffer; a key is typed if the converter takes it.
abbrev stroke : Text → Stroke → Text
stroke b (type_key ch) = if is_accepted ch then buffer_after_keystroke b ch else b
stroke b drop_last = pop_back b

pub type-IsBuffer :
    (b : Text) (ch : ℕ)
    → is_accepted ch ≡ true
    → IsBuffer b
    → IsBuffer (buffer_after_keystroke b ch)
type-IsBuffer b ch a h =
    let q = h.pending ++ lower_case ch ∷ [] in
    let q-letters : All IsLetter q =
      All-append IsLetter h.pending (lower_case ch ∷ []) h.pending-letters
        (lower_case-IsLetter ch a, tt) in
    let (wide, pend) = rebuild_output q in
    record {
      settled = h.settled ++ (rebuild q).0;
      pending = (rebuild q).1;
      splits =
          ap (λ x. buffer_after_keystroke x ch) h.splits
          ∙ keystroke_lem h.settled h.pending ch h.settled-IsWide h.pending-letters
          ∙ rw a (sym (append_assoc h.settled (rebuild q).0 (rebuild q).1));
      settled-IsWide = All-append (λ c. 0x80 ≤ c) h.settled (rebuild q).0 h.settled-IsWide wide;
      pending-letters = rebuild_pending IsLetter q q-letters;
      pending-IsPending = pend;
    }

pop_back-IsPending : (p : Text) → IsPending p → IsPending (pop_back p)
pop_back-IsPending p (inl e) = inl (ap pop_back e)
pop_back-IsPending p (inr e) = inr (pop_back-prefix p e)

drop-IsBuffer :
    (s p : Text) → IsWide s → All IsLetter p → IsPending p → IsBuffer (pop_back (s ++ p))
drop-IsBuffer s [] hs hp h = record {
  settled = pop_back s;
  pending = [];
  splits = ap pop_back (append-nil s) ∙ sym (append-nil (pop_back s));
  settled-IsWide = All-pop_back (λ c. 0x80 ≤ c) s hs;
  pending-letters = tt;
  pending-IsPending = inl refl;
}
drop-IsBuffer s (c ∷ p) hs hp h = record {
  settled = s;
  pending = pop_back (c ∷ p);
  splits = pop_back-append_cons s c p;
  settled-IsWide = hs;
  pending-letters = All-pop_back IsLetter (c ∷ p) hp;
  pending-IsPending = pop_back-IsPending (c ∷ p) h;
}

pub stroke-IsBuffer : (b : Text) (k : Stroke) → IsBuffer b → IsBuffer (stroke b k)
stroke-IsBuffer b (type_key ch) h = elim (Bool-cases (is_accepted ch)) [
  | inl a ↦ rw (a, stroke) (type-IsBuffer b ch a h)
  | inr n ↦ rw (n, stroke) h
]
stroke-IsBuffer b drop_last h =
    subst (λ x. IsBuffer (pop_back x)) (sym h.splits)
      (drop-IsBuffer h.settled h.pending h.settled-IsWide h.pending-letters h.pending-IsPending)

pub empty-IsBuffer : IsBuffer []
empty-IsBuffer = record {
  settled = [];
  pending = [];
  splits = refl;
  settled-IsWide = tt;
  pending-letters = tt;
  pending-IsPending = inl refl;
}
