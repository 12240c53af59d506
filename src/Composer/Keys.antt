-- ===== src/Composer/Keys.antt =====
-- The keystroke buffer (tsf/SampleIME/CompositionProcessorEngine.cpp) under keys and backspaces.
use mathlib.Core.Path.{subst}
use mathlib.Core.List.{foldl}
use ohagey.Common.{
  ℕ, ◌+◌, ◌-◌, ◌<◌, ◌≡◌, sym, true, false, List, [], ◌∷◌, ltb, le→ltb_false, ◌==◌, arith, length,
  pop_back, Bool-cases, inl, inr,
}
use ohagey.Common.Text.{Text}
use ohagey.Romaji.Rules.{is_lower}
use ohagey.Romaji.Kana.{is_accepted, is_upper}
use ohagey.Romaji.Buffer.Typing.{
  drop_last, IsBuffer, type-IsBuffer, stroke-IsBuffer, empty-IsBuffer,
}
use ohagey.Composer.{
  Composer, key_added, key_removed, add_virtual_key, remove_virtual_key, purge_virtual_key,
  backspace_key,
}
use ohagey.Client.Os.{Os}

-- What the key handler asks for: an accepted key, a backspace, and the end of a composition.
pub data Keystroke : Type 0 where
  add : (ch : ℕ) → is_accepted ch ≡ true → Keystroke
  back : Keystroke
  purge : Keystroke

not_nul : (ch : ℕ) → is_accepted ch ≡ true → (ch == 0) ≡ false
unfolding is_accepted is_lower is_upper
not_nul ch h = ground arith

key_removed_last :
    (keys : Text) → 0 < length keys → key_removed keys (length keys - 1) ≡ pop_back keys
unfolding key_removed
key_removed_last keys some_key =
    let last : ltb (length keys - 1 + 1) (length keys) ≡ false = le→ltb_false _ _ (omega arith) in
    rw last

module _ {os : Os} where
  abbrev pub handle : Composer os → Keystroke → Composer os
  handle c (add ch accepted) = (add_virtual_key ch c).1
  handle c back = backspace_key c
  handle c purge = purge_virtual_key c

  add-IsBuffer :
      (c : Composer os) (ch : ℕ)
      → is_accepted ch ≡ true
      → IsBuffer c.keystrokes
      → IsBuffer (add_virtual_key ch c).1.keystrokes
  unfolding add_virtual_key key_added
  add-IsBuffer c ch accepted h = rw (not_nul ch accepted) (type-IsBuffer c.keystrokes ch accepted h)

  backspace-IsBuffer :
      (c : Composer os) → IsBuffer c.keystrokes → IsBuffer (backspace_key c).keystrokes
  unfolding backspace_key remove_virtual_key
  backspace-IsBuffer c h = elim (Bool-cases (length c.keystrokes == 0)) [
    | inl e ↦ rw e h
    | inr e ↦ rw e (
        subst IsBuffer (sym (key_removed_last c.keystrokes (ground (arith, e))))
          (stroke-IsBuffer c.keystrokes drop_last h))
  ]

  handle-IsBuffer :
      (c : Composer os) (k : Keystroke) → IsBuffer c.keystrokes → IsBuffer (handle c k).keystrokes
  handle-IsBuffer c (add ch accepted) h = add-IsBuffer c ch accepted h
  handle-IsBuffer c back h = backspace-IsBuffer c h
  handle-IsBuffer c purge h = unfold purge_virtual_key in empty-IsBuffer

  handles-IsBuffer :
      (c : Composer os) (ks : List Keystroke)
      → IsBuffer c.keystrokes
      → IsBuffer (foldl handle c ks).keystrokes
  handles-IsBuffer c [] h = h
  handles-IsBuffer c (k ∷ ks) h = handles-IsBuffer (handle c k) ks (handle-IsBuffer c k h)

  -- From an empty buffer, any keys that the converter takes, backspaces and ends of a composition
  -- leave kana that are not ASCII followed by letters that are none or begin a spelling.
  pub keystrokes-IsBuffer :
      (c : Composer os) (ks : List Keystroke)
      → c.keystrokes ≡ []
      → IsBuffer (foldl handle c ks).keystrokes
  keystrokes-IsBuffer c ks e = handles-IsBuffer c ks (subst IsBuffer (sym e) empty-IsBuffer)
