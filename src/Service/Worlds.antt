-- ===== src/Service/Worlds.antt =====
-- Text that a handler writes (tsf/SampleIME/Composition.cpp, KeyHandler.cpp) changes nothing but the
-- context: whatever does not depend on the context is kept.
use ohagey.Common.{Bool, true, false, not, ◌||◌, List, [], ◌∷◌, if◌then◌else◌}
use ohagey.Common.Text.{Text}
use ohagey.Client.Os.{Os}
use ohagey.Service.{
  Hresult, s_ok, s_false, failed, is_failed, is_s_ok, Tsf, TextService, Handler, ask, tell,
  ask_composition, fault, pure, ◌>>=◌, ◌>>◌,
}
use ohagey.Service.Compositions.{
  write_in_range, set_input_string, write_at_start, write_composing, add_composing_and_char,
  move_caret, write_final, add_char_and_finalize,
}
use ohagey.Service.Handlers.{add_next, add_readings}
use ohagey.Wire.Text.{CodePage}
use ohagey.Service.Keeps.{Keeps, bind-Keeps, then-Keeps, if-Keeps, pure-Keeps}

module _ (os : Os) (tsf : Tsf) (P : TextService os tsf → Type 0)
    (carried : (s : TextService os tsf) (w : tsf.World) → P s → P (record s { world = w })) where
  ask-Keeps : {A : Type 0} (f : tsf.World → A × tsf.World) → Keeps P (ask os tsf f)
  ask-Keeps f s h = carried s (f s.world).1 h

  tell-Keeps : (f : tsf.World → tsf.World) → Keeps P (tell os tsf f)
  tell-Keeps f s h = carried s (f s.world) h

  asked_if-Keeps :
      {A : Type 0} (composing : Bool) (f : tsf.World → A × tsf.World)
      → Keeps P (λ (s : TextService os tsf). if composing then ask os tsf f s else fault os tsf s)
  asked_if-Keeps true f s h = ask-Keeps f s h
  asked_if-Keeps false f s h = h

  ask_composition-Keeps :
      {A : Type 0} (f : tsf.World → A × tsf.World) → Keeps P (ask_composition os tsf f)
  ask_composition-Keeps f s h = asked_if-Keeps s.is_composing f s h

  abbrev language : Handler os tsf (Unit {0})
  language = ask_composition os tsf (λ (w : tsf.World). (tt, tsf.set_language w))

  abbrev show_caret : Handler os tsf (Unit {0})
  show_caret = tell os tsf tsf.set_attributes >> tell os tsf tsf.caret_after

  write_in_range-Keeps : (text : Text) (found : Bool) → Keeps P (write_in_range os tsf text found)
  write_in_range-Keeps text false = pure-Keeps P tt
  write_in_range-Keeps text true =
      then-Keeps P (tell os tsf (tsf.set_range_text text)) (language >> show_caret)
        (tell-Keeps (tsf.set_range_text text))
        (then-Keeps P language show_caret
          (ask_composition-Keeps (λ (w : tsf.World). (tt, tsf.set_language w)))
          (then-Keeps P (tell os tsf tsf.set_attributes) (tell os tsf tsf.caret_after)
            (tell-Keeps tsf.set_attributes) (tell-Keeps tsf.caret_after)))

  set_input_string-Keeps :
      (text : Text) (exists : Bool) → Keeps P (set_input_string os tsf text exists)
  unfolding set_input_string
  set_input_string-Keeps text true = write_in_range-Keeps text true
  set_input_string-Keeps text false =
      bind-Keeps P (ask os tsf (tsf.insert_at_selection text)) (write_in_range os tsf text)
        (ask-Keeps (tsf.insert_at_selection text)) (write_in_range-Keeps text)

  write_at_start-Keeps :
      (text : Text) (reached : Bool) → Keeps P (write_at_start os tsf text reached)
  write_at_start-Keeps text false = pure-Keeps P s_ok
  write_at_start-Keeps text true =
      bind-Keeps P (ask os tsf tsf.find_composing_range)
        (λ (exists : Bool). set_input_string os tsf text exists >> pure s_ok)
        (ask-Keeps tsf.find_composing_range)
        (λ (exists : Bool).
          then-Keeps P (set_input_string os tsf text exists) (pure s_ok)
            (set_input_string-Keeps text exists) (pure-Keeps P s_ok))

  write_composing-Keeps :
      (text : Text) (r : Hresult × Bool) → Keeps P (write_composing os tsf text r)
  write_composing-Keeps text (result, fetched) =
      if-Keeps P (not (is_s_ok result) || not fetched) (pure s_false)
        (ask os tsf tsf.start_to_selection >>= write_at_start os tsf text) (pure-Keeps P s_false)
        (bind-Keeps P (ask os tsf tsf.start_to_selection) (write_at_start os tsf text)
          (ask-Keeps tsf.start_to_selection) (write_at_start-Keeps text))

  pub add_composing_and_char-Keeps : (text : Text) → Keeps P (add_composing_and_char os tsf text)
  unfolding add_composing_and_char
  add_composing_and_char-Keeps text =
      bind-Keeps P (ask os tsf tsf.get_selection) (write_composing os tsf text)
        (ask-Keeps tsf.get_selection) (write_composing-Keeps text)

  move_caret-Keeps : (result : Hresult) → Keeps P (move_caret os tsf result)
  move_caret-Keeps s_ok s h = carried s (tsf.set_selection (tsf.caret_after s.world)) h
  move_caret-Keeps s_false s h = h
  move_caret-Keeps failed s h = h

  write_final-Keeps : (text : Text) (r : Hresult × Bool) → Keeps P (write_final os tsf text r)
  write_final-Keeps text (result, fetched) =
      if-Keeps P (not (is_s_ok result) || not fetched) (pure result)
        (ask os tsf (tsf.set_selection_text text) >>= move_caret os tsf) (pure-Keeps P result)
        (bind-Keeps P (ask os tsf (tsf.set_selection_text text)) (move_caret os tsf)
          (ask-Keeps (tsf.set_selection_text text)) move_caret-Keeps)

  pub add_char_and_finalize-Keeps : (text : Text) → Keeps P (add_char_and_finalize os tsf text)
  unfolding add_char_and_finalize
  add_char_and_finalize-Keeps text =
      bind-Keeps P (ask os tsf tsf.get_selection) (write_final os tsf text)
        (ask-Keeps tsf.get_selection) (write_final-Keeps text)

  pub add_readings-Keeps :
      (cp : CodePage) (texts : List Text) → Keeps P (add_readings os cp tsf texts)
  unfolding add_readings
  add_readings-Keeps cp [] = pure-Keeps P s_ok
  add_readings-Keeps cp (text ∷ texts) =
      bind-Keeps P (add_composing_and_char os tsf text)
        (add_next os cp tsf (add_readings os cp tsf texts)) (add_composing_and_char-Keeps text)
        (λ (result : Hresult).
          if-Keeps P (is_failed result) (pure result) (add_readings os cp tsf texts)
            (pure-Keeps P result) (add_readings-Keeps cp texts))
