-- ===== src/Service/Typed.antt =====
-- The handlers of a typed key, of backspace and of an arrow (tsf/SampleIME/KeyHandler.cpp) keep the
-- mode with its presenter.
use ohagey.Common.{ℕ, Bool, true, false, not, ◌&&◌, ◌||◌, Option, length, ◌==◌}
use ohagey.Wire.Text.{CodePage}
use ohagey.Client.Os.{Os}
use ohagey.Composer.{Composer, add_virtual_key, backspace_key}
use ohagey.Keys.{KeystrokeFunction, is_none_mode, is_incremental}
use ohagey.Service.{
  Hresult, s_ok, s_false, is_s_ok, is_failed, Tsf, CandidatePresenter, TextService, Handler, ask,
  tell, compose, ask_composition, pure, ◌>>=◌, ◌>>◌,
}
use ohagey.Service.Presenter.{advise_arrow_key}
use ohagey.Service.Compositions.{handle_cancel}
use ohagey.Service.Handlers.{
  has_presenter, with_service, handle_composition_input_worker, handle_composition_finalize,
  settle_list, start_unless, input_key, covered_if, input_at, handle_composition_input,
  after_backspace, backspace_from, backspace_if, backspace_at, backspace_while,
  handle_composition_backspace, advise_if, arrow_in, arrow_at, handle_composition_arrow_key,
}
use ohagey.Service.Keeps.{bind-Keeps, then-Keeps, if-Keeps, pure-Keeps}
use ohagey.Service.Paired.{
  IsPaired, Stays, ask-Stays, tell-Stays, compose-Stays, ask_composition-Stays, done-Stays,
  start_composition-Stays, handle_cancel-Stays,
}
use ohagey.Service.Written.{advise_arrow_key-Stays}
use ohagey.Service.Steps.{with_service-Stays, input_worker-Stays, composition_finalize-Stays}

module _ (os : Os) (cp : CodePage) (tsf : Tsf) where
  abbrev P : TextService os tsf → Type 0
  P = IsPaired os tsf

  abbrev ok : Handler os tsf Hresult
  ok = pure s_ok

  abbrev no_selection : Handler os tsf Hresult
  no_selection = pure s_false

  abbrev nothing : Handler os tsf (Unit {0})
  nothing = pure tt

  settle_list-Stays : (s : TextService os tsf) → Stays os tsf (settle_list os cp tsf s)
  settle_list-Stays s =
      if-Keeps P
        (has_presenter s.presenter
          && not (is_incremental s.candidate_mode)
          && not (is_none_mode s.candidate_mode))
        (handle_composition_finalize os cp tsf false >> nothing) nothing
        (then-Keeps P (handle_composition_finalize os cp tsf false) nothing
          (composition_finalize-Stays os cp tsf false) (done-Stays os tsf))
        (done-Stays os tsf)

  start_unless-Stays : (composing : Bool) → Stays os tsf (start_unless os cp tsf composing)
  start_unless-Stays true = done-Stays os tsf
  start_unless-Stays false = start_composition-Stays os tsf

  abbrev add_key : ℕ → Composer os → Composer os
  add_key wch c = (add_virtual_key wch c).1

  input_key-Stays : (wch : ℕ) (covered : Bool) → Stays os tsf (input_key os cp tsf wch covered)
  input_key-Stays wch false = pure-Keeps P s_ok
  input_key-Stays wch true =
      then-Keeps P (compose os tsf (add_key wch)) (handle_composition_input_worker os cp tsf >> ok)
        (compose-Stays os tsf (add_key wch))
        (then-Keeps P (handle_composition_input_worker os cp tsf) ok (input_worker-Stays os cp tsf)
          (pure-Keeps P s_ok))

  covered_if-Stays : (found : Bool) → Stays os tsf (covered_if os cp tsf found)
  covered_if-Stays true = ask-Stays os tsf tsf.is_range_covered
  covered_if-Stays false = pure-Keeps P true

  -- A step that goes on with whether the range covers the selection.
  where_covered-Stays :
      (k : Bool → Handler os tsf Hresult)
      → ((covered : Bool) → Stays os tsf (k covered))
      → Stays os tsf (
          ask_composition os tsf tsf.get_range >>= λ (found : Bool).
          covered_if os cp tsf found >>= k)
  where_covered-Stays k each =
      bind-Keeps P (ask_composition os tsf tsf.get_range)
        (λ (found : Bool). covered_if os cp tsf found >>= k)
        (ask_composition-Stays os tsf tsf.get_range)
        (λ (found : Bool).
          bind-Keeps P (covered_if os cp tsf found) k (covered_if-Stays found) each)

  input_at-Stays : (wch : ℕ) (r : Hresult × Bool) → Stays os tsf (input_at os cp tsf wch r)
  input_at-Stays wch (result, fetched) =
      if-Keeps P (not (is_s_ok result) || not fetched) no_selection
        (ask_composition os tsf tsf.get_range >>= λ (found : Bool).
          covered_if os cp tsf found >>= input_key os cp tsf wch)
        (pure-Keeps P s_false) (where_covered-Stays (input_key os cp tsf wch) (input_key-Stays wch))

  abbrev started : Handler os tsf (Unit {0})
  started =
      with_service os cp tsf (λ (s : TextService os tsf). start_unless os cp tsf s.is_composing)

  abbrev selected_input : ℕ → Handler os tsf Hresult
  selected_input wch = ask os tsf tsf.get_selection >>= input_at os cp tsf wch

  pub composition_input-Stays : (wch : ℕ) → Stays os tsf (handle_composition_input os cp tsf wch)
  unfolding handle_composition_input
  composition_input-Stays wch =
      then-Keeps P (with_service os cp tsf (settle_list os cp tsf)) (started >> selected_input wch)
        (with_service-Stays os cp tsf (settle_list os cp tsf) settle_list-Stays)
        (then-Keeps P started (selected_input wch)
          (with_service-Stays os cp tsf
            (λ (s : TextService os tsf). start_unless os cp tsf s.is_composing)
            (λ (s : TextService os tsf). start_unless-Stays s.is_composing))
          (bind-Keeps P (ask os tsf tsf.get_selection) (input_at os cp tsf wch)
            (ask-Stays os tsf tsf.get_selection) (input_at-Stays wch)))

  after_backspace-Stays : (c : Composer os) → Stays os tsf (after_backspace os cp tsf c)
  after_backspace-Stays c =
      if-Keeps P (length c.keystrokes == 0) (handle_cancel os tsf)
        (handle_composition_input_worker os cp tsf) (handle_cancel-Stays os tsf)
        (input_worker-Stays os cp tsf)

  abbrev shown_again : Handler os tsf Hresult
  shown_again =
      with_service os cp tsf (λ (s : TextService os tsf). after_backspace os cp tsf s.composer)

  backspace_from-Stays : (c : Composer os) → Stays os tsf (backspace_from os cp tsf c)
  backspace_from-Stays c =
      if-Keeps P (length c.keystrokes == 0) ok (compose os tsf backspace_key >> (shown_again >> ok))
        (pure-Keeps P s_ok)
        (then-Keeps P (compose os tsf backspace_key) (shown_again >> ok)
          (compose-Stays os tsf backspace_key)
          (then-Keeps P shown_again ok
            (with_service-Stays os cp tsf
              (λ (s : TextService os tsf). after_backspace os cp tsf s.composer)
              (λ (s : TextService os tsf). after_backspace-Stays s.composer))
            (pure-Keeps P s_ok)))

  backspace_if-Stays : (covered : Bool) → Stays os tsf (backspace_if os cp tsf covered)
  backspace_if-Stays false = pure-Keeps P s_ok
  backspace_if-Stays true =
      with_service-Stays os cp tsf (λ (s : TextService os tsf). backspace_from os cp tsf s.composer)
        (λ (s : TextService os tsf). backspace_from-Stays s.composer)

  backspace_at-Stays : (r : Hresult × Bool) → Stays os tsf (backspace_at os cp tsf r)
  backspace_at-Stays (result, fetched) =
      if-Keeps P (is_failed result || not fetched) no_selection
        (ask_composition os tsf tsf.get_range >>= λ (found : Bool).
          covered_if os cp tsf found >>= backspace_if os cp tsf)
        (pure-Keeps P s_false) (where_covered-Stays (backspace_if os cp tsf) backspace_if-Stays)

  backspace_while-Stays : (composing : Bool) → Stays os tsf (backspace_while os cp tsf composing)
  backspace_while-Stays false = pure-Keeps P s_ok
  backspace_while-Stays true =
      bind-Keeps P (ask os tsf tsf.get_selection) (backspace_at os cp tsf)
        (ask-Stays os tsf tsf.get_selection) backspace_at-Stays

  pub composition_backspace-Stays : Stays os tsf (handle_composition_backspace os cp tsf)
  unfolding handle_composition_backspace
  composition_backspace-Stays =
      with_service-Stays os cp tsf
        (λ (s : TextService os tsf). backspace_while os cp tsf s.is_composing)
        (λ (s : TextService os tsf). backspace_while-Stays s.is_composing)

  advise_if-Stays :
      (f : KeystrokeFunction) (p : Option CandidatePresenter)
      → Stays os tsf (advise_if os cp tsf f p)
  advise_if-Stays f p =
      if-Keeps P (has_presenter p) (advise_arrow_key f) nothing (advise_arrow_key-Stays os tsf f)
        (done-Stays os tsf)

  abbrev advised : KeystrokeFunction → Handler os tsf (Unit {0})
  advised f = with_service os cp tsf (λ (s : TextService os tsf). advise_if os cp tsf f s.presenter)

  arrow_in-Stays :
      (f : KeystrokeFunction) (found : Bool) → Stays os tsf (arrow_in os cp tsf f found)
  arrow_in-Stays f false = pure-Keeps P s_ok
  arrow_in-Stays f true =
      then-Keeps P (advised f) (tell os tsf tsf.set_selection >> ok)
        (with_service-Stays os cp tsf
          (λ (s : TextService os tsf). advise_if os cp tsf f s.presenter)
          (λ (s : TextService os tsf). advise_if-Stays f s.presenter))
        (then-Keeps P (tell os tsf tsf.set_selection) ok (tell-Stays os tsf tsf.set_selection)
          (pure-Keeps P s_ok))

  arrow_at-Stays :
      (f : KeystrokeFunction) (r : Hresult × Bool) → Stays os tsf (arrow_at os cp tsf f r)
  arrow_at-Stays f (result, fetched) =
      if-Keeps P (is_failed result || not fetched) ok
        (ask_composition os tsf tsf.get_range >>= arrow_in os cp tsf f) (pure-Keeps P s_ok)
        (bind-Keeps P (ask_composition os tsf tsf.get_range) (arrow_in os cp tsf f)
          (ask_composition-Stays os tsf tsf.get_range) (arrow_in-Stays f))

  pub composition_arrow_key-Stays :
      (f : KeystrokeFunction) → Stays os tsf (handle_composition_arrow_key os cp tsf f)
  unfolding handle_composition_arrow_key
  composition_arrow_key-Stays f =
      bind-Keeps P (ask os tsf tsf.get_selection) (arrow_at os cp tsf f)
        (ask-Stays os tsf tsf.get_selection) (arrow_at-Stays f)
