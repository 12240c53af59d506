-- ===== src/Service/Written.antt =====
-- Text that a handler writes (tsf/SampleIME/Composition.cpp) and what it does to a candidate list
-- (tsf/SampleIME/CandidateListUIPresenter.cpp) keep the mode with its presenter.
use ohagey.Common.{refl, Bool, true, false, Option, none, some, List}
use ohagey.Common.Text.{Text}
use ohagey.Client.Os.{Os}
use ohagey.Keys.{KeystrokeFunction}
use ohagey.Service.{failed, Tsf, CandidatePresenter, TextService, ask, pure}
use ohagey.Service.Presenter.{
  change_window, arrow_key, is_arrow, advise_arrow_key, end_candidate_list, put_window,
  make_candidate_window, end_if_failed, after_layout, start_candidate_list,
}
use ohagey.Service.Compositions.{add_composing_and_char, add_char_and_finalize}
use ohagey.Service.Worlds.{
  add_composing_and_char-Keeps, add_char_and_finalize-Keeps, add_readings-Keeps,
}
use ohagey.Wire.Text.{CodePage}
use ohagey.Service.Handlers.{add_readings}
use ohagey.Service.Keeps.{bind-Keeps, then-Keeps, if-Keeps, pure-Keeps}
use ohagey.Service.Paired.{
  IsPaired, Stays, ask-Stays, on_window-Stays, end_candidate_list-Stays, done-Stays,
}

module _ (os : Os) (tsf : Tsf) where
  abbrev P : TextService os tsf → Type 0
  P = IsPaired os tsf

  carried : (s : TextService os tsf) (w : tsf.World) → P s → P (record s { world = w })
  carried s w h = h

  pub add_composing_and_char-Stays :
      (text : Text) → Stays os tsf (add_composing_and_char os tsf text)
  add_composing_and_char-Stays text = add_composing_and_char-Keeps os tsf P carried text

  pub add_char_and_finalize-Stays : (text : Text) → Stays os tsf (add_char_and_finalize os tsf text)
  add_char_and_finalize-Stays text = add_char_and_finalize-Keeps os tsf P carried text

  pub add_readings-Stays :
      (cp : CodePage) (texts : List Text) → Stays os tsf (add_readings os cp tsf texts)
  add_readings-Stays cp texts = add_readings-Keeps os tsf P carried cp texts

  pub advise_arrow_key-Stays : (f : KeystrokeFunction) → Stays os tsf (advise_arrow_key f)
  unfolding advise_arrow_key
  advise_arrow_key-Stays f =
      if-Keeps P (is_arrow f) (change_window (arrow_key f)) (pure tt)
        (on_window-Stays os tsf (λ w. (tt, arrow_key f w))) (done-Stays os tsf)

  put_window-Stays : (p : Option CandidatePresenter) → Stays os tsf (put_window os tsf p)
  put_window-Stays none s h = λ e. refl
  put_window-Stays (some none) s h = λ e. refl
  put_window-Stays (some (some w)) s h = h

  make_candidate_window-Stays : Stays os tsf (make_candidate_window os tsf)
  make_candidate_window-Stays s h = put_window-Stays s.presenter s h

  end_if_failed-Stays : (made : Bool) → Stays os tsf (end_if_failed os tsf made)
  end_if_failed-Stays true s h = h
  end_if_failed-Stays false s h =
      then-Keeps P (end_candidate_list os tsf) (pure failed) (end_candidate_list-Stays os tsf)
        (pure-Keeps P failed) s h

  after_layout-Stays : (advised : Bool) → Stays os tsf (after_layout os tsf advised)
  after_layout-Stays true =
      bind-Keeps P (make_candidate_window os tsf) (end_if_failed os tsf) make_candidate_window-Stays
        end_if_failed-Stays
  after_layout-Stays false =
      then-Keeps P (end_candidate_list os tsf) (pure failed) (end_candidate_list-Stays os tsf)
        (pure-Keeps P failed)

  pub start_candidate_list-Stays : Stays os tsf (start_candidate_list os tsf)
  unfolding start_candidate_list
  start_candidate_list-Stays =
      bind-Keeps P (ask os tsf tsf.advise_layout) (after_layout os tsf)
        (ask-Stays os tsf tsf.advise_layout) after_layout-Stays
