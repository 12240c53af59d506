-- ===== src/Service/Listed.antt =====
-- The handlers that convert, commit a symbol and work on a candidate list
-- (tsf/SampleIME/KeyHandler.cpp, CandidateListUIPresenter.cpp) keep the mode with its presenter.
use ohagey.Common.{
  ℕ, refl, Bool, true, false, not, ◌&&◌, Option, none, some, List, [], ◌∷◌, length, ◌==◌,
}
use ohagey.Common.Text.{Text}
use ohagey.Wire.Text.{CodePage}
use ohagey.Client.Os.{Os}
use ohagey.Composer.{CandidateListItem}
use ohagey.Composer.Punctuation.{Pairs, get_punctuation}
use ohagey.Window.{CandidateWindow}
use ohagey.Keys.{is_none_mode}
use ohagey.Service.{
  Hresult, s_ok, s_false, is_s_ok, is_failed, Tsf, CandidatePresenter, TextService, Handler, ask,
  fault, ask_composition, pure, ◌>>=◌, ◌>>◌,
}
use ohagey.Service.Presenter.{
  selected_string, select_in_page, set_text, with_text, advise_arrow_key, start_candidate_list,
}
use ohagey.Service.Compositions.{handle_cancel, add_composing_and_char, add_char_and_finalize}
use ohagey.Service.Handlers.{
  copied, preceding_text_max, has_presenter, text_of, with_service, after_break,
}
use ohagey.Service.Candidates.{
  full_width, preceding_while, get_preceding_text, ask_candidates, drop_presenter, new_presenter,
  start_in, start_list, show_items, show_if_any, handle_composition_convert, cancel_unless,
  show_candidate, settle_candidate, handle_composition_punctuation,
  handle_composition_double_single_byte,
}
use ohagey.Service.Keeps.{bind-Keeps, then-Keeps, if-Keeps, pure-Keeps}
use ohagey.Service.Paired.{
  IsPaired, Stays, ask-Stays, ask_composition-Stays, on_window-Stays, done-Stays,
  handle_cancel-Stays,
}
use ohagey.Service.Written.{
  add_composing_and_char-Stays, add_char_and_finalize-Stays, start_candidate_list-Stays,
}
use ohagey.Service.Steps.{with_service-Stays, selected_string-Stays}

module _ (os : Os) (cp : CodePage) (tsf : Tsf) where
  abbrev P : TextService os tsf → Type 0
  P = IsPaired os tsf

  abbrev preceding : Option Text → Handler os tsf Text
  preceding text = pure (after_break (text_of (copied text)))

  preceding_while-Stays : (composing : Bool) → Stays os tsf (preceding_while os cp tsf composing)
  preceding_while-Stays false = pure-Keeps P {A = Text} []
  preceding_while-Stays true =
      bind-Keeps P (ask os tsf (tsf.text_before preceding_text_max)) preceding
        (ask-Stays os tsf (tsf.text_before preceding_text_max))
        (λ (text : Option Text). pure-Keeps P (after_break (text_of (copied text))))

  get_preceding_text-Stays : Stays os tsf (get_preceding_text os cp tsf)
  unfolding get_preceding_text
  get_preceding_text-Stays =
      with_service-Stays os cp tsf
        (λ (s : TextService os tsf). preceding_while os cp tsf s.is_composing)
        (λ (s : TextService os tsf). preceding_while-Stays s.is_composing)

  ask_candidates-Stays : (text : Text) → Stays os tsf (ask_candidates os cp tsf text)
  ask_candidates-Stays text s h = h

  abbrev dropped : Handler os tsf (Unit {0})
  dropped =
      with_service os cp tsf (λ (s : TextService os tsf). drop_presenter os cp tsf s.presenter)

  start_in-Stays : (found : Bool) → Stays os tsf (start_in os cp tsf found)
  start_in-Stays true = start_candidate_list-Stays os tsf
  start_in-Stays false = pure-Keeps P s_ok

  start_list-Stays : (has_manager : Bool) → Stays os tsf (start_list os cp tsf has_manager)
  start_list-Stays false = pure-Keeps P s_ok
  start_list-Stays true =
      bind-Keeps P (ask_composition os tsf tsf.get_range) (start_in os cp tsf)
        (ask_composition-Stays os tsf tsf.get_range) start_in-Stays

  show_items-Stays :
      (items : List CandidateListItem) (r : Hresult) → Stays os tsf (show_items os cp tsf items r)
  show_items-Stays items r =
      if-Keeps P (is_failed r) (pure r) (set_text items false >> pure r) (pure-Keeps P r) (
        then-Keeps P (set_text items false) (pure r)
          (on_window-Stays os tsf (λ (w : CandidateWindow). (tt, with_text items false w)))
          (pure-Keeps P r))

  abbrev shown : List CandidateListItem → Bool → Handler os tsf Hresult
  shown items has_manager = start_list os cp tsf has_manager >>= show_items os cp tsf items

  abbrev listed : List CandidateListItem → Handler os tsf Hresult
  listed items = ask os tsf tsf.get_document_mgr >>= shown items

  listed-Stays : (items : List CandidateListItem) → Stays os tsf (listed items)
  listed-Stays items =
      bind-Keeps P (ask os tsf tsf.get_document_mgr) (shown items)
        (ask-Stays os tsf tsf.get_document_mgr)
        (λ (m : Bool).
          bind-Keeps P (start_list os cp tsf m) (show_items os cp tsf items) (start_list-Stays m)
            (show_items-Stays items))

  dropped_then_listed-Stays :
      (wildcard : Bool) (items : List CandidateListItem) (p : Option CandidatePresenter)
      → Stays os tsf
          (drop_presenter os cp tsf p >> (new_presenter os cp tsf wildcard >> listed items))
  unfolding ohagey.Service.Presenter.end_candidate_list
  dropped_then_listed-Stays wildcard items none s h =
      listed-Stays items (new_presenter os cp tsf wildcard s).1 (λ e. refl)
  dropped_then_listed-Stays wildcard items (some p) s h =
      listed-Stays items
        (new_presenter os cp tsf wildcard (drop_presenter os cp tsf (some p) s).1).1 (λ e. refl)

  show_if_any-Stays :
      (wildcard : Bool) (items : List CandidateListItem)
      → Stays os tsf (show_if_any os cp tsf wildcard items)
  show_if_any-Stays wildcard items =
      if-Keeps P (length items == 0) (pure s_ok)
        (dropped >> (new_presenter os cp tsf wildcard >> listed items)) (pure-Keeps P s_ok)
        (λ (s : TextService os tsf) (h : P s).
          dropped_then_listed-Stays wildcard items s.presenter s h)

  abbrev convert_before : Bool → Text → Handler os tsf Hresult
  convert_before wildcard text = ask_candidates os cp tsf text >>= show_if_any os cp tsf wildcard

  pub composition_convert-Stays :
      (wildcard : Bool) → Stays os tsf (handle_composition_convert os cp tsf wildcard)
  unfolding handle_composition_convert
  composition_convert-Stays wildcard =
      bind-Keeps P (get_preceding_text os cp tsf) (convert_before wildcard) get_preceding_text-Stays
        (λ (text : Text).
          bind-Keeps P (ask_candidates os cp tsf text) (show_if_any os cp tsf wildcard)
            (ask_candidates-Stays text) (show_if_any-Stays wildcard))

  cancel_unless-Stays : (r : Hresult) → Stays os tsf (cancel_unless os cp tsf r)
  cancel_unless-Stays r =
      if-Keeps P (is_failed r) (pure r) (handle_cancel os tsf) (pure-Keeps P r)
        (handle_cancel-Stays os tsf)

  -- A character that is committed, and the composition that ends with it.
  abbrev committed : Text → Handler os tsf Hresult
  committed text = add_char_and_finalize os tsf text >>= cancel_unless os cp tsf

  committed-Stays : (text : Text) → Stays os tsf (committed text)
  committed-Stays text =
      bind-Keeps P (add_char_and_finalize os tsf text) (cancel_unless os cp tsf)
        (add_char_and_finalize-Stays os tsf text) cancel_unless-Stays

  abbrev nothing : Handler os tsf (Unit {0})
  nothing = pure tt

  show_candidate-Stays : (text : Text) → Stays os tsf (show_candidate os cp tsf text)
  show_candidate-Stays text =
      if-Keeps P (length text == 0) nothing (add_composing_and_char os tsf text >> nothing)
        (done-Stays os tsf)
        (then-Keeps P (add_composing_and_char os tsf text) nothing
          (add_composing_and_char-Stays os tsf text) (done-Stays os tsf))

  abbrev show_selected : Option Text → Handler os tsf (Unit {0})
  show_selected text = show_candidate os cp tsf (text_of text)

  settle_candidate-Stays : (s : TextService os tsf) → Stays os tsf (settle_candidate os cp tsf s)
  settle_candidate-Stays s =
      if-Keeps P (not (is_none_mode s.candidate_mode) && has_presenter s.presenter)
        (selected_string >>= show_selected) nothing
        (bind-Keeps P selected_string show_selected (selected_string-Stays os cp tsf)
          (λ (text : Option Text). show_candidate-Stays (text_of text)))
        (done-Stays os tsf)

  pub composition_punctuation-Stays :
      (pairs : Pairs) (wch : ℕ) → Stays os tsf (handle_composition_punctuation os cp tsf pairs wch)
  unfolding handle_composition_punctuation
  composition_punctuation-Stays pairs wch =
      then-Keeps P (with_service os cp tsf (settle_candidate os cp tsf))
        (committed ((get_punctuation wch pairs).0 ∷ []))
        (with_service-Stays os cp tsf (settle_candidate os cp tsf) settle_candidate-Stays)
        (committed-Stays ((get_punctuation wch pairs).0 ∷ []))

  pub composition_double_single_byte-Stays :
      (wch : ℕ) → Stays os tsf (handle_composition_double_single_byte os cp tsf wch)
  unfolding handle_composition_double_single_byte
  composition_double_single_byte-Stays wch = committed-Stays (full_width wch ∷ [])
