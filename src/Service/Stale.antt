-- ===== src/Service/Stale.antt =====
-- What shows a changed composition (tsf/SampleIME/KeyHandler.cpp, _HandleCompositionInputWorker) when
-- the presenter is there and its window is not.
use ohagey.Common.{
  ◌≡◌, refl, Bool, true, false, not, ◌||◌, Option, none, some, List, [], ◌∷◌, arith, if◌then◌else◌,
}
use ohagey.Common.Text.{Text}
use ohagey.Wire.Text.{CodePage}
use ohagey.Client.Os.{Os}
use ohagey.Window.{CandidateWindow, clear_list}
use ohagey.Service.Presenter.{with_window}
use ohagey.Service.{
  Hresult, s_ok, s_false, failed, is_s_ok, is_failed, Tsf, CandidatePresenter, TextService, Handler,
  ask, follow, pure, ◌>>=◌, ◌>>◌,
}
use ohagey.Service.Compositions.{
  set_input_string, write_at_start, write_composing, add_composing_and_char,
}
use ohagey.Service.Handlers.{
  reading_of, take_reading, add_next, add_readings, clear_if, clear_shown,
  handle_composition_input_worker,
}
use ohagey.Service.Worlds.{add_readings-Keeps}

module _ (os : Os) (tsf : Tsf) where
  -- A fault, or a result that is no failure.
  abbrev IsUnfailed : Option Hresult → Type 0
  IsUnfailed none = Unit {0}
  IsUnfailed (some result) = is_failed result ≡ false

  follow-IsUnfailed :
      {A : Type 0} (k : A → Handler os tsf Hresult) (r : Option A × TextService os tsf)
      → ((a : A) (s : TextService os tsf) → IsUnfailed (k a s).0)
      → IsUnfailed (follow k r).0
  follow-IsUnfailed k (none, s) each = tt
  follow-IsUnfailed k (some a, s) each = each a s

  write_at_start-IsUnfailed :
      (text : Text) (reached : Bool) (s : TextService os tsf)
      → IsUnfailed (write_at_start os tsf text reached s).0
  write_at_start-IsUnfailed text false s = refl
  write_at_start-IsUnfailed text true s =
      follow-IsUnfailed (λ (exists : Bool). set_input_string os tsf text exists >> pure s_ok)
        (ask os tsf tsf.find_composing_range s)
        (λ (exists : Bool) (t : TextService os tsf).
          follow-IsUnfailed (λ _. pure s_ok) (set_input_string os tsf text exists t) (λ _ _. refl))

  if-IsUnfailed :
      (b : Bool) (m k : Handler os tsf Hresult) (s : TextService os tsf)
      → IsUnfailed (m s).0
      → IsUnfailed (k s).0
      → IsUnfailed ((if b then m else k) s).0
  if-IsUnfailed true m k s first second = first
  if-IsUnfailed false m k s first second = second

  write_composing-IsUnfailed :
      (text : Text) (r : Hresult × Bool) (s : TextService os tsf)
      → IsUnfailed (write_composing os tsf text r s).0
  write_composing-IsUnfailed text (result, fetched) s =
      if-IsUnfailed (not (is_s_ok result) || not fetched) (pure s_false)
        (ask os tsf tsf.start_to_selection >>= write_at_start os tsf text) s refl
        (write_at_start-IsUnfailed text (tsf.start_to_selection s.world).0
          (ask os tsf tsf.start_to_selection s).1)

  add_composing_and_char-IsUnfailed :
      (text : Text) (s : TextService os tsf) → IsUnfailed (add_composing_and_char os tsf text s).0
  unfolding add_composing_and_char
  add_composing_and_char-IsUnfailed text s =
      write_composing-IsUnfailed text (tsf.get_selection s.world).0
        (ask os tsf tsf.get_selection s).1

  module _ (cp : CodePage) where
    follow_next-IsUnfailed :
        (rest : Handler os tsf Hresult) (r : Option Hresult × TextService os tsf)
        → ((s : TextService os tsf) → IsUnfailed (rest s).0)
        → IsUnfailed r.0
        → IsUnfailed (follow (add_next os cp tsf rest) r).0
    follow_next-IsUnfailed rest (none, s) each h = tt
    follow_next-IsUnfailed rest (some s_ok, s) each h = each s
    follow_next-IsUnfailed rest (some s_false, s) each h = each s
    follow_next-IsUnfailed rest (some failed, s) each h = h

    add_readings-IsUnfailed :
        (texts : List Text) (s : TextService os tsf) → IsUnfailed (add_readings os cp tsf texts s).0
    unfolding add_readings
    add_readings-IsUnfailed [] s = refl
    add_readings-IsUnfailed (text ∷ texts) s =
        follow_next-IsUnfailed (add_readings os cp tsf texts) (add_composing_and_char os tsf text s)
          (add_readings-IsUnfailed texts) (add_composing_and_char-IsUnfailed text s)

    -- A call on a window that is gone is a fault.
    gone-none :
        {A : Type 0} (f : CandidateWindow → A × CandidateWindow) (k : A → Handler os tsf Hresult)
        (p : Option CandidatePresenter) (s : TextService os tsf)
        → p ≡ some none
        → (follow k (with_window f p s)).0 ≡ none
    gone-none f k none s gone = refl
    gone-none f k (some none) s gone = refl
    gone-none f k (some (some w)) s gone = absurd (grind arith)

    clear_if-none :
        (result : Hresult) (p : Option CandidatePresenter) (s : TextService os tsf)
        → p ≡ some none
        → s.presenter ≡ some none
        → ((clear_if os cp tsf p >> pure result) s).0 ≡ none
    clear_if-none result none s e gone = absurd (grind arith)
    clear_if-none result (some p) s e gone =
        gone-none (λ (w : CandidateWindow). (tt, clear_list w)) (λ _. pure result) s.presenter s
          gone

    clear_shown-none :
        (result : Hresult) (s : TextService os tsf)
        → is_failed result ≡ false
        → s.presenter ≡ some none
        → (clear_shown os cp tsf result s).0 ≡ none
    clear_shown-none s_ok s h gone = clear_if-none s_ok s.presenter s gone gone
    clear_shown-none s_false s h gone = clear_if-none s_false s.presenter s gone gone
    clear_shown-none failed s h gone = absurd (grind arith)

    follow_clear-none :
        (r : Option Hresult × TextService os tsf)
        → IsUnfailed r.0
        → r.1.presenter ≡ some none
        → (follow (clear_shown os cp tsf) r).0 ≡ none
    follow_clear-none (none, s) h gone = refl
    follow_clear-none (some result, s) h gone = clear_shown-none result s h gone

    pub input_worker-none :
        (s : TextService os tsf)
        → s.presenter ≡ some none
        → (handle_composition_input_worker os cp tsf s).0 ≡ none
    unfolding handle_composition_input_worker
    input_worker-none s gone =
        let texts = (reading_of os cp tsf s.composer).0 in
        let t = (take_reading os cp tsf s).1 in
        follow_clear-none (add_readings os cp tsf texts t) (add_readings-IsUnfailed texts t) (
          add_readings-Keeps os tsf (λ (u : TextService os tsf). u.presenter ≡ some none)
            (λ u w k. k) cp texts t gone)
