-- ===== src/Service/Paired.antt =====
-- A candidate mode always has a presenter (tsf/SampleIME/KeyHandler.cpp).
use ohagey.Common.{◌≡◌, refl, Bool, true, false, Option, none, some, if◌then◌else◌, arith}
use ohagey.Client.Os.{Os}
use ohagey.Composer.{Composer, purge_virtual_key}
use ohagey.Keys.{is_none_mode}
use ohagey.Window.{CandidateWindow}
use ohagey.Service.{
  Tsf, CandidatePresenter, TextService, Handler, ask, tell, compose, fault, ask_composition, pure,
}
use ohagey.Service.Presenter.{with_window, on_window, set_presenter, end_candidate_list}
use ohagey.Service.Compositions.{
  delete_candidate_list, terminate_composition, end_composition, start_composition,
  remove_dummy_composition, handle_complete, handle_cancel,
}
use ohagey.Service.Handlers.{has_presenter}
use ohagey.Service.Ended.{
  Carries, delete_candidate_list-Keeps, end_composition-Keeps, start_composition-Keeps,
  remove_dummy_composition-Keeps, handle_complete-Keeps, handle_cancel-Keeps,
  terminate_composition-Keeps,
}
use ohagey.Service.Keeps.{Keeps}

module _ (os : Os) (tsf : Tsf) where
  -- A mode other than CANDIDATE_NONE has a presenter.
  abbrev pub IsPaired : TextService os tsf → Type 0
  IsPaired s = is_none_mode s.candidate_mode ≡ false → has_presenter s.presenter ≡ true

  abbrev pub Stays : {A : Type 0} → Handler os tsf A → Type 0
  Stays m = Keeps IsPaired m

  pub ask-Stays : {A : Type 0} (f : tsf.World → A × tsf.World) → Stays (ask os tsf f)
  ask-Stays f s h = h

  pub tell-Stays : (f : tsf.World → tsf.World) → Stays (tell os tsf f)
  tell-Stays f s h = h

  pub compose-Stays : (f : Composer os → Composer os) → Stays (compose os tsf f)
  compose-Stays f s h = h

  asked-Stays :
      {A : Type 0} (b : Bool) (f : tsf.World → A × tsf.World) (s : TextService os tsf)
      → IsPaired s
      → IsPaired (if b then ask os tsf f s else fault os tsf {A = A} s).1
  asked-Stays true f s h = h
  asked-Stays false f s h = h

  pub ask_composition-Stays :
      {A : Type 0} (f : tsf.World → A × tsf.World) → Stays (ask_composition os tsf f)
  ask_composition-Stays f s h = asked-Stays s.is_composing f s h

  with_window-Stays :
      {A : Type 0} (f : CandidateWindow → A × CandidateWindow) (p : Option CandidatePresenter)
      (s : TextService os tsf)
      → IsPaired s
      → IsPaired (with_window f p s).1
  with_window-Stays f none s h = h
  with_window-Stays f (some none) s h = h
  with_window-Stays f (some (some w)) s h = λ e. refl

  pub on_window-Stays :
      {A : Type 0} (f : CandidateWindow → A × CandidateWindow) → Stays (on_window f)
  on_window-Stays f s h = with_window-Stays f s.presenter s h

  put_presenter-Stays : (p : CandidatePresenter) → Stays (set_presenter (some p))
  put_presenter-Stays p s h = λ e. refl

  pub done-Stays : Stays (pure {os = os} {tsf = tsf} (tt {0}))
  done-Stays s h = h

  pub end_candidate_list-Stays : Stays (end_candidate_list os tsf)
  unfolding end_candidate_list
  end_candidate_list-Stays s h = λ e. refl

  carries : Carries IsPaired
  unfolding purge_virtual_key
  carries = record {
    at_world = λ s w h. h;
    at_purge = λ s h. h;
    at_end = λ s h e. refl;
    at_none = λ s h (e : true ≡ false). absurd (grind arith);
    at_composing = λ s b h. h;
  }

  pub delete_candidate_list-Stays : Stays (delete_candidate_list os tsf)
  delete_candidate_list-Stays = delete_candidate_list-Keeps os tsf IsPaired carries

  pub end_composition-Stays : Stays (end_composition os tsf)
  end_composition-Stays = end_composition-Keeps os tsf IsPaired carries

  pub start_composition-Stays : Stays (start_composition os tsf)
  start_composition-Stays = start_composition-Keeps os tsf IsPaired carries

  pub remove_dummy_composition-Stays : Stays (remove_dummy_composition os tsf)
  remove_dummy_composition-Stays = remove_dummy_composition-Keeps os tsf IsPaired carries

  pub handle_complete-Stays : Stays (handle_complete os tsf)
  handle_complete-Stays = handle_complete-Keeps os tsf IsPaired carries

  pub handle_cancel-Stays : Stays (handle_cancel os tsf)
  handle_cancel-Stays = handle_cancel-Keeps os tsf IsPaired carries

  terminate_composition-Stays : Stays (terminate_composition os tsf)
  terminate_composition-Stays = terminate_composition-Keeps os tsf IsPaired carries
