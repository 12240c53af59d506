-- ===== src/Service/Ended.antt =====
-- What ends a composition and its candidate list (tsf/SampleIME/KeyHandler.cpp, EndComposition.cpp)
-- keeps whatever its single steps keep.
use ohagey.Common.{Bool, true, false, Option, none, some}
use ohagey.Client.Os.{Os}
use ohagey.Composer.{purge_virtual_key}
use ohagey.Keys.{candidate_none}
use ohagey.Service.{
  Hresult, s_ok, Tsf, CandidatePresenter, TextService, Handler, ask, tell, compose, pure, ◌>>◌,
}
use ohagey.Service.Presenter.{end_candidate_list}
use ohagey.Service.Compositions.{
  set_mode, set_composing, end_list, end_list_of, delete_candidate_list, unless_ended, terminate_if,
  terminate_composition, when_granted, end_composition, composing_if, start_composition,
  clear_range, remove_dummy_if, remove_dummy_composition, handle_complete, handle_cancel,
}
use ohagey.Service.Keeps.{then-Keeps, Keeps, bind-Keeps, pure-Keeps}

-- Kept by a change of the context, by an emptied buffer, by the end of a list, and by the start and
-- the end of a composition.
pub record Carries {os : Os} {tsf : Tsf} (P : TextService os tsf → Type 0) : Type 0 where
  pub at_world : (s : TextService os tsf) (w : tsf.World) → P s → P (record s { world = w })
  pub at_purge :
      (s : TextService os tsf) → P s → P (record s { composer = purge_virtual_key s.composer })
  pub at_end : (s : TextService os tsf) → P s → P (record s { presenter = some none })
  pub at_none :
      (s : TextService os tsf)
      → P s
      → P (record s { candidate_mode = candidate_none; is_candidate_with_wildcard = false })
  pub at_composing : (s : TextService os tsf) (b : Bool) → P s → P (record s { is_composing = b })

module _ (os : Os) (tsf : Tsf) (P : TextService os tsf → Type 0) (carries : Carries P) where
  pub ask-Keeps : {A : Type 0} (f : tsf.World → A × tsf.World) → Keeps P (ask os tsf f)
  ask-Keeps f s h = carries.at_world s (f s.world).1 h

  pub tell-Keeps : (f : tsf.World → tsf.World) → Keeps P (tell os tsf f)
  tell-Keeps f s h = carries.at_world s (f s.world) h

  set_composing-Keeps : (b : Bool) → Keeps P (set_composing os tsf b)
  set_composing-Keeps b s h = carries.at_composing s b h

  done-Keeps : Keeps P (pure {os = os} {tsf = tsf} (tt {0}))
  done-Keeps s h = h

  purge-Keeps : Keeps P (compose os tsf purge_virtual_key)
  purge-Keeps s h = carries.at_purge s h

  end_candidate_list-Keeps : Keeps P (end_candidate_list os tsf)
  unfolding end_candidate_list
  end_candidate_list-Keeps s h =
      carries.at_end (record s { world = tsf.end_user_interface s.world })
        (carries.at_world s (tsf.end_user_interface s.world) h)

  none-Keeps : Keeps P (set_mode os tsf candidate_none false)
  none-Keeps s h = carries.at_none s h

  end_list-Keeps : (p : Option CandidatePresenter) → Keeps P (end_list os tsf p)
  end_list-Keeps none = done-Keeps
  end_list-Keeps (some p) =
      then-Keeps P (end_candidate_list os tsf) (set_mode os tsf candidate_none false)
        end_candidate_list-Keeps none-Keeps

  end_list_of-Keeps : Keeps P (end_list_of os tsf)
  end_list_of-Keeps s h = end_list-Keeps s.presenter s h

  pub delete_candidate_list-Keeps : Keeps P (delete_candidate_list os tsf)
  unfolding delete_candidate_list
  delete_candidate_list-Keeps =
      then-Keeps P (compose os tsf purge_virtual_key) (end_list_of os tsf) purge-Keeps
        end_list_of-Keeps

  unless_ended-Keeps : (ended : Bool) → Keeps P (unless_ended os tsf ended)
  unless_ended-Keeps true = done-Keeps
  unless_ended-Keeps false = delete_candidate_list-Keeps

  terminate_if-Keeps : (composing : Bool) → Keeps P (terminate_if os tsf composing)
  terminate_if-Keeps false s h = h
  terminate_if-Keeps true s h =
      bind-Keeps P (ask os tsf tsf.end_composition)
        (λ (ended : Bool). unless_ended os tsf ended >> set_composing os tsf false)
        (ask-Keeps tsf.end_composition)
        (λ (ended : Bool).
          then-Keeps P (unless_ended os tsf ended) (set_composing os tsf false)
            (unless_ended-Keeps ended) (set_composing-Keeps false))
        (tell os tsf tsf.clear_attributes s).1 (tell-Keeps tsf.clear_attributes s h)

  pub terminate_composition-Keeps : Keeps P (terminate_composition os tsf)
  unfolding terminate_composition
  terminate_composition-Keeps s h = terminate_if-Keeps s.is_composing s h

  when_granted-Keeps : (now : Bool) → Keeps P (when_granted os tsf now)
  when_granted-Keeps true = terminate_composition-Keeps
  when_granted-Keeps false = done-Keeps

  pub end_composition-Keeps : Keeps P (end_composition os tsf)
  unfolding end_composition
  end_composition-Keeps =
      bind-Keeps P (ask os tsf tsf.runs_now) (when_granted os tsf) (ask-Keeps tsf.runs_now)
        when_granted-Keeps

  composing_if-Keeps : (started : Bool) → Keeps P (composing_if os tsf started)
  composing_if-Keeps true = set_composing-Keeps true
  composing_if-Keeps false = done-Keeps

  pub start_composition-Keeps : Keeps P (start_composition os tsf)
  unfolding start_composition
  start_composition-Keeps =
      bind-Keeps P (ask os tsf tsf.start_composition) (composing_if os tsf)
        (ask-Keeps tsf.start_composition) composing_if-Keeps

  clear_range-Keeps : (found : Bool) → Keeps P (clear_range os tsf found)
  clear_range-Keeps true = tell-Keeps tsf.clear_text
  clear_range-Keeps false = done-Keeps

  remove_dummy_if-Keeps : (composing : Bool) → Keeps P (remove_dummy_if os tsf composing)
  remove_dummy_if-Keeps true =
      bind-Keeps P (ask os tsf tsf.get_range) (clear_range os tsf) (ask-Keeps tsf.get_range)
        clear_range-Keeps
  remove_dummy_if-Keeps false = done-Keeps

  pub remove_dummy_composition-Keeps : Keeps P (remove_dummy_composition os tsf)
  unfolding remove_dummy_composition
  remove_dummy_composition-Keeps s h = remove_dummy_if-Keeps s.is_composing s h

  abbrev finished : Handler os tsf Hresult
  finished = pure s_ok

  pub handle_complete-Keeps : Keeps P (handle_complete os tsf)
  unfolding handle_complete
  handle_complete-Keeps =
      then-Keeps P (delete_candidate_list os tsf) (terminate_composition os tsf >> finished)
        delete_candidate_list-Keeps
        (then-Keeps P (terminate_composition os tsf) finished terminate_composition-Keeps
          (pure-Keeps P s_ok))

  pub handle_cancel-Keeps : Keeps P (handle_cancel os tsf)
  unfolding handle_cancel
  handle_cancel-Keeps =
      then-Keeps P (remove_dummy_composition os tsf)
        (delete_candidate_list os tsf >> (terminate_composition os tsf >> finished))
        remove_dummy_composition-Keeps
        (then-Keeps P (delete_candidate_list os tsf) (terminate_composition os tsf >> finished)
          delete_candidate_list-Keeps
          (then-Keeps P (terminate_composition os tsf) finished terminate_composition-Keeps
            (pure-Keeps P s_ok)))
