-- ===== src/Service/Idle.antt =====
-- Completing or cancelling a composition (tsf/SampleIME/KeyHandler.cpp, EndComposition.cpp) always
-- comes to an end that nothing is left of.
use ohagey.Common.{◌≡◌, refl, ap, ◌∙◌, Bool, true, false, Option, none, some, [], arith}
use ohagey.Client.Os.{Os}
use ohagey.Composer.{purge_virtual_key}
use ohagey.Keys.{is_none_mode}
use ohagey.Service.{
  Hresult, s_ok, Tsf, CandidatePresenter, TextService, Handler, ask, tell, pure, ◌>>◌,
}
use ohagey.Service.Presenter.{end_candidate_list}
use ohagey.Service.Compositions.{
  set_composing, end_list, delete_candidate_list, unless_ended, terminate_if, terminate_composition,
  when_granted, end_composition, clear_range, remove_dummy_if, remove_dummy_composition,
  handle_complete, handle_cancel,
}
use ohagey.Service.Handlers.{has_presenter}
use ohagey.Service.Paired.{IsPaired}
use ohagey.Service.Triples.{Holds, Triple, bind-Triple, weaken-Triple}

-- The presenter that a list leaves when it ends: its window is gone.
abbrev left_of : Option CandidatePresenter → Option CandidatePresenter
left_of none = none
left_of (some p) = some none

module _ (os : Os) (tsf : Tsf) (p : Option CandidatePresenter) where
  -- A mode with its presenter, which is p or what p leaves.
  abbrev pub IsReady : TextService os tsf → Type 0
  IsReady s = IsPaired os tsf s × left_of s.presenter ≡ left_of p

  -- No keys, no candidates, no mode, and no window.
  abbrev IsEmptied : TextService os tsf → Type 0
  IsEmptied s =
      (s.composer.keystrokes ≡ [] × s.composer.candidate_strings ≡ [])
      × (is_none_mode s.candidate_mode ≡ true × s.presenter ≡ left_of p)

  abbrev pub IsIdle : TextService os tsf → Type 0
  IsIdle s = IsEmptied s × s.is_composing ≡ false

  -- S_OK, and nothing left.
  abbrev pub IsDone : Hresult → TextService os tsf → Type 0
  IsDone result s = result ≡ s_ok × IsIdle s

  abbrev Ready : {A : Type 0} → A → TextService os tsf → Type 0
  Ready a s = IsReady s

  abbrev Emptied : {A : Type 0} → A → TextService os tsf → Type 0
  Emptied a s = IsEmptied s

  abbrev Idle : {A : Type 0} → A → TextService os tsf → Type 0
  Idle a s = IsIdle s

  left_twice : (q : Option CandidatePresenter) → left_of (left_of q) ≡ left_of q
  left_twice none = refl
  left_twice (some q) = refl

  emptied-IsReady : (s : TextService os tsf) → IsEmptied s → IsReady s
  emptied-IsReady s (keys, (mode, presenter)) = (
    (λ (e : is_none_mode s.candidate_mode ≡ false). absurd (grind arith)),
    ap left_of presenter ∙ left_twice p,
  )

  none_unless : (b : Bool) → (b ≡ false → false ≡ true) → b ≡ true
  none_unless true h = refl
  none_unless false h = h refl

  end_list-Emptied :
      (q : Option CandidatePresenter) (s : TextService os tsf)
      → s.presenter ≡ q
      → (s.composer.keystrokes ≡ [] × s.composer.candidate_strings ≡ [])
      → (is_none_mode s.candidate_mode ≡ false → has_presenter q ≡ true)
      → left_of q ≡ left_of p
      → Holds Emptied (end_list os tsf q s)
  unfolding end_candidate_list
  end_list-Emptied none s e keys paired left =
      (keys, (none_unless (is_none_mode s.candidate_mode) paired, e ∙ left))
  end_list-Emptied (some q) s e keys paired left = (keys, (refl, left))

  delete-Emptied : Triple IsReady (delete_candidate_list os tsf) Emptied
  unfolding delete_candidate_list purge_virtual_key
  delete-Emptied s (paired, left) =
      end_list-Emptied s.presenter
        (record s {
          composer = record s.composer {
            keystrokes = [];
            candidate_strings = [];
            display_reading = [];
          };
        })
        refl (refl, refl) paired left

  unless_ended-Emptied : (ended : Bool) → Triple IsEmptied (unless_ended os tsf ended) Emptied
  unless_ended-Emptied true s h = h
  unless_ended-Emptied false s h = delete-Emptied s (emptied-IsReady s h)

  abbrev ended_then : Bool → Handler os tsf (Unit {0})
  ended_then ended = unless_ended os tsf ended >> set_composing os tsf false

  terminate_if-Idle :
      (composing : Bool) (s : TextService os tsf)
      → s.is_composing ≡ composing
      → IsEmptied s
      → Holds Idle (terminate_if os tsf composing s)
  terminate_if-Idle false s e h = (h, e)
  terminate_if-Idle true s e h =
      bind-Triple IsEmptied Emptied Idle (ask os tsf tsf.end_composition) ended_then
        (λ (t : TextService os tsf) (k : IsEmptied t). k)
        (λ (ended : Bool).
          bind-Triple IsEmptied Emptied Idle (unless_ended os tsf ended)
            (λ _. set_composing os tsf false) (unless_ended-Emptied ended)
            (λ _ (t : TextService os tsf) (k : IsEmptied t). (k, refl)))
        (tell os tsf tsf.clear_attributes s).1 h

  terminate-Idle : Triple IsEmptied (terminate_composition os tsf) Idle
  unfolding terminate_composition
  terminate-Idle s h = terminate_if-Idle s.is_composing s refl h

  unless_ended-Ready : (ended : Bool) → Triple IsReady (unless_ended os tsf ended) Ready
  unless_ended-Ready true s h = h
  unless_ended-Ready false s h =
      weaken-Triple IsReady Emptied Ready (delete_candidate_list os tsf) delete-Emptied
        (λ _. emptied-IsReady) s h

  terminate_if-Ready : (composing : Bool) → Triple IsReady (terminate_if os tsf composing) Ready
  terminate_if-Ready false s h = h
  terminate_if-Ready true s h =
      bind-Triple IsReady Ready Ready
        (unless_ended os tsf (tsf.end_composition (tsf.clear_attributes s.world)).0)
        (λ _. set_composing os tsf false)
        (unless_ended-Ready (tsf.end_composition (tsf.clear_attributes s.world)).0)
        (λ _ (t : TextService os tsf) (k : IsReady t). k)
        (ask os tsf tsf.end_composition (tell os tsf tsf.clear_attributes s).1).1 h

  -- It ends with no list either way, or as it began.
  terminate-Ready : Triple IsReady (terminate_composition os tsf) Ready
  unfolding terminate_composition
  terminate-Ready s h = terminate_if-Ready s.is_composing s h

  when_granted-Ready : (now : Bool) → Triple IsReady (when_granted os tsf now) Ready
  when_granted-Ready true s h = terminate-Ready s h
  when_granted-Ready false s h = h

  pub end_composition-Ready : Triple IsReady (end_composition os tsf) Ready
  unfolding end_composition
  end_composition-Ready s h =
      when_granted-Ready (tsf.runs_now s.world).0 (ask os tsf tsf.runs_now s).1 h

  clear_range-Ready : (found : Bool) → Triple IsReady (clear_range os tsf found) Ready
  clear_range-Ready true s h = h
  clear_range-Ready false s h = h

  remove_dummy_if-Ready :
      (composing : Bool) → Triple IsReady (remove_dummy_if os tsf composing) Ready
  remove_dummy_if-Ready false s h = h
  remove_dummy_if-Ready true s h =
      clear_range-Ready (tsf.get_range s.world).0 (ask os tsf tsf.get_range s).1 h

  remove_dummy-Ready : Triple IsReady (remove_dummy_composition os tsf) Ready
  unfolding remove_dummy_composition
  remove_dummy-Ready s h = remove_dummy_if-Ready s.is_composing s h

  complete-IsDone : Triple IsReady (handle_complete os tsf) IsDone
  unfolding handle_complete
  complete-IsDone =
      bind-Triple IsReady Emptied IsDone (delete_candidate_list os tsf)
        (λ _. terminate_composition os tsf >> pure s_ok) delete-Emptied
        (λ _.
          bind-Triple IsEmptied Idle IsDone (terminate_composition os tsf) (λ _. pure s_ok)
            terminate-Idle (λ _ (t : TextService os tsf) (k : IsIdle t). (refl, k)))

  pub cancel-IsDone : Triple IsReady (handle_cancel os tsf) IsDone
  unfolding handle_cancel handle_complete
  cancel-IsDone =
      bind-Triple IsReady Ready IsDone (remove_dummy_composition os tsf)
        (λ _. handle_complete os tsf) remove_dummy-Ready (λ _. complete-IsDone)

-- Completing and cancelling a composition, from any state whose candidate mode has its presenter
-- and however the context answers, follow no null pointer, return S_OK, and leave no keystrokes,
-- no candidates, no candidate mode, no composition, and of the presenter what remains without its
-- window.
pub handle_complete-handle_cancel-IsDone :
    (os : Os) (tsf : Tsf) (s : TextService os tsf)
    → IsPaired os tsf s
    → Holds (IsDone os tsf s.presenter) (handle_complete os tsf s)
      × Holds (IsDone os tsf s.presenter) (handle_cancel os tsf s)
handle_complete-handle_cancel-IsDone os tsf s h =
    (complete-IsDone os tsf s.presenter s (h, refl), cancel-IsDone os tsf s.presenter s (h, refl))
