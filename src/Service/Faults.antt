-- ===== src/Service/Faults.antt =====
-- The first key that is typed after a candidate list (tsf/SampleIME/KeyHandler.cpp,
-- _HandleCompositionInput): it follows the window that is gone.
use mathlib.Core.Path.{subst}
use ohagey.Common.{
  ℕ, ◌≡◌, refl, sym, Bool, true, false, not, ◌&&◌, Option, none, some, if◌then◌else◌, arith,
}
use ohagey.Wire.Text.{CodePage}
use ohagey.Client.Os.{Os}
use ohagey.Composer.{Composer, add_virtual_key}
use ohagey.Keys.{is_none_mode, is_incremental}
use ohagey.Service.{
  Hresult, s_ok, Tsf, CandidatePresenter, TextService, Handler, ask, fault, compose,
  ask_composition, follow, pure, ◌>>=◌, ◌>>◌,
}
use ohagey.Service.Compositions.{
  composing_if, start_composition, handle_complete, handle_cancel, set_composing,
}
use ohagey.Service.Handlers.{
  with_service, has_presenter, handle_composition_finalize, handle_composition_input_worker,
  start_unless, input_key, covered_if, input_at, handle_composition_input,
}
use ohagey.Service.Paired.{IsPaired}
use ohagey.Service.Triples.{Holds}
use ohagey.Service.Idle.{IsIdle, IsDone, handle_complete-handle_cancel-IsDone}
use ohagey.Service.Stale.{input_worker-none}

-- What the context answers when a composition can start and the selection is inside it.
pub record Starts (tsf : Tsf) : Type 0 where
  pub starts : (w : tsf.World) → (tsf.start_composition w).0 ≡ true
  pub has_selection : (w : tsf.World) → (tsf.get_selection w).0 ≡ (s_ok, true)
  pub has_range : (w : tsf.World) → (tsf.get_range w).0 ≡ true
  pub is_covered : (w : tsf.World) → (tsf.is_range_covered w).0 ≡ true

module _ (os : Os) (tsf : Tsf) where
  -- Composing, with a presenter whose window is gone.
  abbrev IsGone : TextService os tsf → Type 0
  IsGone s = s.presenter ≡ some none × s.is_composing ≡ true

  -- No result from such a state.
  abbrev Faults : {A : Type 0} → Handler os tsf A → Type 0
  Faults m = (s : TextService os tsf) → IsGone s → (m s).0 ≡ none

  follow-none :
      {A B : Type 0} (k : A → Handler os tsf B) (r : Option A × TextService os tsf)
      → r.0 ≡ none
      → (follow k r).0 ≡ none
  follow-none k (none, s) h = refl
  follow-none k (some a, s) h = absurd (grind arith)

  known-Faults :
      {A B : Type 0} (f : tsf.World → A × tsf.World) (x : A) (k : A → Handler os tsf B)
      → ((w : tsf.World) → (f w).0 ≡ x)
      → Faults (k x)
      → Faults (ask os tsf f >>= k)
  known-Faults f x k answer h s gone =
      subst (λ a. (k a (ask os tsf f s).1).0 ≡ none) (sym (answer s.world))
        (h (ask os tsf f s).1 gone)

  known_composition-Faults :
      {A B : Type 0} (f : tsf.World → A × tsf.World) (x : A) (k : A → Handler os tsf B)
      → ((w : tsf.World) → (f w).0 ≡ x)
      → Faults (k x)
      → Faults (ask_composition os tsf f >>= k)
  known_composition-Faults f x k answer h s gone =
      subst (λ (b : Bool). (follow k (if b then ask os tsf f s else fault os tsf s)).0 ≡ none)
        (sym gone.1) (known-Faults f x k answer h s gone)

  and_not : (b : Bool) → (b && not true) ≡ false
  and_not true = refl
  and_not false = refl

  module _ (cp : CodePage) (starts : Starts tsf) (wch : ℕ) where
    input_key-Faults : Faults (input_key os cp tsf wch true)
    input_key-Faults s gone =
        let t = (compose os tsf (λ (c : Composer os). (add_virtual_key wch c).1) s).1 in
        follow-none (λ _. pure s_ok) (handle_composition_input_worker os cp tsf t)
          (input_worker-none os tsf cp t gone.0)

    covered-Faults : Faults (covered_if os cp tsf true >>= input_key os cp tsf wch)
    covered-Faults =
        known-Faults tsf.is_range_covered true (input_key os cp tsf wch) starts.is_covered
          input_key-Faults

    input_at-Faults : Faults (input_at os cp tsf wch (s_ok, true))
    input_at-Faults =
        known_composition-Faults tsf.get_range true
          (λ (found : Bool). covered_if os cp tsf found >>= input_key os cp tsf wch)
          starts.has_range covered-Faults

    selected-Faults : Faults (ask os tsf tsf.get_selection >>= input_at os cp tsf wch)
    selected-Faults =
        known-Faults tsf.get_selection (s_ok, true) (input_at os cp tsf wch) starts.has_selection
          input_at-Faults

    abbrev next : Handler os tsf Hresult
    next = ask os tsf tsf.get_selection >>= input_at os cp tsf wch

    abbrev started : TextService os tsf → Handler os tsf (Unit {0})
    started s = start_unless os cp tsf s.is_composing

    -- From a state without a composition, the key starts one.
    start-none :
        (composing : Bool) (s : TextService os tsf)
        → composing ≡ false
        → s.presenter ≡ some none
        → ((start_unless os cp tsf composing >> next) s).0 ≡ none
    unfolding start_composition
    start-none true s idle gone = absurd (grind arith)
    start-none false s idle gone =
        let t = (ask os tsf tsf.start_composition s).1 in
        subst (λ (b : Bool). (follow (λ _. next) (composing_if os tsf b t)).0 ≡ none)
          (sym (starts.starts s.world))
          (selected-Faults (set_composing os tsf true t).1 (gone, refl))

    -- Without a mode there is no list to settle first.
    settle-none :
        (settles : Bool) (s : TextService os tsf)
        → settles ≡ false
        → s.is_composing ≡ false
        → s.presenter ≡ some none
        → (((if settles then (handle_composition_finalize os cp tsf false >> pure tt) else pure tt)
              >> (with_service os cp tsf started >> next))
            s).0
          ≡ none
    settle-none true s h idle gone = absurd (grind arith)
    settle-none false s h idle gone = start-none s.is_composing s idle gone

    no_list : (a b c : Bool) → c ≡ true → (a && not b && not c) ≡ false
    no_list a b true h = and_not (a && not b)
    no_list a b false h = absurd (grind arith)

    input-none :
        (p : CandidatePresenter) (s : TextService os tsf)
        → IsIdle os tsf (some p) s
        → (handle_composition_input os cp tsf wch s).0 ≡ none
    unfolding handle_composition_input
    input-none p s ((_, (mode, gone)), idle) =
        settle-none
          (has_presenter s.presenter
            && not (is_incremental s.candidate_mode)
            && not (is_none_mode s.candidate_mode))
          s
          (no_list (has_presenter s.presenter) (is_incremental s.candidate_mode)
            (is_none_mode s.candidate_mode) mode)
          idle gone

  done-IsIdle :
      (p : Option CandidatePresenter) (r : Option Hresult × TextService os tsf)
      → Holds (IsDone os tsf p) r
      → IsIdle os tsf p r.1
  done-IsIdle p (none, s) h = absurd h
  done-IsIdle p (some result, s) (_, h) = h

-- From a state with a presenter whose candidate mode has one, whether the composition is completed
-- or cancelled, the key that is typed next follows a null pointer and has no result, where a
-- composition can start and the selection is inside it.
pub next_key-none :
    (os : Os) (cp : CodePage) (tsf : Tsf) (wch : ℕ) (p : CandidatePresenter)
    (s : TextService os tsf)
    → Starts tsf
    → IsPaired os tsf s
    → s.presenter ≡ some p
    → ((handle_composition_input os cp tsf wch (handle_complete os tsf s).1).0 ≡ none)
      × ((handle_composition_input os cp tsf wch (handle_cancel os tsf s).1).0 ≡ none)
next_key-none os cp tsf wch p s starts paired shown =
    let (completed, cancelled) =
      subst
        (λ (q : Option CandidatePresenter).
          Holds (IsDone os tsf q) (handle_complete os tsf s)
          × Holds (IsDone os tsf q) (handle_cancel os tsf s))
        shown (handle_complete-handle_cancel-IsDone os tsf s paired) in
    (
      input-none os tsf cp starts wch p (handle_complete os tsf s).1
          (done-IsIdle os tsf (some p) (handle_complete os tsf s) completed),
      input-none os tsf cp starts wch p (handle_cancel os tsf s).1
          (done-IsIdle os tsf (some p) (handle_cancel os tsf s) cancelled),
    )
