-- ===== src/Service/Learned.antt =====
-- What is committed plain, without a candidate, is learned (tsf/SampleIME/KeyHandler.cpp,
-- _HandleCompositionFinalize).
use ohagey.Common.{
  take, [], ◌∷◌, ◌≡◌, refl, ap, Bool, true, false, not, ◌&&◌, Option, some, if◌then◌else◌, length,
  ◌==◌, arith,
}
use ohagey.Common.Text.{Text}
use ohagey.Wire.Text.{CodePage}
use ohagey.Client.Os.{Os, Client}
use ohagey.Composer.{Composer, purge_virtual_key, notify_committed}
use ohagey.Keys.{is_none_mode}
use ohagey.Service.{Hresult, s_ok, Tsf, CandidatePresenter, TextService, pure, ◌>>=◌, ◌>>◌}
use ohagey.Service.Presenter.{selected_string}
use ohagey.Service.Compositions.{end_composition, handle_cancel}
use ohagey.Service.Handlers.{
  copied, preceding_text_max, has_presenter, text_of, learn, learn_text, end_if_covered,
  end_if_found, finalize_at, finalize_text, finalize_candidate, handle_composition_finalize,
}
use ohagey.Service.Paired.{IsPaired}
use ohagey.Service.Ended.{Carries, end_composition-Keeps, handle_cancel-Keeps}
use ohagey.Service.Triples.{
  Holds, Triple, bind-Triple, and-Triple, known-Triple, known_composition-Triple,
}
use ohagey.Service.Idle.{IsReady, IsDone, end_composition-Ready, cancel-IsDone}

copied_filled :
    (text : Text)
    → (length text == 0) ≡ false
    → (length (take preceding_text_max text) == 0) ≡ false
copied_filled [] e = e
copied_filled (c ∷ cs) e = ground arith

-- What the context answers when there is a selection inside the text that is composed.
pub record Answers (tsf : Tsf) (text : Text) : Type 0 where
  pub has_selection : (w : tsf.World) → (tsf.get_selection w).0 ≡ (s_ok, true)
  pub has_range : (w : tsf.World) → (tsf.get_range w).0 ≡ true
  pub is_covered : (w : tsf.World) → (tsf.is_range_covered w).0 ≡ true
  pub has_text : (w : tsf.World) → (tsf.get_text w).0 ≡ some text

module _ (os : Os) (cp : CodePage) (tsf : Tsf) (text : Text) (answers : Answers tsf text)
    (p : Option CandidatePresenter) (c : Composer os) where
  -- The composition goes on with the keys that were typed.
  abbrev Typed : TextService os tsf → Type 0
  Typed s = (IsReady os tsf p s × s.is_composing ≡ true) × s.composer ≡ c

  abbrev learned : Client os
  learned =
      (notify_committed os cp (take preceding_text_max text) (not tsf.is_secure_mode) c).client

  abbrev Learned : TextService os tsf → Type 0
  Learned s = s.composer.client ≡ learned

  carries : Carries Learned
  unfolding purge_virtual_key
  carries = record {
    at_world = λ s w h. h;
    at_purge = λ s h. h;
    at_end = λ s h. h;
    at_none = λ s h. h;
    at_composing = λ s b h. h;
  }

  abbrev Told : TextService os tsf → Type 0
  Told s = IsReady os tsf p s × Learned s

  abbrev Settled : Hresult → TextService os tsf → Type 0
  Settled result s = IsDone os tsf p result s × Learned s

  learn_if-Told :
      (b : Bool)
      → b ≡ false
      → Triple Typed
          (if b then pure tt else learn os cp tsf (take preceding_text_max text))
          (λ _. Told)
  learn_if-Told true h s k = absurd (grind arith)
  learn_if-Told false h s ((ready, composing), e) = (
    ready,
    ap
        (λ (d : Composer os).
          (notify_committed os cp (take preceding_text_max text) (not tsf.is_secure_mode) d).client)
        e,
  )

  end-Told : Triple Told (end_composition os tsf) (λ _. Told)
  end-Told =
      and-Triple (IsReady os tsf p) Learned (λ _. IsReady os tsf p) (end_composition os tsf)
        (end_composition-Ready os tsf p) (end_composition-Keeps os tsf Learned carries)

  cancel-Settled : Triple Told (handle_cancel os tsf) Settled
  cancel-Settled =
      and-Triple (IsReady os tsf p) Learned (IsDone os tsf p) (handle_cancel os tsf)
        (cancel-IsDone os tsf p) (handle_cancel-Keeps os tsf Learned carries)

  carried : (s : TextService os tsf) (w : tsf.World) → Typed s → Typed (record s { world = w })
  carried s w h = h

  module _ (filled : (length text == 0) ≡ false) where
    covered-Told : Triple Typed (end_if_covered os cp tsf true) (λ _. Told)
    covered-Told =
        known-Triple Typed (λ _. Told) tsf.get_text (some text)
          (λ (t : Option Text). learn_text os cp tsf (copied t) >> end_composition os tsf)
          answers.has_text carried
          (bind-Triple Typed (λ _. Told) (λ _. Told) (learn_text os cp tsf (copied (some text)))
            (λ _. end_composition os tsf)
            (learn_if-Told (length (take preceding_text_max text) == 0) (copied_filled text filled))
            (λ _. end-Told))

    found-Told : Triple Typed (end_if_found os cp tsf true) (λ _. Told)
    found-Told =
        known-Triple Typed (λ _. Told) tsf.is_range_covered true (end_if_covered os cp tsf)
          answers.is_covered carried covered-Told

    at-Settled : Triple Typed (finalize_at os cp tsf (s_ok, true)) Settled
    at-Settled =
        known_composition-Triple Typed Settled tsf.get_range true
          (λ (found : Bool). end_if_found os cp tsf found >> handle_cancel os tsf) answers.has_range
          carried (λ s (h : Typed s). h.0.1)
          (bind-Triple Typed (λ _. Told) Settled (end_if_found os cp tsf true)
            (λ _. handle_cancel os tsf) found-Told (λ _. cancel-Settled))

    text-Settled : Triple Typed (finalize_text os cp tsf true) Settled
    text-Settled =
        known-Triple Typed Settled tsf.get_selection (s_ok, true) (finalize_at os cp tsf)
          answers.has_selection carried at-Settled

    finalize_if-Settled :
        (list with_list composing : Bool) (s : TextService os tsf)
        → with_list ≡ false
        → composing ≡ true
        → Typed s
        → Holds Settled (
            (if with_list
                then (selected_string >>= λ (t : Option Text).
                    finalize_candidate os cp tsf (text_of t))
                else finalize_text os cp tsf composing)
              s)
    finalize_if-Settled list true composing s h e typed = absurd (grind arith)
    finalize_if-Settled list false true s h composing typed = text-Settled s typed
    finalize_if-Settled list false false s h composing typed = absurd (grind arith)

-- Where the selection is inside the text that is composed and that text is not empty, a composition
-- that is committed without its candidates comes to S_OK, follows no null pointer, leaves nothing
-- of the composition, and leaves the engine's client as it is after the engine is told the first
-- 30 characters of the text, and no more, with the reading of the keys that were typed.
pub plain_commit-learn :
    (os : Os) (cp : CodePage) (tsf : Tsf) (list : Bool) (text : Text) (s : TextService os tsf)
    → Answers tsf text
    → (length text == 0) ≡ false
    → IsPaired os tsf s
    → s.is_composing ≡ true
    → (list && has_presenter s.presenter && not (is_none_mode s.candidate_mode)) ≡ false
    → Holds
        (λ (result : Hresult) (t : TextService os tsf).
          IsDone os tsf s.presenter result t
          × t.composer.client
            ≡ (notify_committed os cp (take 30 text) (not tsf.is_secure_mode) s.composer).client)
        (handle_composition_finalize os cp tsf list s)
unfolding handle_composition_finalize
plain_commit-learn os cp tsf list text s answers filled paired composing plain =
    finalize_if-Settled os cp tsf text answers s.presenter s.composer filled list
      (list && has_presenter s.presenter && not (is_none_mode s.candidate_mode)) s.is_composing s
      plain composing (((paired, refl), composing), refl)
