-- ===== src/Service.antt =====
-- The state of the text service (tsf/SampleIME/SampleIME.h) and the calls of the Text Services
-- Framework that its key handler makes.
pub mod Presenter
pub mod Compositions
pub mod Handlers
pub mod Candidates
pub mod Session
pub mod Element
pub mod Keeps
pub mod Ended
pub mod Paired
pub mod Worlds
pub mod Written
pub mod Steps
pub mod Typed
pub mod Listed
pub mod Chosen
pub mod Sessions
pub mod Triples
pub mod Idle
pub mod Stale
pub mod Faults
pub mod Learned
mod Tests
use ohagey.Common.{
  ℕ, Bool, true, false, not, ◌&&◌, ◌||◌, Option, none, some, List, [], ◌∷◌, ◌==◌, if◌then◌else◌,
}
use ohagey.Common.Text.{Text}
use ohagey.Client.Os.{Os}
use ohagey.Composer.{Composer}
use ohagey.Keys.{CandidateMode}
use ohagey.Window.{CandidateWindow}

-- S_OK, another success, or a failure.
pub data Hresult : Type 0 where
  s_ok : Hresult
  s_false : Hresult
  failed : Hresult

abbrev pub is_failed : Hresult → Bool
is_failed failed = true
is_failed _ = false

abbrev pub is_s_ok : Hresult → Bool
is_s_ok s_ok = true
is_s_ok _ = false

-- The calls that the handlers make on the context, the composition and its ranges, and on the user
-- interface. A Boolean says whether the call succeeded.
pub record Tsf : Type 1 where
  pub World : Type 0
  -- GetSelection: its result, and whether it fetched one selection.
  pub get_selection : World → (Hresult × Bool) × World
  -- GetRange of the composition, and whether its ends cover the selection.
  pub get_range : World → Bool × World
  pub is_range_covered : World → Bool × World
  -- The whole text of the composition's range, of which GetText copies as much as fits.
  pub get_text : World → Option Text × World
  -- The text before the composition: Clone, Collapse, ShiftStart back by so many characters, and
  -- what is then in the range.
  pub text_before : ℕ → World → Option Text × World
  -- The composition that StartComposition gives; EndComposition.
  pub start_composition : World → Bool × World
  pub end_composition : World → Bool × World
  -- Whether a session that was asked for runs at once.
  pub runs_now : World → Bool × World
  -- SetText of the composition's range to nothing; the display attributes are cleared.
  pub clear_text : World → World
  pub clear_attributes : World → World
  -- GetStart and ShiftEndToRange, a range with GUID_PROP_COMPOSING, InsertTextAtSelection.
  pub start_to_selection : World → Bool × World
  pub find_composing_range : World → Bool × World
  pub insert_at_selection : Text → World → Bool × World
  -- SetText, the language and display attributes, and the caret after the text.
  pub set_range_text : Text → World → World
  pub set_language : World → World
  pub set_attributes : World → World
  pub caret_after : World → World
  -- SetText on the selection, and SetSelection.
  pub set_selection_text : Text → World → Hresult × World
  pub set_selection : World → World
  -- GetDocumentMgr, the layout sink, the window, and the user interface element.
  pub get_document_mgr : World → Bool × World
  pub advise_layout : World → Bool × World
  pub create_window : World → Bool × World
  pub show_window : World → World
  pub end_user_interface : World → World
  -- _IsSecureMode.
  pub is_secure_mode : Bool

-- `_pCandidateListUIPresenter`, by its `_pCandidateWnd`, which may be null.
abbrev pub CandidatePresenter : Type 0
CandidatePresenter = Option CandidateWindow

module _ (os : Os) (tsf : Tsf) where
  -- `_pCompositionProcessorEngine`, `_pCandidateListUIPresenter`, `_candidateMode`,
  -- `_isCandidateWithWildcard`, and whether `_pComposition` is set.
  pub record TextService : Type 0 where
    pub composer : Composer os
    pub presenter : Option CandidatePresenter
    pub candidate_mode : CandidateMode
    pub is_candidate_with_wildcard : Bool
    pub is_composing : Bool
    pub world : tsf.World

  -- A result, or `none` for a fault: a null pointer that is followed.
  abbrev pub Handler : Type 0 → Type 0
  Handler A = TextService → Option A × TextService

  abbrev pub ask : {A : Type 0} → (tsf.World → A × tsf.World) → Handler A
  ask f s = let (a, w) = f s.world in (some a, record s { world = w })

  abbrev pub tell : (tsf.World → tsf.World) → Handler (Unit {0})
  tell f s = (some tt, record s { world = f s.world })

  abbrev pub compose : (Composer os → Composer os) → Handler (Unit {0})
  compose f s = (some tt, record s { composer = f s.composer })

  abbrev pub fault : {A : Type 0} → Handler A
  fault s = (none, s)

  -- A call through `_pComposition`.
  abbrev pub ask_composition : {A : Type 0} → (tsf.World → A × tsf.World) → Handler A
  ask_composition f s = if s.is_composing then ask f s else fault s

module _ {os : Os} {tsf : Tsf} {A B : Type 0} where
  abbrev pub follow :
      (A → Handler os tsf B) → Option A × TextService os tsf → Option B × TextService os tsf
  follow f (none, s) = (none, s)
  follow f (some a, s) = f a s

  infixl 5 ◌>>=◌ ◌>>◌
  abbrev pub ◌>>=◌ : Handler os tsf A → (A → Handler os tsf B) → Handler os tsf B
  ◌>>=◌ m f s = follow f (m s)

  abbrev pub ◌>>◌ : Handler os tsf A → Handler os tsf B → Handler os tsf B
  m >> k = m >>= λ _. k

abbrev pub pure : {os : Os} {tsf : Tsf} {A : Type 0} → A → Handler os tsf A
pure a s = (some a, s)
