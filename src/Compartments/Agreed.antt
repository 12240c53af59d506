-- ===== src/Compartments/Agreed.antt =====
-- The flags of the compartments agree with the word of the conversion mode after a callback
-- (tsf/SampleIME/CompositionProcessorEngine.cpp), and then no callback changes them.
use mathlib.Core.Path.{subst}
use ohagey.Common.{◌≡◌, refl, sym, ap, ◌∙◌, Bool, true, false, not, Option, some, if◌then◌else◌}
use ohagey.Compartments.{
  Conversion, get_compartment_bool, get_compartment_dword, set_compartment, Compartments, same_mode,
  bring, bring_all, conversion_mode_compartment_updated, set_if_changed, private_mode, private_with,
  open_with, private_compartments_updated, open_mode, keyboard_open_compartment_updated,
  CompartmentGuid, double_single_byte_guid, punctuation_guid, input_mode_conversion,
  input_mode_sentence, keyboard_openclose, another_guid, compartment_callback,
}
use ohagey.Compartments.Words.{
  get-set_dword, word-≡, same_mode-≡, brought-same, bit_from-read, set_if_changed-same, bring_three,
}

-- Every compartment can be read, and the three flags are the bits of the word m.
pub record IsAgreed (m : Conversion) (s : Compartments) : Type 0 where
  pub is_set : s.has_conversion ≡ true
  pub mode : get_compartment_dword s.conversion ≡ some m
  pub opened : get_compartment_bool s.keyboard_open ≡ some m.native
  pub double : get_compartment_bool s.double_single_byte ≡ some m.full_shape
  pub marks : get_compartment_bool s.punctuation ≡ some m.symbol

-- A word that is written reads as it was written; one that is the same is left.
set_if-IsAgreed :
    (b : Bool) (mode m : Conversion) (s : Compartments)
    → same_mode mode m ≡ b
    → s.has_conversion ≡ true
    → get_compartment_dword s.conversion ≡ some m
    → get_compartment_bool s.keyboard_open ≡ some mode.native
    → get_compartment_bool s.double_single_byte ≡ some mode.full_shape
    → get_compartment_bool s.punctuation ≡ some mode.symbol
    → IsAgreed mode (if b then s else record s { conversion = set_compartment mode s.conversion })
set_if-IsAgreed true mode m s h set e opened double marks = record {
  is_set = set;
  mode = e ∙ ap (λ (x : Conversion). some x) (sym (same_mode-≡ mode m h));
  opened = opened;
  double = double;
  marks = marks;
}
set_if-IsAgreed false mode m s h set e opened double marks = record {
  is_set = set;
  mode = get-set_dword s.conversion m mode e;
  opened = opened;
  double = double;
  marks = marks;
}

-- What a callback does when the word can be read.
private_lem :
    (m : Conversion) (s : Compartments) (b : Bool) (o : Option Conversion)
    → b ≡ true
    → o ≡ some m
    → (if not b then s else private_with o s) ≡ set_if_changed (private_mode s m) m s
private_lem m s b o set e = cc

open_lem :
    (m : Conversion) (s : Compartments) (b : Bool) (o : Option Conversion)
    → b ≡ true
    → o ≡ some m
    → (if not b then s else open_with o s) ≡ set_if_changed (open_mode s m) m s
open_lem m s b o set e = cc

-- What the word and the flags are before a callback, for the word `mode` after it.
pub record IsTold (m mode : Conversion) (s : Compartments) : Type 0 where
  pub is_set : s.has_conversion ≡ true
  pub read : get_compartment_dword s.conversion ≡ some m
  pub opened : get_compartment_bool s.keyboard_open ≡ some mode.native
  pub double : get_compartment_bool s.double_single_byte ≡ some mode.full_shape
  pub marks : get_compartment_bool s.punctuation ≡ some mode.symbol

changed-IsAgreed :
    (m mode : Conversion) (s : Compartments)
    → IsTold m mode s
    → IsAgreed mode (set_if_changed mode m s)
changed-IsAgreed m mode s h =
    set_if-IsAgreed (same_mode mode m) mode m s refl h.is_set h.read h.opened h.double h.marks

private-IsAgreed :
    (m mode : Conversion) (s : Compartments)
    → private_mode s m ≡ mode
    → IsTold m mode s
    → IsAgreed mode (private_compartments_updated s)
unfolding private_compartments_updated
private-IsAgreed m mode s k h =
    subst (IsAgreed mode)
      (sym (
        private_lem m s s.has_conversion (get_compartment_dword s.conversion) h.is_set h.read
        ∙ ap (λ (x : Conversion). set_if_changed x m s) k))
      (changed-IsAgreed m mode s h)

open-IsAgreed :
    (m mode : Conversion) (s : Compartments)
    → open_mode s m ≡ mode
    → IsTold m mode s
    → IsAgreed mode (keyboard_open_compartment_updated s)
unfolding keyboard_open_compartment_updated
open-IsAgreed m mode s k h =
    subst (IsAgreed mode)
      (sym (
        open_lem m s s.has_conversion (get_compartment_dword s.conversion) h.is_set h.read
        ∙ ap (λ (x : Conversion). set_if_changed x m s) k))
      (changed-IsAgreed m mode s h)

-- The word reads the flags that it is brought to.
private_mode-read :
    (m mode : Conversion) (s : Compartments)
    → IsTold m mode s
    → m.native ≡ mode.native
    → m.others ≡ mode.others
    → private_mode s m ≡ mode
private_mode-read m mode s h natives others =
    word-≡ m.native mode.native (private_mode s m).full_shape mode.full_shape
      (private_mode s m).symbol mode.symbol m.others mode.others natives
      (bit_from-read (get_compartment_bool s.double_single_byte) mode.full_shape m.full_shape
        h.double)
      (bit_from-read (get_compartment_bool s.punctuation) mode.symbol m.symbol h.marks) others

open_mode-read :
    (m mode : Conversion) (s : Compartments)
    → IsTold m mode s
    → m.full_shape ≡ mode.full_shape
    → m.symbol ≡ mode.symbol
    → m.others ≡ mode.others
    → open_mode s m ≡ mode
open_mode-read m mode s h shapes symbols others =
    word-≡ (open_mode s m).native mode.native m.full_shape mode.full_shape m.symbol mode.symbol
      m.others mode.others
      (bit_from-read (get_compartment_bool s.keyboard_open) mode.native m.native h.opened) shapes
      symbols others

pub private_told :
    (m mode : Conversion) (s : Compartments)
    → IsTold m mode s
    → m.native ≡ mode.native
    → m.others ≡ mode.others
    → IsAgreed mode (private_compartments_updated s)
private_told m mode s h natives others =
    private-IsAgreed m mode s (private_mode-read m mode s h natives others) h

pub open_told :
    (m mode : Conversion) (s : Compartments)
    → IsTold m mode s
    → m.full_shape ≡ mode.full_shape
    → m.symbol ≡ mode.symbol
    → m.others ≡ mode.others
    → IsAgreed mode (keyboard_open_compartment_updated s)
open_told m mode s h shapes symbols others =
    open-IsAgreed m mode s (open_mode-read m mode s h shapes symbols others) h

agreed-IsTold : (m : Conversion) (s : Compartments) → IsAgreed m s → IsTold m m s
agreed-IsTold m s h = record {
  is_set = h.is_set;
  read = h.mode;
  opened = h.opened;
  double = h.double;
  marks = h.marks;
}

private-same :
    (m : Conversion) (s : Compartments) → IsAgreed m s → private_compartments_updated s ≡ s
unfolding private_compartments_updated
private-same m s h =
    private_lem m s s.has_conversion (get_compartment_dword s.conversion) h.is_set h.mode
    ∙ ap (λ (x : Conversion). set_if_changed x m s)
        (private_mode-read m m s (agreed-IsTold m s h) refl refl)
    ∙ set_if_changed-same m s

open-same :
    (m : Conversion) (s : Compartments) → IsAgreed m s → keyboard_open_compartment_updated s ≡ s
unfolding keyboard_open_compartment_updated
open-same m s h =
    open_lem m s s.has_conversion (get_compartment_dword s.conversion) h.is_set h.mode
    ∙ ap (λ (x : Conversion). set_if_changed x m s)
        (open_mode-read m m s (agreed-IsTold m s h) refl refl refl)
    ∙ set_if_changed-same m s

pub bring_lem :
    (m : Conversion) (s : Compartments) (b : Bool) (o : Option Conversion)
    → b ≡ true
    → o ≡ some m
    → (if not b then s else bring_all o s) ≡ bring_all (some m) s
bring_lem m s b o set e = cc

conversion-same :
    (m : Conversion) (s : Compartments) → IsAgreed m s → conversion_mode_compartment_updated s ≡ s
unfolding conversion_mode_compartment_updated
conversion-same m s h =
    bring_lem m s s.has_conversion (get_compartment_dword s.conversion) h.is_set h.mode
    ∙ bring_three (bring m.full_shape s.double_single_byte) (bring m.symbol s.punctuation)
        (bring m.native s.keyboard_open) s
        (brought-same m.full_shape (get_compartment_bool s.double_single_byte) s.double_single_byte
          h.double)
        (brought-same m.symbol (get_compartment_bool s.punctuation) s.punctuation h.marks)
        (brought-same m.native (get_compartment_bool s.keyboard_open) s.keyboard_open h.opened)

pub callback-same :
    (m : Conversion) (g : CompartmentGuid) (s : Compartments)
    → IsAgreed m s
    → compartment_callback g s ≡ s
unfolding compartment_callback
callback-same m double_single_byte_guid s h = private-same m s h
callback-same m punctuation_guid s h = private-same m s h
callback-same m input_mode_conversion s h = conversion-same m s h
callback-same m input_mode_sentence s h = conversion-same m s h
callback-same m keyboard_openclose s h = open-same m s h
callback-same m another_guid s h = refl
