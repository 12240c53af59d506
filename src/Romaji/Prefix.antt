-- ===== src/Romaji/Prefix.antt =====
-- Beginnings of spellings: `IsPrefixOfRule` against `Lookup` (tsf/Ohagey/RomajiKana.cpp).
use mathlib.Core.Path.{subst}
use ohagey.Common.{
  ◌≤◌, ◌<◌, ◌≡◌, refl, sym, ap, inl, inr, true, false, not, some, List, [], ◌∷◌, ◌++◌, arith, leb,
  length, length-append, every, pop_back, Bool-cases, pop_back-cases,
}
use ohagey.Common.Text.{Text, text_eq, text_eq→eq, starts_with}
use ohagey.Romaji.Rules.{Rule, rules, lookup_in, lookup, grows_in, is_prefix_of_rule}
use ohagey.Romaji.Table.{lookup_in_rule}

starts_with-append : (q t : Text) → starts_with (q ++ t) q ≡ true
starts_with-append [] t = starts_with_nil t
  where
    starts_with_nil : (t : Text) → starts_with t [] ≡ true
    starts_with_nil [] = refl
    starts_with_nil (x ∷ t) = refl
starts_with-append (x ∷ q) t = ground (arith, starts_with-append q t)

starts_with-drop : (w q t : Text) → starts_with w (q ++ t) ≡ true → starts_with w q ≡ true
starts_with-drop [] [] t h = refl
starts_with-drop (x ∷ w) [] t h = refl
starts_with-drop [] (y ∷ q) t h = cc
starts_with-drop (x ∷ w) (y ∷ q) t h = ground (arith, starts_with-drop w q t)

grows_in-drop : (rs : List Rule) (q t : Text) → grows_in rs (q ++ t) ≡ true → grows_in rs q ≡ true
unfolding grows_in
grows_in-drop [] q t h = h
grows_in-drop (r ∷ rs) q t h =
    ground (arith, grows_in-drop rs q t, starts_with-drop r.romaji q t, length-append q t)

-- What begins the beginning of a spelling begins a spelling.
pub is_prefix_of_rule-drop :
    (q t : Text) → is_prefix_of_rule (q ++ t) ≡ true → is_prefix_of_rule q ≡ true
unfolding is_prefix_of_rule
is_prefix_of_rule-drop q t h = ground (arith, length-append q t, grows_in-drop rules q t)

grows_in_rule :
    (rs : List Rule) (q t : Text) {kana : Text}
    → 0 < length t
    → lookup_in rs (q ++ t) ≡ some kana
    → grows_in rs q ≡ true
unfolding lookup_in grows_in
grows_in_rule [] q t h e = cc
grows_in_rule (r ∷ rs) q t {kana} h e = elim (Bool-cases (text_eq (q ++ t) r.romaji)) [
  | inl same ↦
      let whole = text_eq→eq (q ++ t) r.romaji same in
      let begins = subst (λ w. starts_with w q ≡ true) whole (starts_with-append q t) in
      ground (arith, length-append q t, ap length whole, begins)
  | inr other ↦ ground (arith, grows_in_rule rs q t {kana = kana} h)
]

lookup-length : (w : Text) {kana : Text} → lookup w ≡ some kana → length w ≤ 4
unfolding lookup
lookup-length w e =
    let (r, h, same, _) = lookup_in_rule (λ r. leb (length r.romaji) 4) rules w table e in
    subst (λ x. length x ≤ 4) same (ground arith)
  where
    table : every (λ r. leb (length r.romaji) 4) rules ≡ true
    table = unfold rules in refl

-- Whatever a spelling begins with, properly, is the beginning of a rule.
pub lookup_prefix :
    (q t : Text) {kana : Text}
    → 0 < length t
    → lookup (q ++ t) ≡ some kana
    → is_prefix_of_rule q ≡ true
unfolding is_prefix_of_rule lookup
lookup_prefix q t h e =
    ground (arith, length-append q t, lookup-length (q ++ t) e, grows_in_rule rules q t h e)

-- No spelling is the beginning of another.
pub lookup-not_prefix :
    (w : Text) {kana : Text} → lookup w ≡ some kana → is_prefix_of_rule w ≡ false
unfolding lookup
lookup-not_prefix w e =
    let (r, h, same, _) = lookup_in_rule (λ r. not (is_prefix_of_rule r.romaji)) rules w table e in
    subst (λ x. is_prefix_of_rule x ≡ false) same (ground arith)
  where
    table : every (λ r. not (is_prefix_of_rule r.romaji)) rules ≡ true
    table = unfold rules is_prefix_of_rule grows_in in refl

pub pop_back-prefix :
    (p : Text) → is_prefix_of_rule p ≡ true → is_prefix_of_rule (pop_back p) ≡ true
pop_back-prefix p h = elim (pop_back-cases p) [
  | inl e ↦ subst (λ x. is_prefix_of_rule (pop_back x) ≡ true) (sym e) nothing
  | inr (x, e) ↦
      is_prefix_of_rule-drop (pop_back p) (x ∷ []) (subst (λ w. is_prefix_of_rule w ≡ true) e h)
]
  where
    nothing : is_prefix_of_rule [] ≡ true
    nothing = unfold rules is_prefix_of_rule grows_in in refl
