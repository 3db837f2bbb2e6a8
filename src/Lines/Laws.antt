-- ===== src/Lines/Laws.antt =====
-- Laws of the text functions.
use f1r3fly_rgb_lightning_no.Common.{
  ℕ, ◌≤◌, ◌≡◌, refl, ap, inl, inr, ◌&&◌, List, [], ◌∷◌, ◌++◌, Bytes, All, bytes_eq, split, length,
  ◌==◌, arith, Bool-cases,
}
use f1r3fly_rgb_lightning_no.Lines.{
  is_whitespace, trim_start, trim_end, trim, drop_last_empty, strip_cr, starts_with,
}

-- No byte is a space or a control character.
abbrev pub IsVisible : Bytes → Type 0
IsVisible = All (λ b. 33 ≤ b)

-- Visible text is left alone by `trim`, and holds no line end.
pub trim_start_visible : (s : Bytes) → IsVisible s → trim_start s ≡ s
unfolding trim_start is_whitespace
trim_start_visible [] h = refl
trim_start_visible (c ∷ cs) h = ground arith

pub trim_end_visible : (s : Bytes) → IsVisible s → trim_end s ≡ s
unfolding trim_end is_whitespace
trim_end_visible [] h = refl
trim_end_visible (c ∷ cs) h = ground (arith, trim_end_visible cs h.1)

pub trim_visible : (s : Bytes) → IsVisible s → trim s ≡ s
unfolding trim
trim_visible s h = rw (trim_start_visible s h) (trim_end_visible s h)

pub split_cons : (sep : ℕ) (s : Bytes) → (p : Bytes) × (ps : List Bytes) × (split sep s ≡ p ∷ ps)
unfolding split
split_cons sep [] = ([], [], refl)
split_cons sep (x ∷ s) = elim (Bool-cases (x == sep)) [
  | inl same ↦ ([], split sep s, rw same refl)
  | inr differ ↦ let (p, ps, e) = split_cons sep s in (x ∷ p, ps, rw (differ, e) refl)
]

pub drop_last_empty-cons :
    (x : Bytes) (ps qs : List Bytes) (p : Bytes)
    → ps ≡ p ∷ qs
    → drop_last_empty (x ∷ ps) ≡ x ∷ drop_last_empty ps
unfolding drop_last_empty
drop_last_empty-cons x ps qs p e = rw e refl

pub strip_cr_visible : (s : Bytes) → IsVisible s → strip_cr s ≡ s
unfolding strip_cr
strip_cr_visible [] h = refl
strip_cr_visible (c ∷ []) h = ground arith
strip_cr_visible (c ∷ d ∷ s) h = ap (λ r. c ∷ r) (strip_cr_visible (d ∷ s) h.1)

pub starts_with-append :
    (p q r : Bytes) → length p ≡ length q → starts_with p (q ++ r) ≡ bytes_eq p q
unfolding starts_with bytes_eq
starts_with-append [] [] r e = refl
starts_with-append [] (x ∷ q) r e = absurd (omega (arith, e))
starts_with-append (x ∷ p) [] r e = absurd (omega (arith, e))
starts_with-append (x ∷ p) (y ∷ q) r e =
    ap (λ b. x == y && b) (starts_with-append p q r (omega (arith, e)))
