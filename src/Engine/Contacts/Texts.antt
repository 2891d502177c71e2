-- ===== src/Engine/Contacts/Texts.antt =====
-- contacts.go, splitBytes: nothing of a text is lost when it is split.
use rayavriti_netmonitor.Common.{
  ℕ, ◌≡◌, refl, sym, ap, ap₂, ◌∙◌, Bool, true, false, List, [], ◌∷◌, ◌++◌, ◌==◌, ==_iff, All,
  Bool-cases, inl, inr, ◌||◌,
}
use mathlib.Core.List.{append_assoc}
use rayavriti_netmonitor.Engine.Contacts.{Bytes, split_from, split_bytes}

-- The parts with the separator between them.
abbrev pub join_tail : ℕ → List Bytes → Bytes
join_tail sep [] = []
join_tail sep (p ∷ parts) = sep ∷ (p ++ join_tail sep parts)

abbrev pub join : ℕ → List Bytes → Bytes
join sep [] = []
join sep (p ∷ parts) = p ++ join_tail sep parts

abbrev pub occurs : ℕ → Bytes → Bool
occurs sep [] = false
occurs sep (b ∷ s) = b == sep || occurs sep s

-- Whether there is a part.
abbrev has_part : List Bytes → Bool
has_part [] = false
has_part (p ∷ parts) = true

split_from-has_part : (sep : ℕ) (part s : Bytes) → has_part (split_from sep part s) ≡ true
unfolding split_from
split_from-has_part sep part [] = refl
split_from-has_part sep part (b ∷ s) = elim (Bool-cases (b == sep)) [
  | inl e ↦ rw e refl
  | inr e ↦ rw e (split_from-has_part sep (part ++ b ∷ []) s)
]

join_tail-join :
    (sep : ℕ) (parts : List Bytes)
    → has_part parts ≡ true
    → join_tail sep parts ≡ sep ∷ join sep parts
join_tail-join sep [] h = cc
join_tail-join sep (p ∷ parts) h = refl

join-split_from : (sep : ℕ) (part s : Bytes) → join sep (split_from sep part s) ≡ part ++ s
unfolding split_from
join-split_from sep part [] = refl
join-split_from sep part (b ∷ s) = elim (Bool-cases (b == sep)) [
  | inl e ↦ rw e (
      ap (λ t. part ++ t)
        (join_tail-join sep (split_from sep [] s) (split_from-has_part sep [] s)
          ∙ ap₂ ◌∷◌ (sym ((==_iff b sep).0 e)) (join-split_from sep [] s)))
  | inr e ↦ rw e (join-split_from sep (part ++ b ∷ []) s ∙ append_assoc part (b ∷ []) s)
]

occurs-append :
    (sep : ℕ) (xs ys : Bytes)
    → occurs sep xs ≡ false
    → occurs sep ys ≡ false
    → occurs sep (xs ++ ys) ≡ false
occurs-append sep [] ys hx hy = hy
occurs-append sep (x ∷ xs) ys hx hy = elim (Bool-cases (x == sep)) [
  | inl e ↦ cc (rw e at hx)
  | inr e ↦ rw e (occurs-append sep xs ys (rw e at hx) hy)
]

split_from-occurs :
    (sep : ℕ) (part s : Bytes)
    → occurs sep part ≡ false
    → All (λ p. occurs sep p ≡ false) (split_from sep part s)
unfolding split_from
split_from-occurs sep part [] h = (h, tt)
split_from-occurs sep part (b ∷ s) h = elim (Bool-cases (b == sep)) [
  | inl e ↦ rw e (h, split_from-occurs sep [] s refl)
  | inr e ↦
      rw e
        (split_from-occurs sep (part ++ b ∷ []) s (occurs-append sep part (b ∷ []) h (rw e refl)))
]

-- Splitting a text at a byte loses nothing: the parts joined by the byte are the text, and no part
-- holds the byte.
pub join-split_bytes :
    (s : Bytes) (sep : ℕ)
    → (join sep (split_bytes s sep) ≡ s) × All (λ p. occurs sep p ≡ false) (split_bytes s sep)
unfolding split_bytes
join-split_bytes s sep = (join-split_from sep [] s, split_from-occurs sep [] s refl)
