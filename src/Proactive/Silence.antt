-- ===== src/Proactive/Silence.antt =====
-- Which replies internal/core/turns/policy.go drops.
use mathlib.Core.List.{reverse, reverse-append, reverse-reverse}
use eggy.Prelude.{
  ℕ, ◌≡◌, ◌≤◌, ◌⊎◌, inl, inr, refl, sym, ap, ◌∙◌, true, some, List, [], ◌∷◌, ◌++◌, arith,
  Bool-cases, Option-cases,
}
use eggy.Text.{trim_space, is_empty}
use eggy.Loop.{cut_prefix}
use eggy.Loop.Offered.{cut_prefix-eq}
use eggy.Proactive.{
  OneOf, heartbeat_sentinels, pleasantry_limit, byte_length, cut_suffix, remainder, is_pleasantry,
  any_sentinel, silent_reply,
}

cut_suffix-eq : (s p rest : List ℕ) → cut_suffix s p ≡ some rest → s ≡ rest ++ p
unfolding cut_suffix
cut_suffix-eq s p rest h = elim (Option-cases (cut_prefix (reverse s) (reverse p))) [
  | inl other ↦ absurd (ground (arith, other, h))
  | inr (back, cut) ↦
      let same : reverse back ≡ rest = ground (arith, cut, h) in
      sym (reverse-reverse s)
      ∙ (ap reverse (cut_prefix-eq (reverse s) (reverse p) back cut)
          ∙ (reverse-append (reverse p) back
              ∙ (ap (λ l. reverse back ++ l) (reverse-reverse p) ∙ ap (λ l. l ++ p) same)))
]

-- The reply is a sentinel with little else before or behind it.
pub record Sentinel (trimmed sentinel : List ℕ) : Type 0 where
  pub rest : List ℕ
  pub around : (trimmed ≡ sentinel ++ rest) ⊎ (trimmed ≡ rest ++ sentinel)
  pub short : byte_length (trim_space rest) ≤ pleasantry_limit

remainder-around :
    (trimmed sentinel rest : List ℕ)
    → remainder trimmed sentinel ≡ some rest
    → (trimmed ≡ sentinel ++ rest) ⊎ (trimmed ≡ rest ++ sentinel)
unfolding remainder
remainder-around trimmed sentinel rest h = elim (Option-cases (cut_prefix trimmed sentinel)) [
  | inr (ahead, found) ↦ inl (cut_prefix-eq trimmed sentinel rest (ground (arith, found, h)))
  | inl missing ↦ inr (cut_suffix-eq trimmed sentinel rest (ground (arith, missing, h)))
]

is_pleasantry-Sentinel :
    (trimmed sentinel : List ℕ)
    → is_pleasantry (remainder trimmed sentinel) ≡ true
    → Sentinel trimmed sentinel
unfolding is_pleasantry
is_pleasantry-Sentinel trimmed sentinel h = elim (Option-cases (remainder trimmed sentinel)) [
  | inl missing ↦ absurd (ground (arith, missing, h))
  | inr (rest, found) ↦ record {
    rest = rest;
    around = remainder-around trimmed sentinel rest found;
    short = ground (arith, found, h);
  }
]

any_sentinel-OneOf :
    (trimmed : List ℕ) (l : List (List ℕ))
    → any_sentinel trimmed l ≡ true
    → (sentinel : List ℕ) × (OneOf sentinel l × Sentinel trimmed sentinel)
unfolding any_sentinel
any_sentinel-OneOf trimmed [] h = absurd (ground arith)
any_sentinel-OneOf trimmed (sentinel ∷ l) h =
    elim (Bool-cases (is_pleasantry (remainder trimmed sentinel))) [
      | inl here ↦ (sentinel, (inl refl, is_pleasantry-Sentinel trimmed sentinel here))
      | inr other ↦
          let (found, (listed, around)) = any_sentinel-OneOf trimmed l (ground (arith, other, h)) in
          (found, (inr listed, around))
    ]

-- A reply that is dropped is blank, or is one of the two sentinels with nothing else than at most three
-- hundred bytes either behind it or before it.
pub silent_reply-Sentinel :
    (content : List ℕ)
    → silent_reply content ≡ true
    → (is_empty (trim_space content) ≡ true)
      ⊎ ((sentinel : List ℕ) × (OneOf sentinel heartbeat_sentinels
            × Sentinel (trim_space content) sentinel))
unfolding silent_reply
silent_reply-Sentinel content h = elim (Bool-cases (is_empty (trim_space content))) [
  | inl blank ↦ inl blank
  | inr written ↦
      inr (any_sentinel-OneOf (trim_space content) heartbeat_sentinels (ground (arith, written, h)))
]
