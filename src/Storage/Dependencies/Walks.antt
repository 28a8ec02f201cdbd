-- ===== src/Storage/Dependencies/Walks.antt =====
-- Walks along edges: what a cycle is, and what one more edge adds.
use Prim.Native.Nat.add
use bd.Prelude.{ℕ, zero, suc, ◌+◌, ◌≡◌, ap, subst, ◌⊎◌, inl, inr, List, In}
use bd.Prelude.Text.{Text}
use bd.Storage.Dependencies.{Edge}

abbrev pub Walk : List Edge → Text → Text → ℕ → Type 0
Walk es a c zero = a ≡ c
Walk es a c (suc n) = (b : Text) × In (a, b) es × Walk es b c n

-- No walk of one or more edges leads from an issue back to itself.
abbrev pub IsAcyclic : List Edge → Type 0
IsAcyclic es = (a : Text) (n : ℕ) → ¬ Walk es a a (suc n)

abbrev pub IsWithin : List Edge → List Edge → Type 0
IsWithin es fs = (e : Edge) → In e es → In e fs

pub Walk-IsWithin :
    (es fs : List Edge) → IsWithin es fs → (a c : Text) (n : ℕ) → Walk es a c n → Walk fs a c n
Walk-IsWithin es fs h a c zero w = w
Walk-IsWithin es fs h a c (suc n) (b, m, w) = (b, h (a, b) m, Walk-IsWithin es fs h b c n w)

pub IsAcyclic-IsWithin : (es fs : List Edge) → IsWithin es fs → IsAcyclic fs → IsAcyclic es
IsAcyclic-IsWithin es fs h acyclic a n w = acyclic a n (Walk-IsWithin es fs h a a (suc n) w)

pub Walk-append :
    (es : List Edge) (a b c : Text) (n m : ℕ) → Walk es a b n → Walk es b c m → Walk es a c (n + m)
Walk-append es a b c zero m w v = rw (w, add.zero) v
Walk-append es a b c (suc n) m (x, e, w) v = rw add.suc (x, e, Walk-append es x b c n m w v)

-- The edges `fs` are those of `es` and perhaps one from `s` to `t`.
abbrev pub IsExtension : List Edge → Text → Text → List Edge → Type 0
IsExtension es s t fs = (e : Edge) → In e fs → (e ≡ (s, t)) ⊎ In e es

rest_from_target :
    (es : List Edge) (s t a b c : Text) (n : ℕ)
    → Path Edge (a, b) (s, t)
    → Walk es b c n ⊎ ((k : ℕ) × Walk es b s k) × ((m : ℕ) × Walk es t c m)
    → (m : ℕ) × Walk es t c m
rest_from_target es s t a b c n new (inl rest) =
    (n, subst (λ x. Walk es x c n) (ap (λ (x : Edge). x.1) new) rest)
rest_from_target es s t a b c n new (inr (before, after)) = after

-- A walk over `fs` needs no new edge, or an old walk leads to `s` and another on from `t`.
pub Walk-split :
    (es fs : List Edge) (s t : Text)
    → IsExtension es s t fs
    → (a c : Text) (n : ℕ) → Walk fs a c n
    → Walk es a c n ⊎ ((k : ℕ) × Walk es a s k) × ((m : ℕ) × Walk es t c m)
Walk-split es fs s t h a c zero w = inl w
Walk-split es fs s t h a c (suc n) (b, e, w) = elim (h (a, b) e) [
  | inl new ↦ inr (
    (0, ap (λ (x : Edge). x.0) new),
    rest_from_target es s t a b c n new (Walk-split es fs s t h b c n w),
  )
  | inr old ↦ elim (Walk-split es fs s t h b c n w) [
    | inl rest ↦ inl (b, old, rest)
    | inr (before, after) ↦ inr ((suc before.0, (b, old, before.1)), after)
  ]
]

-- With an old walk from `t` to `s` excluded, the extension has no new cycle.
pub IsAcyclic-IsExtension :
    (es fs : List Edge) (s t : Text)
    → IsExtension es s t fs
    → IsAcyclic es
    → ((n : ℕ) → ¬ Walk es t s n)
    → IsAcyclic fs
IsAcyclic-IsExtension es fs s t h acyclic none_back a n w =
    elim (Walk-split es fs s t h a a (suc n) w) [
      | inl old ↦ acyclic a n old
      | inr ((k, before), (m, after)) ↦ none_back (m + k) (Walk-append es t a s m k after before)
    ]
