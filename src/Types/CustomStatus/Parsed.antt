-- ===== src/Types/CustomStatus/Parsed.antt =====
-- ParseCustomStatusConfig of internal/types/types.go: what the parser returns.
use bd.Prelude.{
  ℕ, ◌≡◌, ◌≤◌, ◌∙◌, refl, ap, subst, Bool, true, false, ◌&&◌, ◌||◌, not, none, Option-cases,
  Bool-cases, List, [], ◌∷◌, ◌++◌, map, all, length, inl, inr, ◌⊎◌, arith,
}
use bd.Prelude.{any-append, all-append, map-append}
use bd.Prelude.Text.{
  Text, split, index_byte, ◌==◌, eq_iff, eq_refl, contains, lower, to_lower, trim_space,
}
use bd.Types.Status.{category_unspecified}
use bd.Types.Status
use bd.Types.CustomStatus.{
  CustomStatus, ParseError, Result, ok, err, valid_category, is_name_char, is_status_name,
  built_in_status_names, split_part, check_status, parse_part, parse_parts,
  parse_custom_status_config, max_custom_statuses, custom_status_names,
}

-- No text occurs twice.
abbrev pub distinct : List Text → Bool
distinct [] = true
distinct (t ∷ ts) = not (contains ts t) && distinct ts

-- A status with a name of the expected form, that is not built in, and a category that a user may
-- give, or none.
abbrev pub is_proper : CustomStatus → Bool
is_proper s =
    is_status_name s.name
    && not (Status.is_valid s.name)
    && (s.category == category_unspecified || valid_category s.category)

lower_name_char : (c : ℕ) → is_name_char c ≡ true → lower c ≡ c
unfolding lower
lower_name_char c h = ground arith

to_lower_names : (s : Text) → all is_name_char s ≡ true → to_lower s ≡ s
unfolding to_lower
to_lower_names [] h = refl
to_lower_names (c ∷ s) h =
    ground (arith, lower_name_char c (ground arith), to_lower_names s (ground arith))

-- A name of the expected form has no capital letter, so that the collision test on the lower case is
-- one on the name itself.
to_lower-is_status_name : (s : Text) → is_status_name s ≡ true → to_lower s ≡ s
unfolding is_status_name
to_lower-is_status_name [] h = cc
to_lower-is_status_name (c ∷ s) h = to_lower_names (c ∷ s) (ground arith)

split_part-category :
    (part : Text) (s : CustomStatus)
    → split_part part ≡ ok s
    → (s.category == category_unspecified || valid_category s.category) ≡ true
unfolding split_part
split_part-category part s h = elim (Option-cases (index_byte b':' part)) [
  | inl e ↦ ground (arith, eq_refl category_unspecified)
  | inr (i, e) ↦ ground arith
]

Result-cases :
    {A : Type 0} (r : Result A) → ((e : ParseError) × (r ≡ err e)) ⊎ ((a : A) × (r ≡ ok a))
Result-cases (ok a) = inr (a, refl)
Result-cases (err e) = inl (e, refl)

ok_inj : {A : Type 0} {a b : A} → ok a ≡ ok b → a ≡ b
ok_inj h = cc

built_in-is_valid : (s : Text) → built_in_status_names s ≡ Status.is_valid s
unfolding built_in_status_names Status.is_valid
built_in-is_valid s = refl

check_status-proper :
    (seen : List Text) (s : CustomStatus)
    → check_status seen s ≡ none
    → (is_status_name s.name ≡ true)
      × (Status.is_valid s.name ≡ false)
      × (contains seen s.name ≡ false)
unfolding check_status
check_status-proper seen s h = elim (Bool-cases (is_status_name s.name)) [
  | inl e ↦
      ground (
        arith,
        ap built_in_status_names (to_lower-is_status_name s.name e),
        built_in-is_valid s.name,
      )
  | inr e ↦ ground arith
]

parse_part-proper :
    (seen : List Text) (part : Text) (s : CustomStatus)
    → parse_part seen part ≡ ok s
    → (is_proper s ≡ true) × (contains seen s.name ≡ false)
unfolding parse_part
parse_part-proper seen part s h = elim (Result-cases (split_part part)) [
  | inl (e, q) ↦ ground arith
  | inr (r, q) ↦ elim (Option-cases (check_status seen r)) [
    | inl k ↦
        let (a, b, c) = check_status-proper seen r k in
        let v = split_part-category part r q in
        let same : r ≡ s = ok_inj (ground arith) in
        subst (λ x. (is_proper x ≡ true) × (contains seen x.name ≡ false)) same (ground arith, c)
    | inr (e, k) ↦ ground arith
  ]
]

distinct-snoc :
    (ts : List Text) (t : Text) → distinct (ts ++ (t ∷ [])) ≡ (distinct ts && not (contains ts t))
distinct-snoc [] t = refl
distinct-snoc (u ∷ ts) t =
    ground (arith, distinct-snoc ts t, any-append (λ v. u == v) ts (t ∷ []), eq_iff u t, eq_iff t u)

-- The names collected so far are the names seen, and the statuses are proper and distinct.
pub record IsParsed (seen : List Text) (result : List CustomStatus) : Type 0 where
  pub proper : all is_proper result ≡ true
  pub unique : distinct (map (λ s. s.name) result) ≡ true
  pub same : (t : Text) → contains seen t ≡ contains (map (λ s. s.name) result) t

IsParsed-snoc :
    (seen : List Text) (result : List CustomStatus) (s : CustomStatus)
    → IsParsed seen result
    → is_proper s ≡ true
    → contains seen s.name ≡ false
    → IsParsed (s.name ∷ seen) (result ++ (s ∷ []))
IsParsed-snoc seen result s p g f =
    let e = map-append (λ (x : CustomStatus). x.name) result (s ∷ []) in
    record {
      proper = ground (arith, p.proper, all-append is_proper result (s ∷ []));
      unique =
          ap distinct e
          ∙ distinct-snoc (map (λ x. x.name) result) s.name
          ∙ ground (arith, p.unique, p.same s.name);
      same = λ t. ground (
        arith,
        p.same t,
        ap (λ ts. contains ts t) e,
        any-append (λ v. t == v) (map (λ x. x.name) result) (s.name ∷ []),
      );
    }

parse_parts-IsParsed :
    (seen : List Text) (result : List CustomStatus) (parts : List Text) (out : List CustomStatus)
    → IsParsed seen result
    → parse_parts seen result parts ≡ ok out
    → (all is_proper out ≡ true) × (distinct (map (λ s. s.name) out) ≡ true)
unfolding parse_parts
parse_parts-IsParsed seen result [] out p h =
    subst (λ r. (all is_proper r ≡ true) × (distinct (map (λ s. s.name) r) ≡ true)) (ok_inj h)
      (p.proper, p.unique)
parse_parts-IsParsed seen result (part ∷ parts) out p h =
    elim (Bool-cases (trim_space part == [])) [
      | inl blank ↦ parse_parts-IsParsed seen result parts out p (ground arith)
      | inr solid ↦ elim (Result-cases (parse_part seen (trim_space part))) [
        | inl (e, q) ↦ ground arith
        | inr (s, q) ↦
            let (g, f) = parse_part-proper seen (trim_space part) s q in
            parse_parts-IsParsed (s.name ∷ seen) (result ++ (s ∷ [])) parts out
              (IsParsed-snoc seen result s p g f) (ground arith)
      ]
    ]

-- A configuration that parses gives at most fifty statuses, each with a name that is a lower-case
-- letter followed by lower-case letters, digits, '_' and '-', that is not a built-in status, and
-- with one of the four categories or none; and no name occurs twice.
pub parse_custom_status_config-proper :
    (value : Text) (out : List CustomStatus)
    → parse_custom_status_config value ≡ ok out
    → (length out ≤ max_custom_statuses)
      × (all is_proper out ≡ true)
      × (distinct (custom_status_names out) ≡ true)
unfolding parse_custom_status_config custom_status_names
parse_custom_status_config-proper value out h = elim (Bool-cases (trim_space value == [])) [
  | inl blank ↦
      let same : [] ≡ out = ok_inj (ground arith) in
      subst
        (λ r.
          (length r ≤ max_custom_statuses)
          × (all is_proper r ≡ true)
          × (distinct (map (λ s. s.name) r) ≡ true))
        same (omega arith, refl, refl)
  | inr solid ↦ elim (Result-cases (parse_parts [] [] (split b',' (trim_space value)))) [
    | inl (e, q) ↦ ground arith
    | inr (r, q) ↦
        let (g, f) =
          parse_parts-IsParsed [] [] (split b',' (trim_space value)) r
            record { proper = refl; unique = refl; same = λ t. refl } q in
        let same : r ≡ out = ok_inj (ground arith) in
        subst
          (λ r.
            (length r ≤ max_custom_statuses)
            × (all is_proper r ≡ true)
            × (distinct (map (λ s. s.name) r) ≡ true))
          same (ground arith, g, f)
  ]
]
