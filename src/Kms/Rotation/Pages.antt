-- ===== src/Kms/Rotation/Pages.antt =====
-- The pages of ListKeyRotations in internal/kms/storage.go, as a client walks through them.
use kumolo.Prelude.{
  ℕ, ◌/◌, zero, suc, ◌+◌, ◌-◌, ◌≤◌, ◌<◌, ◌==◌, Bool, true, false, ◌≡◌, ◌∙◌, ap, sym, refl, none,
  some, List, [], ◌∷◌, ◌++◌, length, take, drop, take-drop, drop-drop, length-drop, ltb, arith,
  Bool-cases, inl, inr, if◌then◌else◌,
}
use kumolo.Prelude.Bytes.{Bytes}
use kumolo.Prelude.Decimal.{
  decimal, decimal_loop, digits_from, is_decimal_digit, digits_from-decimal,
}
use kumolo.Kms.Types.{RotationRecord}
use kumolo.Kms.Io.{Outcome, done, failed, invalid_marker}
use kumolo.Kms.Aliases.{is_blank}
use kumolo.Kms.Rotation.{
  natural_value, marker_index, marker_start, within, decimal_before, rotations_from, rotation_page,
}

-- The records that a client gathers that asks for the page behind a marker, and for further ones as
-- long as there is a next marker, at most `n` of them.
pub gather : ℕ → List RotationRecord → ℕ → Bytes → List RotationRecord
unfolding rotation_page
gather zero history limit marker = []
gather (suc n) history limit marker = elim (rotation_page history limit marker) [
  | failed e ↦ []
  | done (page, next) ↦
      let rest = gather n history limit next in if is_blank next then page else page ++ rest
]

abbrev more_of : ℕ → List RotationRecord → ℕ → List RotationRecord × Bytes → List RotationRecord
more_of n history limit (page, next) =
    let rest = gather n history limit next in if is_blank next then page else page ++ rest

-- Text that reads as a number is a marker of its own.
marker_index-digits :
    (s : Bytes) (n : ℕ) → digits_from 0 s ≡ some n → is_blank s ≡ false → marker_index s ≡ some n
unfolding marker_index natural_value digits_from
marker_index-digits [] n e b = cc
marker_index-digits (c ∷ s) n e b = elim (Bool-cases (is_decimal_digit c)) [
  | inl d ↦
      let plus : (c == b'+') ≡ false = ground arith in
      let minus : (c == b'-') ≡ false = ground arith in rw (plus, minus) e
  | inr d ↦ let no : none ≡ some n = rw d at e in cc
]

marker_start-digits :
    (history : List RotationRecord) (s : Bytes) (n : ℕ)
    → digits_from 0 s ≡ some n
    → is_blank s ≡ false
    → n < length history
    → marker_start history s ≡ done (suc n)
unfolding marker_start
marker_start-digits history [] n e b h = cc
marker_start-digits history (c ∷ s) n e b h =
    let less : ltb n (length history) ≡ true = ground arith in
    ap (within (length history)) (marker_index-digits (c ∷ s) n e b)
    ∙ ap (λ t. if t then done (suc n) else failed invalid_marker) less

is_blank-append : (s : Bytes) (c : ℕ) → is_blank (s ++ (c ∷ [])) ≡ false
is_blank-append [] c = refl
is_blank-append (d ∷ s) c = refl

is_blank-decimal : (n : ℕ) → is_blank (decimal n) ≡ false
unfolding decimal decimal_loop
is_blank-decimal n = elim (Bool-cases (ltb n 10)) [
  | inl e ↦ rw e refl
  | inr e ↦ rw e (is_blank-append (decimal_loop n (n / 10)) _)
]

gather_next :
    (n : ℕ) (history : List RotationRecord) (limit start : ℕ) (marker : Bytes)
    → marker_start history marker ≡ done start
    → gather (suc n) history limit marker
      ≡ more_of n history limit (rotations_from history limit start)
unfolding gather rotation_page
gather_next n history limit start marker e =
    ap
      (λ r.
        elim (elim r as (λ _. Outcome (List RotationRecord × Bytes)) [
          | failed x ↦ failed x
          | done i ↦ done (rotations_from history limit i)
        ])
          as (λ _. List RotationRecord) [ failed x ↦ [] | done p ↦ more_of n history limit p ])
      e

more_of-next :
    (n : ℕ) (history : List RotationRecord) (limit : ℕ) (page : List RotationRecord) (next : Bytes)
    → is_blank next ≡ false
    → more_of n history limit (page, next) ≡ page ++ gather n history limit next
more_of-next n history limit page next e = rw e refl

decimal_before-suc : (start l : ℕ) → decimal_before (start + suc l) ≡ decimal (start + l)
unfolding decimal_before
decimal_before-suc start l =
    let same : start + suc l ≡ suc (start + l) = omega arith in ap decimal_before same

abbrev page_if : List RotationRecord → ℕ → ℕ → Bool → List RotationRecord × Bytes
page_if history limit start b =
    if b
    then (take limit (drop start history), decimal_before (start + limit))
    else (drop start history, [])

ltb-< : (l n : ℕ) → ltb (suc l) n ≡ true → suc l < n
ltb-< l n e = ground arith

gather-from :
    (n l start : ℕ) (history : List RotationRecord) (marker : Bytes)
    → marker_start history marker ≡ done start
    → length (drop start history) ≤ n
    → gather n history (suc l) marker ≡ drop start history
unfolding gather
gather-from zero l start history marker e h = by_rest (drop start history) h
  where
    by_rest : (rest : List RotationRecord) → length rest ≤ 0 → [] ≡ rest
    by_rest [] h' = refl
    by_rest (r ∷ rest) h' = absurd (omega (arith, h'))
gather-from (suc n) l start history marker e h =
    gather_next n history (suc l) start marker e
    ∙ elim (Bool-cases (ltb (suc l) (length (drop start history)))) [
      | inr last ↦ ap (λ b. more_of n history (suc l) (page_if history (suc l) start b)) last
      | inl more ↦
          let longer : suc l < length (drop start history) = ltb-< l _ more in
          let left : length (drop start history) ≡ length history - start =
            length-drop start history in
          let within_history : start + l < length history = omega (arith, longer, left) in
          let next : decimal_before (start + suc l) ≡ decimal (start + l) =
            decimal_before-suc start l in
          let index : suc (start + l) ≡ start + suc l = omega arith in
          let shorter : length (drop (start + suc l) history) ≤ n =
            omega (arith, h, longer, left, length-drop (start + suc l) history) in
          let rest : gather n history (suc l) (decimal (start + l)) ≡ drop (start + suc l) history =
            gather-from n l (start + suc l) history (decimal (start + l))
              (marker_start-digits history (decimal (start + l)) (start + l)
                  (digits_from-decimal (start + l)) (is_blank-decimal (start + l)) within_history
                ∙ ap done index)
              shorter in
          ap (λ b. more_of n history (suc l) (page_if history (suc l) start b)) more
          ∙ (ap (λ m. more_of n history (suc l) (take (suc l) (drop start history), m)) next
              ∙ (more_of-next n history (suc l) _ _ (is_blank-decimal (start + l))
                  ∙ (ap (λ r. take (suc l) (drop start history) ++ r)
                        (rest ∙ sym (drop-drop start (suc l) history))
                      ∙ take-drop (suc l) (drop start history))))
    ]

-- The pages of rotations that a client asks for, each with the marker of the one before, together
-- are the whole history, where the limit is not zero: a marker, which is the index of the last
-- record of a page in decimal, is read back as that index. The client needs at most as many pages
-- as there are records.
pub gather-length :
    (history : List RotationRecord) (l : ℕ) → gather (length history) history (suc l) [] ≡ history
unfolding marker_start
gather-length history l = gather-from (length history) l 0 history [] refl (omega arith)
