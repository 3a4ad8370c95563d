-- ===== src/Kms/Grants/Pages.antt =====
-- The pages of applyGrantPagination in internal/kms/storage.go, as a client walks through them.
use kumolo.Prelude.{
  ℕ, zero, suc, ◌≤◌, ◌<◌, true, false, ◌≡◌, ◌∙◌, ap, sym, subst, refl, none, some, List, [], ◌∷◌,
  ◌++◌, length, ltb, arith, Bool-cases, inl, inr, if◌then◌else◌, take, length-append,
}
use kumolo.Prelude.Bytes.{Bytes, bytes_eq, bytes_eq_iff, bytes_eq_refl}
use kumolo.Kms.Types.{Grant}
use kumolo.Kms.Aliases.{is_blank}
use kumolo.Kms.Grants.{behind_marker, from_marker, start_at, last_id, apply_grant_pagination}

-- The grants that a client gathers that asks for the page behind a marker, and for further ones as
-- long as there is a next marker, at most `n` of them.
pub walk : ℕ → List Grant → ℕ → Bytes → List Grant
unfolding apply_grant_pagination
walk zero grants limit marker = []
walk (suc n) grants limit marker =
    let (page, next) = apply_grant_pagination grants limit marker in
    let rest = walk n grants limit next in if is_blank next then page else page ++ rest

-- No two grants have the same ID, and none has an empty one.
abbrev pub IsDistinct : List Grant → Type 0
IsDistinct [] = Unit
IsDistinct (g ∷ gs) =
    ((behind_marker g.grant_id gs ≡ none) × (is_blank g.grant_id ≡ false)) × IsDistinct gs

bytes_eq_flip : (s t : Bytes) → bytes_eq s t ≡ false → bytes_eq t s ≡ false
bytes_eq_flip s t e = ground (arith, bytes_eq_iff s t, bytes_eq_iff t s)

-- Where a grant is, what is behind it.
other_id :
    (m : Bytes) (before : List Grant) (g : Grant) (rest : List Grant)
    → behind_marker m (before ++ (g ∷ rest)) ≡ none
    → bytes_eq g.grant_id m ≡ false
unfolding behind_marker
other_id m [] g rest e = ground arith
other_id m (h ∷ before) g rest e = other_id m before g rest (ground arith)

behind_marker-append :
    (before : List Grant) (g : Grant) (rest : List Grant)
    → IsDistinct (before ++ (g ∷ rest))
    → (behind_marker g.grant_id (before ++ (g ∷ rest)) ≡ some rest) × (is_blank g.grant_id ≡ false)
unfolding behind_marker
behind_marker-append [] g rest d = (rw (bytes_eq_refl g.grant_id) refl, d.0.1)
behind_marker-append (h ∷ before) g rest d =
    let other : bytes_eq h.grant_id g.grant_id ≡ false =
      bytes_eq_flip _ _ (other_id h.grant_id before g rest d.0.0) in
    let (behind, named) = behind_marker-append before g rest d.1 in (rw other behind, named)

-- The first page of what is left, up to its last grant.
cut :
    (n : ℕ) (gs : List Grant)
    → n < length gs
    → (init : List Grant) × ((g : Grant) × ((tail : List Grant) × ((gs ≡ init ++ (g ∷ tail))
            × ((take (suc n) gs ≡ init ++ (g ∷ [])) × (last_id (take (suc n) gs) ≡ g.grant_id)))))
cut n [] h = absurd (omega (arith, h))
cut zero (g ∷ gs) h = ([], (g, (gs, (refl, (refl, refl)))))
cut (suc n) (x ∷ []) h = absurd (omega (arith, h))
cut (suc n) (x ∷ y ∷ gs) h =
    let (init, found) = cut n (y ∷ gs) (omega (arith, h)) in
    let (g, found') = found in
    let (tail, ends) = found' in
    (x ∷ init, (g, (tail, (ap (λ z. x ∷ z) ends.0, (ap (λ z. x ∷ z) ends.1.0, ends.1.1)))))

start_at-behind :
    (m : Bytes) (gs rest : List Grant)
    → is_blank m ≡ false
    → behind_marker m gs ≡ some rest
    → start_at m gs ≡ rest
unfolding start_at
start_at-behind [] gs rest b e = cc
start_at-behind (c ∷ m) gs rest b e =
    ap (λ o. elim o as (λ _. List Grant) [ none ↦ from_marker (c ∷ m) gs | some r ↦ r ]) e

append_assoc : (xs ys zs : List Grant) → (xs ++ ys) ++ zs ≡ xs ++ (ys ++ zs)
append_assoc [] ys zs = refl
append_assoc (x ∷ xs) ys zs = ap (λ l. x ∷ l) (append_assoc xs ys zs)

-- The page of the grants that are left, and the marker of the next one.
abbrev page_of : ℕ → List Grant → List Grant × Bytes
page_of limit rest =
    if ltb limit (length rest) then (take limit rest, last_id (take limit rest)) else (rest, [])

abbrev then_more : ℕ → List Grant → ℕ → List Grant × Bytes → List Grant
then_more n grants limit (page, next) =
    if is_blank next then page else page ++ walk n grants limit next

walk-suc :
    (n : ℕ) (grants : List Grant) (limit : ℕ) (marker : Bytes)
    → walk (suc n) grants limit marker
      ≡ then_more n grants limit (page_of limit (start_at marker grants))
unfolding walk apply_grant_pagination
walk-suc n grants limit marker = refl

then_more-next :
    (n : ℕ) (grants : List Grant) (limit : ℕ) (page : List Grant) (next : Bytes)
    → is_blank next ≡ false
    → then_more n grants limit (page, next) ≡ page ++ walk n grants limit next
then_more-next n grants limit page next e = rw e refl

page_of-last :
    (limit : ℕ) (rest : List Grant)
    → ltb limit (length rest) ≡ false
    → page_of limit rest ≡ (rest, [])
page_of-last limit rest e =
    ap (λ b. if b then (take limit rest, last_id (take limit rest)) else (rest, [])) e

page_of-more :
    (limit : ℕ) (rest : List Grant)
    → ltb limit (length rest) ≡ true
    → page_of limit rest ≡ (take limit rest, last_id (take limit rest))
page_of-more limit rest e =
    ap (λ b. if b then (take limit rest, last_id (take limit rest)) else (rest, [])) e

ltb-< : (l n : ℕ) → ltb (suc l) n ≡ true → l < n
ltb-< l n e = ground arith

less_left :
    (init : List Grant) (g : Grant) (tail : List Grant) (n : ℕ)
    → length (init ++ (g ∷ tail)) ≤ suc n
    → length tail ≤ n
less_left init g tail n h = omega (arith, h, length-append init (g ∷ tail))

walk-from :
    (n l : ℕ) (grants before rest : List Grant) (marker : Bytes)
    → IsDistinct grants
    → grants ≡ before ++ rest
    → start_at marker grants ≡ rest
    → length rest ≤ n
    → walk n grants (suc l) marker ≡ rest
unfolding walk
walk-from zero l grants before [] marker d s e h = refl
walk-from zero l grants before (g ∷ rest) marker d s e h = absurd (omega (arith, h))
walk-from (suc n) l grants before rest marker d s e h =
    walk-suc n grants (suc l) marker
    ∙ (ap (λ r. then_more n grants (suc l) (page_of (suc l) r)) e
        ∙ elim (Bool-cases (ltb (suc l) (length rest))) [
          | inr last ↦ ap (then_more n grants (suc l)) (page_of-last (suc l) rest last)
          | inl more ↦
              let (init, found) = cut l rest (ltb-< l (length rest) more) in
              let (g, found') = found in
              let (tail, ends) = found' in
              let (whole, first) = ends in
              let (page, marks) = first in
              let here : grants ≡ (before ++ init) ++ (g ∷ tail) =
                s ∙ (ap (λ r. before ++ r) whole ∙ sym (append_assoc before init (g ∷ tail))) in
              let (behind, named) =
                behind_marker-append (before ++ init) g tail (subst IsDistinct here d) in
              let start : start_at g.grant_id grants ≡ tail =
                start_at-behind g.grant_id grants tail named
                  (ap (behind_marker g.grant_id) here ∙ behind) in
              let rest_of_walk : walk n grants (suc l) g.grant_id ≡ tail =
                walk-from n l grants ((before ++ init) ++ (g ∷ [])) tail g.grant_id d
                  (here ∙ sym (append_assoc (before ++ init) (g ∷ []) tail)) start
                  (less_left init g tail n (subst (λ r. length r ≤ suc n) whole h)) in
              ap (then_more n grants (suc l)) (page_of-more (suc l) rest more)
              ∙ (then_more-next n grants (suc l) _ _ (ap is_blank marks ∙ named)
                  ∙ (ap (λ m. take (suc l) rest ++ walk n grants (suc l) m) marks
                      ∙ (ap (λ r. take (suc l) rest ++ r) rest_of_walk
                          ∙ (ap (λ p. p ++ tail) page
                              ∙ (append_assoc init (g ∷ []) tail ∙ sym whole)))))
        ])

-- The pages that a client asks for, each with the marker of the one before, together are the
-- grants, each once and in order, where the limit is not zero, no two grants have the same ID and
-- none has an empty ID; and the client needs at most as many pages as there are grants.
pub walk-length :
    (grants : List Grant) (l : ℕ)
    → IsDistinct grants
    → walk (length grants) grants (suc l) [] ≡ grants
unfolding start_at
walk-length grants l d = walk-from (length grants) l grants [] grants [] d refl refl (omega arith)
