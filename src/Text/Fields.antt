-- ===== src/Text/Fields.antt =====
-- The texts between the occurrences of a character.
use cn.Common.{ℕ, ◌≡◌, refl, List, [], ◌∷◌, ◌==◌, if◌then◌else◌, Bool-cases, true, false, inl, inr}

abbrev pub before_all : ℕ → List (List ℕ) → List (List ℕ)
before_all x [] = (x ∷ []) ∷ []
before_all x (t ∷ ts) = (x ∷ t) ∷ ts

-- The texts between the characters `c`.
unfoldable pub fields : ℕ → List ℕ → List (List ℕ)
fields c [] = [] ∷ []
fields c (x ∷ str) = let later = fields c str in if x == c then [] ∷ later else before_all x later

pub fields-cons :
    (c : ℕ) (str : List ℕ) → (t : List ℕ) × (ts : List (List ℕ)) × (fields c str ≡ t ∷ ts)
unfolding fields
fields-cons c [] = ([], [], refl)
fields-cons c (x ∷ str) =
    let (t, ts, h) = fields-cons c str in
    elim (Bool-cases (x == c)) [
      | inl e ↦ ([], fields c str, rw (e, fields) refl)
      | inr e ↦ (x ∷ t, ts, rw (e, h, fields) refl)
    ]

pub fields_mark :
    (c x : ℕ) (str : List ℕ) → (x == c) ≡ true → fields c (x ∷ str) ≡ [] ∷ fields c str
unfolding fields
fields_mark c x str e = rw e refl

pub fields_other :
    (c x : ℕ) (str : List ℕ) → (x == c) ≡ false → fields c (x ∷ str) ≡ before_all x (fields c str)
unfolding fields
fields_other c x str e = rw e refl
