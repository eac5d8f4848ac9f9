-- ===== src/Asm/Arity/Table.antt =====
-- Every instruction of the table can be assembled from as many values as its syntax asks for.
use cn.Common.{ℕ, ◌≡◌, ◌≤◌, refl, arith, false, some, List, [], ◌∷◌, All, ◌&◌, length}
use cn.Instr.Table.{InstrSpec, instr_table}
use cn.Instr.Assemble.{assemble_spec, put_fields, next_field, strtol}
use cn.Asm.Arity.{arity}

pub record IsEncodable (spec : InstrSpec) : Type 0 where
  pub three : arity false spec.syntax ≤ 3
  pub encodes :
      (values : List ℕ)
      → length values ≡ arity false spec.syntax
      → (w : ℕ) × (assemble_spec spec values ≡ some w)

module _ (spec : InstrSpec) where
  none_fit :
      arity false spec.syntax ≡ 0 → (w : ℕ) × (assemble_spec spec [] ≡ some w) → IsEncodable spec
  none_fit e h = record { three = omega arith; encodes = encodes }
    where
      encodes :
          (values : List ℕ)
          → length values ≡ arity false spec.syntax
          → (w : ℕ) × (assemble_spec spec values ≡ some w)
      encodes [] l = h
      encodes (a ∷ values) l = absurd (omega arith)

  one_fits :
      arity false spec.syntax ≡ 1
      → ((a : ℕ) → (w : ℕ) × (assemble_spec spec (a ∷ []) ≡ some w))
      → IsEncodable spec
  one_fits e h = record { three = omega arith; encodes = encodes }
    where
      encodes :
          (values : List ℕ)
          → length values ≡ arity false spec.syntax
          → (w : ℕ) × (assemble_spec spec values ≡ some w)
      encodes [] l = absurd (omega arith)
      encodes (a ∷ []) l = h a
      encodes (a ∷ b ∷ values) l = absurd (omega arith)

  two_fit :
      arity false spec.syntax ≡ 2
      → ((a b : ℕ) → (w : ℕ) × (assemble_spec spec (a ∷ b ∷ []) ≡ some w))
      → IsEncodable spec
  two_fit e h = record { three = omega arith; encodes = encodes }
    where
      encodes :
          (values : List ℕ)
          → length values ≡ arity false spec.syntax
          → (w : ℕ) × (assemble_spec spec values ≡ some w)
      encodes [] l = absurd (omega arith)
      encodes (a ∷ []) l = absurd (omega arith)
      encodes (a ∷ b ∷ []) l = h a b
      encodes (a ∷ b ∷ c ∷ values) l = absurd (omega arith)

  three_fit :
      arity false spec.syntax ≡ 3
      → ((a b c : ℕ) → (w : ℕ) × (assemble_spec spec (a ∷ b ∷ c ∷ []) ≡ some w))
      → IsEncodable spec
  three_fit e h = record { three = omega arith; encodes = encodes }
    where
      encodes :
          (values : List ℕ)
          → length values ≡ arity false spec.syntax
          → (w : ℕ) × (assemble_spec spec values ≡ some w)
      encodes [] l = absurd (omega arith)
      encodes (a ∷ []) l = absurd (omega arith)
      encodes (a ∷ b ∷ []) l = absurd (omega arith)
      encodes (a ∷ b ∷ c ∷ []) l = h a b c
      encodes (a ∷ b ∷ c ∷ d ∷ values) l = absurd (omega arith)

pub table_IsEncodable : All IsEncodable instr_table
unfolding instr_table arity assemble_spec put_fields next_field strtol
table_IsEncodable =
    three_fit _ refl (λ a b c. (_, refl))
    & three_fit _ refl (λ a b c. (_, refl))
    & three_fit _ refl (λ a b c. (_, refl))
    & three_fit _ refl (λ a b c. (_, refl))
    & three_fit _ refl (λ a b c. (_, refl))
    & three_fit _ refl (λ a b c. (_, refl))
    & three_fit _ refl (λ a b c. (_, refl))
    & three_fit _ refl (λ a b c. (_, refl))
    & three_fit _ refl (λ a b c. (_, refl))
    & three_fit _ refl (λ a b c. (_, refl))
    & three_fit _ refl (λ a b c. (_, refl))
    & three_fit _ refl (λ a b c. (_, refl))
    & two_fit _ refl (λ a b. (_, refl))
    & two_fit _ refl (λ a b. (_, refl))
    & two_fit _ refl (λ a b. (_, refl))
    & two_fit _ refl (λ a b. (_, refl))
    & two_fit _ refl (λ a b. (_, refl))
    & two_fit _ refl (λ a b. (_, refl))
    & two_fit _ refl (λ a b. (_, refl))
    & two_fit _ refl (λ a b. (_, refl))
    & two_fit _ refl (λ a b. (_, refl))
    & two_fit _ refl (λ a b. (_, refl))
    & two_fit _ refl (λ a b. (_, refl))
    & two_fit _ refl (λ a b. (_, refl))
    & two_fit _ refl (λ a b. (_, refl))
    & two_fit _ refl (λ a b. (_, refl))
    & none_fit _ refl (_, refl)
    & one_fits _ refl (λ a. (_, refl))
    & one_fits _ refl (λ a. (_, refl))
    & two_fit _ refl (λ a b. (_, refl))
    & two_fit _ refl (λ a b. (_, refl))
    & two_fit _ refl (λ a b. (_, refl))
    & two_fit _ refl (λ a b. (_, refl))
    & three_fit _ refl (λ a b c. (_, refl))
    & three_fit _ refl (λ a b c. (_, refl))
    & three_fit _ refl (λ a b c. (_, refl))
    & three_fit _ refl (λ a b c. (_, refl))
    & three_fit _ refl (λ a b c. (_, refl))
    & three_fit _ refl (λ a b c. (_, refl))
    & two_fit _ refl (λ a b. (_, refl))
    & one_fits _ refl (λ a. (_, refl))
    & none_fit _ refl (_, refl)
    & two_fit _ refl (λ a b. (_, refl))
    & two_fit _ refl (λ a b. (_, refl))
    & tt
