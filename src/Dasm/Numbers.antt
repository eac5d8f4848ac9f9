-- ===== src/Dasm/Numbers.antt =====
-- Numbers that are printed and read again.
use cn.Common.{
  table, table-entry, ℕ, ◌^◌, ◌≤◌, ◌<◌, ◌≡◌, refl, arith, Bool, true, ◌&&◌, List, every, length,
  leb, ◌==◌,
}
use cn.Instr.Fields.{signed_field}
use cn.Text.{strtol_int}
use cn.Asm.Tokens.{issymchar}
use cn.Dasm.{print_unsigned, print_signed}

abbrev tested : ℕ → ℕ → List ℕ → Bool
tested base n text = (strtol_int base text == n) && (every issymchar text && leb (length text) 5)

-- The text is read as the number `n`, and is at most five bytes of a symbol.
pub record Rereads (base n : ℕ) (text : List ℕ) : Type 0 where
  pub value : strtol_int base text ≡ n
  pub symbol : every issymchar text ≡ true
  pub short : length text ≤ 5

tested-Rereads : (base n : ℕ) (text : List ℕ) → tested base n text ≡ true → Rereads base n text
tested-Rereads base n text h = record {
  value = ground arith;
  symbol = ground arith;
  short = ground arith;
}

unsigned_table : table (λ n. tested 0 n (print_unsigned n)) 2048 ≡ true
unfolding table strtol_int print_unsigned
unsigned_table = refl

pub print_unsigned-Rereads : (n : ℕ) → n < 2048 → Rereads 0 n (print_unsigned n)
print_unsigned-Rereads n h =
    tested-Rereads 0 n _ (table-entry (λ k. tested 0 k (print_unsigned k)) 2048 n h unsigned_table)

register_table : table (λ n. tested 10 n (print_unsigned n)) 32 ≡ true
unfolding table strtol_int print_unsigned
register_table = refl

pub register-Rereads : (n : ℕ) → n < 32 → Rereads 10 n (print_unsigned n)
register-Rereads n h =
    tested-Rereads 10 n _ (table-entry (λ k. tested 10 k (print_unsigned k)) 32 n h register_table)

-- A signed field of `bits` bits, printed as an `int`.
abbrev signed_test : ℕ → ℕ → Bool
signed_test bits v = tested 0 (signed_field bits v) (print_signed (signed_field bits v))

signed_table :
    (table (signed_test 11) (2 ^ 11) ≡ true)
    × (table (signed_test 8) (2 ^ 8) ≡ true)
    × (table (signed_test 5) (2 ^ 5) ≡ true)
unfolding table strtol_int print_signed
signed_table = (refl, refl, refl)

module _ (v : ℕ) where
  abbrev pub SignedRereads : ℕ → Type 0
  SignedRereads bits = Rereads 0 (signed_field bits v) (print_signed (signed_field bits v))

  pub signed_eleven-Rereads : v < 2 ^ 11 → SignedRereads 11
  signed_eleven-Rereads h =
      tested-Rereads 0 _ _ (table-entry (signed_test 11) (2 ^ 11) v h signed_table.0)

  pub signed_eight-Rereads : v < 2 ^ 8 → SignedRereads 8
  signed_eight-Rereads h =
      tested-Rereads 0 _ _ (table-entry (signed_test 8) (2 ^ 8) v h signed_table.1)

  pub signed_five-Rereads : v < 2 ^ 5 → SignedRereads 5
  signed_five-Rereads h =
      tested-Rereads 0 _ _ (table-entry (signed_test 5) (2 ^ 5) v h signed_table.2)
