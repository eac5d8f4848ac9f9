-- ===== src/Dasm/Rows.antt =====
-- The row of the table for an opcode and a subcode.
use cn.Common.{
  All-get_elem?, table, table-entry, ℕ, ◌+◌, ◌*◌, ◌<◌, ◌≤◌, ◌≡◌, refl, arith, sym, Bool, true,
  false, ◌&&◌, ◌||◌, Option, none, some, List, [], All, ◌&◌, length, get_elem?, ltb, ◌==◌,
  if◌then◌else◌, Option-cases, inl, inr,
}
use cn.Instr.{
  InstrFmt, u3u3u3u2, u3_2u4u2, u3u8, u3_8, blank_11, s11, u3s8, u3u3s5, u3u3u5, u3u3_5, u11,
  u3_3u5, invalid, fmt_of,
}
use cn.Instr.Table.{InstrSpec, codes, instr_table}
use cn.Instr.Assemble.{find_spec, same_nmemonic, resolve_nmemonic}
use cn.Instr.Assemble.Names.{resolve_nmemonic-All}
use cn.Text.{same_text}
use cn.Text.Equality.{same_text-eq}
use cn.Asm.Arity.Table.{IsEncodable, table_IsEncodable}
use cn.Asm.Tokens.Reading.{IsSymbol}

-- The syntax that goes with a format.
abbrev pub syntax_of : InstrFmt → List ℕ
syntax_of u3u3u3u2 = codes "rrr"
syntax_of u3_2u4u2 = codes "ru4"
syntax_of u3u8 = codes "ru8"
syntax_of u3_8 = codes "r"
syntax_of blank_11 = []
syntax_of s11 = codes "s11"
syntax_of u3s8 = codes "rs8"
syntax_of u3u3s5 = codes "rrs5"
syntax_of u3u3u5 = codes "rcx"
syntax_of u3u3_5 = codes "rc"
syntax_of u11 = codes "u11"
syntax_of u3_3u5 = codes "rq"
syntax_of invalid = []

-- What decoding gives as the subcode of a row.
abbrev pub decoded_subcode : InstrSpec → ℕ
decoded_subcode spec = if spec.has_subcode then spec.subcode else 0

-- `spec` is the row of the opcode and the subcode.
pub record IsRow (opcode subcode : ℕ) (spec : InstrSpec) : Type 0 where
  pub opcode_eq : spec.opcode ≡ opcode
  pub subcode_eq : spec.subcode ≡ subcode
  pub decoded_eq : decoded_subcode spec ≡ subcode
  pub syntax_eq : spec.syntax ≡ syntax_of (fmt_of opcode)
  pub symbol : IsSymbol spec.nmemonic
  pub short : length spec.nmemonic ≤ 5
  pub no_data : same_text spec.nmemonic (codes ".data") ≡ false
  pub no_org : same_text spec.nmemonic (codes ".org") ≡ false
  pub found : find_spec spec.nmemonic instr_table ≡ some spec
  pub resolved : resolve_nmemonic opcode subcode ≡ some spec.nmemonic
  pub encodable : IsEncodable spec

-- What of this does not need the whole table.
record IsNamed (spec : InstrSpec) : Type 0 where
  symbol : IsSymbol spec.nmemonic
  short : length spec.nmemonic ≤ 5
  no_data : same_text spec.nmemonic (codes ".data") ≡ false
  no_org : same_text spec.nmemonic (codes ".org") ≡ false
  found : find_spec spec.nmemonic instr_table ≡ some spec

abbrev named :
    (spec : InstrSpec)
    → IsSymbol spec.nmemonic
    → length spec.nmemonic ≤ 5
    → (same_text spec.nmemonic (codes ".data") ≡ false)
      × (same_text spec.nmemonic (codes ".org") ≡ false)
    → find_spec spec.nmemonic instr_table ≡ some spec
    → IsNamed spec
named spec symbol short (no_data, no_org) found = record {
  symbol = symbol;
  short = short;
  no_data = no_data;
  no_org = no_org;
  found = found;
}

table_IsNamed : All IsNamed instr_table
unfolding instr_table find_spec same_nmemonic same_text
table_IsNamed =
    named _ refl (omega arith) (refl, refl) refl
    & named _ refl (omega arith) (refl, refl) refl
    & named _ refl (omega arith) (refl, refl) refl
    & named _ refl (omega arith) (refl, refl) refl
    & named _ refl (omega arith) (refl, refl) refl
    & named _ refl (omega arith) (refl, refl) refl
    & named _ refl (omega arith) (refl, refl) refl
    & named _ refl (omega arith) (refl, refl) refl
    & named _ refl (omega arith) (refl, refl) refl
    & named _ refl (omega arith) (refl, refl) refl
    & named _ refl (omega arith) (refl, refl) refl
    & named _ refl (omega arith) (refl, refl) refl
    & named _ refl (omega arith) (refl, refl) refl
    & named _ refl (omega arith) (refl, refl) refl
    & named _ refl (omega arith) (refl, refl) refl
    & named _ refl (omega arith) (refl, refl) refl
    & named _ refl (omega arith) (refl, refl) refl
    & named _ refl (omega arith) (refl, refl) refl
    & named _ refl (omega arith) (refl, refl) refl
    & named _ refl (omega arith) (refl, refl) refl
    & named _ refl (omega arith) (refl, refl) refl
    & named _ refl (omega arith) (refl, refl) refl
    & named _ refl (omega arith) (refl, refl) refl
    & named _ refl (omega arith) (refl, refl) refl
    & named _ refl (omega arith) (refl, refl) refl
    & named _ refl (omega arith) (refl, refl) refl
    & named _ refl (omega arith) (refl, refl) refl
    & named _ refl (omega arith) (refl, refl) refl
    & named _ refl (omega arith) (refl, refl) refl
    & named _ refl (omega arith) (refl, refl) refl
    & named _ refl (omega arith) (refl, refl) refl
    & named _ refl (omega arith) (refl, refl) refl
    & named _ refl (omega arith) (refl, refl) refl
    & named _ refl (omega arith) (refl, refl) refl
    & named _ refl (omega arith) (refl, refl) refl
    & named _ refl (omega arith) (refl, refl) refl
    & named _ refl (omega arith) (refl, refl) refl
    & named _ refl (omega arith) (refl, refl) refl
    & named _ refl (omega arith) (refl, refl) refl
    & named _ refl (omega arith) (refl, refl) refl
    & named _ refl (omega arith) (refl, refl) refl
    & named _ refl (omega arith) (refl, refl) refl
    & named _ refl (omega arith) (refl, refl) refl
    & named _ refl (omega arith) (refl, refl) refl
    & tt

abbrev row_number : ℕ → ℕ → ℕ
row_number opcode subcode = if ltb opcode 4 then 4 * opcode + subcode else opcode + 12

abbrev matches : ℕ → ℕ → InstrSpec → Bool
matches opcode subcode spec =
    spec.opcode == opcode
    && (spec.subcode == subcode
        && (decoded_subcode spec == subcode && same_text spec.syntax (syntax_of (fmt_of opcode))))

abbrev row_matches : ℕ → ℕ → Option InstrSpec → Bool
row_matches opcode subcode none = false
row_matches opcode subcode (some spec) = matches opcode subcode spec

row_test : ℕ → ℕ → Bool
row_test opcode subcode =
    (ltb 3 opcode && ltb 0 subcode)
    || row_matches opcode subcode (get_elem? instr_table (row_number opcode subcode))

rows_tested : table (λ opcode. table (row_test opcode) 4) 32 ≡ true
unfolding table row_test instr_table same_text fmt_of
rows_tested = refl

tested_row :
    (opcode subcode : ℕ) (spec : InstrSpec)
    → (4 ≤ opcode → subcode ≡ 0)
    → get_elem? instr_table (row_number opcode subcode) ≡ some spec
    → row_test opcode subcode ≡ true
    → matches opcode subcode spec ≡ true
unfolding row_test
tested_row opcode subcode spec zeros e h =
    let used : (ltb 3 opcode && ltb 0 subcode) ≡ false = ground (arith, zeros) in
    let h' = (rw (used, e) at h) in h'

IsRow-matches :
    (opcode subcode : ℕ) (spec : InstrSpec) (i : ℕ)
    → get_elem? instr_table i ≡ some spec
    → matches opcode subcode spec ≡ true
    → IsRow opcode subcode spec
IsRow-matches opcode subcode spec i e h =
    let row = All-get_elem? IsNamed instr_table i table_IsNamed e in
    let eq : spec.opcode ≡ opcode = ground arith in
    let eq' : spec.subcode ≡ subcode = ground arith in
    record {
      opcode_eq = eq;
      subcode_eq = eq';
      decoded_eq = ground arith;
      syntax_eq = same_text-eq spec.syntax _ (ground arith);
      symbol = row.symbol;
      short = row.short;
      no_data = row.no_data;
      no_org = row.no_org;
      found = row.found;
      resolved =
          rw (sym eq, sym eq')
            (All-get_elem? (λ s. resolve_nmemonic s.opcode s.subcode ≡ some s.nmemonic) instr_table
              i resolve_nmemonic-All e);
      encodable = All-get_elem? IsEncodable instr_table i table_IsEncodable e;
    }

-- Every opcode of five bits has a row, with each of its subcodes.
pub row_of :
    (opcode subcode : ℕ)
    → opcode < 32
    → subcode < 4
    → (4 ≤ opcode → subcode ≡ 0)
    → (spec : InstrSpec) × IsRow opcode subcode spec
unfolding row_test
row_of opcode subcode ho hs zeros =
    let tested =
      table-entry (row_test opcode) 4 subcode hs
        (table-entry (λ k. table (row_test k) 4) 32 opcode ho rows_tested) in
    elim (Option-cases (get_elem? instr_table (row_number opcode subcode))) [
      | inl e ↦ absurd (ground (arith, zeros))
      | inr (spec, e) ↦ (
        spec,
        IsRow-matches opcode subcode spec _ e (tested_row opcode subcode spec zeros e tested),
      )
    ]
