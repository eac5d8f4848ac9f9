-- ===== src/Asm/Tokens/Tests.antt =====
-- A small source read and assembled.
use cn.Common.{◌≡◌, refl, none, some, [], ◌∷◌, ◌++◌}
use cn.Instr.Table.{codes}
use cn.Asm.Tokens.{tokenize}

two_lines :
    tokenize 0 (codes "a: add r1, r2, r3 ; sum" ++ 10 ∷ 10 ∷ codes ".data #5")
    ≡ some (
        record {
          linenum = 1;
          label = some (codes "a");
          op = some (codes "add");
          args = codes "r1" ∷ codes "r2" ∷ codes "r3" ∷ [];
        }
        ∷ record { linenum = 3; label = none; op = some (codes ".data"); args = codes "#5" ∷ [] }
        ∷ [])
unfolding tokenize
two_lines = refl
