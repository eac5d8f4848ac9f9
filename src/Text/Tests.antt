-- ===== src/Text/Tests.antt =====
-- Numbers read from texts.
use cn.Common.{◌≡◌, refl}
use cn.Instr.Table.{codes}
use cn.Text.{strtol_int}

hexadecimal : strtol_int 0 (codes "0x1fG") ≡ 0x1F
unfolding strtol_int
hexadecimal = refl

octal : strtol_int 0 (codes "-010") ≡ 0xFFFFFFF8
unfolding strtol_int
octal = refl

decimal : strtol_int 10 (codes "010") ≡ 10
unfolding strtol_int
decimal = refl

no_digit : strtol_int 0 (codes "0xg") ≡ 0
unfolding strtol_int
no_digit = refl
