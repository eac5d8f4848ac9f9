-- ===== src/Utils/Tests.antt =====
-- The theorems about bit fields applied to words.
use cn.Common.{◌%◌, ◌*◌, ◌/◌, ◌^◌, ◌≡◌, arith}
use cn.Utils.{field_getbits16}
use cn.Utils.Fields.{field_getbits16-window}

field_getbits16-window_example : field_getbits16 0xABCD 4 4 ≡ 0xABCD / 2 ^ 4 / 2 ^ 4 % 2 ^ 4 * 2 ^ 4
field_getbits16-window_example = field_getbits16-window 0xABCD 4 4 (omega arith)
