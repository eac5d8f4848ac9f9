-- ===== src/Interp/Tests.antt =====
-- Lines of commands that are interpreted, and the theorems about them applied.
use cn.Common.{ℕ, [], ◌∷◌, List, Option, none, some, true, false, All, Holds, ◌≡◌, refl, arith}
use cn.Core.{state_init, input_init, output_init}
use cn.CpIf.{CpHdr}
use cn.Memif.{sim_memif_init}
use cn.Instr.Table.{codes}
use cn.Sim.{System, reset_core}
use cn.Sim.Valid.{IsSystem}
use cn.Sim.Reset.{reset_core-IsSystem}
use cn.Interp.{Session, interpret}
use cn.Interp.Split.{split}
use cn.Interp.Split.Pieces.{Gives, IsSplit, keep, pieces, split-IsSplit}
use cn.Interp.Valid.{IsByte, Keeps, interpret-Keeps}

abbrev tab_first : List ℕ
tab_first = 97 ∷ 9 ∷ 98 ∷ 32 ∷ 32 ∷ 99 ∷ []

-- A tab before a blank does not separate.
tab_first-split :
    split tab_first (32 ∷ 9 ∷ []) false 16
    ≡ some (record { is_zero = true; args = (97 ∷ 9 ∷ 98 ∷ []) ∷ (99 ∷ []) ∷ []; lineout = none })
unfolding split
tab_first-split = refl

split-IsSplit_example :
    Gives
      (IsSplit (32 ∷ 9 ∷ []) false 1 (keep false (pieces (32 ∷ 9 ∷ []) tab_first)))
      (split tab_first (32 ∷ 9 ∷ []) false 1)
split-IsSplit_example = split-IsSplit tab_first (32 ∷ 9 ∷ []) false 1

abbrev hdr : ℕ → CpHdr
hdr n = record { cpnum = n; regs = λ i. 0 }

abbrev powered : System
powered = record {
  core_state = state_init;
  core_output = output_init;
  core_input = input_init;
  dmem_state = sim_memif_init 4;
  imem_state = sim_memif_init 4;
  physmem = 7 ∷ 8 ∷ 9 ∷ [];
  coprocs = record {
    timer = hdr 0;
    nvram = record {
      hdr = hdr 1;
      image = 10 ∷ [];
      datalen = 2;
      delay = 0;
      inst_pend = 0;
      addr_pend = 0;
      val_pend = 0;
    };
    uart = record {
      hdr = hdr 2;
      fifo_en = true;
      fifo_len = 16;
      in_box = [];
      out_box = [];
      tx_raised = false;
      rx_raised = false;
    };
  };
}

abbrev session : Session
session = record { system = reset_core powered; g_continue = true }

session-IsSystem : IsSystem session.system
session-IsSystem =
    reset_core-IsSystem powered (omega arith, (omega arith, (omega arith, tt)))
      (record {
        timer = λ i. omega arith;
        nvram = record {
          regs = λ i. omega arith;
          image = (omega arith, tt);
          val_pend = omega arith;
        };
        uart = record { regs = λ i. omega arith; in_box = tt };
      })

-- Every file is an image of one word and a half.
abbrev one_file : List ℕ → Option (List ℕ)
one_file path = some (0x34 ∷ 0x12 ∷ 0x56 ∷ [])

one_file-All : (path image : List ℕ) → one_file path ≡ some image → All IsByte image
one_file-All path image e =
    let same : image ≡ 0x34 ∷ 0x12 ∷ 0x56 ∷ [] = cc in
    rw same (omega arith, (omega arith, (omega arith, tt)))

interpret-Keeps_example :
    Holds Keeps (interpret one_file 2 (codes "load a.img 1; goto 1; cycle 2; read 1") session)
interpret-Keeps_example =
    interpret-Keeps one_file one_file-All 2 (codes "load a.img 1; goto 1; cycle 2; read 1") session
      session-IsSystem

-- The word after the first of a line of blanks has not been set.
blank_line : interpret one_file 2 (32 ∷ []) session ≡ none
unfolding interpret
blank_line = refl
