-- ===== src/Core/Valid/Bus.antt =====
-- The instructions of the data memory, the coprocessor bus and the processor mode keep the core
-- valid.
use cn.Common.{◌>>=◌, ℕ, ◌<◌, ◌≤◌, arith, ◌==◌}
use cn.Common.Words.{IsWord, u16}
use cn.Instr.{Decoded}
use cn.Core.{
  State, Output, CpOutput, InterType, gprup, load, loadlnk, store, scond, branch, cpread, trap, rfi,
  sleep, ctlup, privophdl, swihdl, epc, status,
}
use cn.Core.Alu.{alu_exec, add}
use cn.Core.Regs.{gpreg_read, finish, Stage, is_set, in_user_mode, take_trap}
use cn.Core.Memory.{load_request, store_request, exec_memory}
use cn.Core.Coproc.{bus, with_coproc, cp_denied, exec_coproc}
use cn.Core.Mode.{privileged, exec_sleep, exec_mode}
use cn.Core.Status.{get_ll}
use cn.Core.Valid.{IsValid, IsOutput, Keeps, AreValid, regnum_bound}
use cn.Core.Valid.Rules.{
  with_inter, regnum-lt, gpreg_read-Keeps, u16-IsWord, alu_exec-Keeps, if-Keeps, take_trap-IsValid,
  set_ll-IsWord, status_rfi-IsWord, status_trap-IsWord, set_swiarg-IsWord,
}

module _ (d : Decoded) (s : State) (output : Output) (v : IsValid s) (o : IsOutput output) where
  -- A register is read first.
  reading :
      (r : ℕ) (rest : ℕ → Stage)
      → ((x : ℕ) → IsWord x → Keeps AreValid (rest x))
      → Keeps AreValid (gpreg_read s r >>= rest)
  reading r rest keep = gpreg_read-Keeps AreValid s r rest v keep

  load_request-IsOutput : (a : ℕ) → IsWord a → IsOutput (load_request output a)
  load_request-IsOutput a h = record {
    data_out = (o.data_out.0, h);
    instr = o.instr;
    select = o.select;
    addr = o.addr;
    value = o.value;
  }

  store_request-IsOutput : (a x : ℕ) → IsWord a → IsWord x → IsOutput (store_request output a x)
  store_request-IsOutput a x h hx = record {
    data_out = (hx, h);
    instr = o.instr;
    select = o.select;
    addr = o.addr;
    value = o.value;
  }

  bus-IsOutput :
      (c : CpOutput) → c.select < 8 → c.addr < 32 → IsWord c.value → IsOutput (bus output c)
  bus-IsOutput c h ha hx = record {
    data_out = o.data_out;
    instr = o.instr;
    select = h;
    addr = ha;
    value = hx;
  }

  loads :
      (n ns : ℕ) (t : InterType)
      → n < regnum_bound t
      → IsWord ns
      → Keeps AreValid (
          gpreg_read s d.field1 >>= λ x. alu_exec add x (u16 d.field2) >>= λ a.
          finish (record s { regnum = n; newstat = ns; type = t }) (load_request output a))
  loads n ns t hn hs = reading _ _ λ x hx.
      alu_exec-Keeps AreValid add x _ _ hx (u16-IsWord _)
        (λ a ha. (with_inter s n _ ns _ t v hn v.regval hs v.nextpc, load_request-IsOutput a ha))

  stores :
      (n rv : ℕ) (t : InterType)
      → n < regnum_bound t
      → IsWord rv
      → Keeps AreValid (
          gpreg_read s d.field1 >>= λ x. alu_exec add x (u16 d.field2) >>= λ a.
          gpreg_read s d.field0 >>= λ value.
          finish (record s { regnum = n; regval = rv; type = t }) (store_request output a value))
  stores n rv t hn hv = reading _ _ λ x hx.
      alu_exec-Keeps AreValid add x _ _ hx (u16-IsWord _) λ a ha. reading _ _ λ value hx.
        (with_inter s n rv _ _ t v hn hv v.newstat v.nextpc, store_request-IsOutput a value ha hx)

  pub exec_memory-AreValid : d.field0 < 8 → Keeps AreValid (exec_memory d s output)
  unfolding exec_memory
  exec_memory-AreValid h =
      if-Keeps AreValid (d.opcode == 0x15) _ _
        (λ _. loads _ _ loadlnk h (set_ll-IsWord _ 1 v.newstat))
        λ _.
          if-Keeps AreValid (d.opcode == 0x16) _ _ (λ _. loads _ _ load h v.newstat)
            λ _.
              if-Keeps AreValid (d.opcode == 0x17) _ _
                (λ _. stores _ _ store (regnum-lt s v) v.regval)
                λ _.
                  if-Keeps AreValid (is_set (get_ll (s.ctl status))) _ _
                    (λ _. stores _ 1 scond h (omega arith))
                    (λ _. (with_inter s _ 0 _ _ gprup v h (omega arith) v.newstat v.nextpc, o))

  trapped : (np : ℕ) → IsWord np → AreValid (take_trap (record s { nextpc = np })) output
  trapped np h =
      (take_trap-IsValid _ (with_inter s _ _ _ np s.type v v.regnum v.regval v.newstat h), o)

  with_coproc-AreValid :
      (allowed : Stage) → Keeps AreValid allowed → Keeps AreValid (with_coproc d s output allowed)
  unfolding with_coproc
  with_coproc-AreValid allowed h =
      if-Keeps AreValid (in_user_mode s) _ _
        (λ _.
          if-Keeps AreValid (is_set (cp_denied d s)) _ _ (λ _. trapped _ (v.ctl privophdl))
            (λ _. h))
        (λ _. h)

  pub exec_coproc-AreValid :
      d.field0 < 8 → d.field1 < 8 → d.field2 < 32 → Keeps AreValid (exec_coproc d s output)
  unfolding exec_coproc
  exec_coproc-AreValid h h1 h2 =
      let branched = with_inter s _ _ _ _ branch v (regnum-lt s v) v.regval v.newstat v.nextpc in
      if-Keeps AreValid (d.opcode == 0x19) _ _
        (λ _. with_coproc-AreValid _ (
          with_inter s _ _ _ _ cpread v h v.regval v.newstat v.nextpc,
          bus-IsOutput _ (omega arith) (omega arith) o.value,
        ))
        λ _.
          if-Keeps AreValid (d.opcode == 0x1A) _ _
            (λ _.
              with_coproc-AreValid _
                (reading _ _ λ x hx. (branched, bus-IsOutput _ (omega arith) (omega arith) hx)))
            λ _.
              with_coproc-AreValid _
                (reading _ _ λ x hx. (branched, bus-IsOutput _ (omega arith) o.addr hx))

  privileged-AreValid :
      (allowed : Stage) → Keeps AreValid allowed → Keeps AreValid (privileged s output allowed)
  privileged-AreValid allowed h =
      if-Keeps AreValid (in_user_mode s) _ _ (λ _. trapped _ (v.ctl privophdl)) (λ _. h)

  pub exec_sleep-AreValid : Keeps AreValid (exec_sleep d s output)
  unfolding exec_sleep
  exec_sleep-AreValid =
      privileged-AreValid _
        (with_inter s _ _ _ _ sleep v (regnum-lt s v) v.regval v.newstat v.nextpc, o)

  pub exec_mode-AreValid :
      (0x1E ≤ d.opcode → (d.field0 < 8) × (d.field1 < 32))
      → 0x1C ≤ d.opcode
      → Keeps AreValid (exec_mode d s output)
  unfolding exec_mode
  exec_mode-AreValid h ge =
      if-Keeps AreValid (d.opcode == 0x1C) _ _
        (λ _. (
          with_inter s _ _ _ _ trap v (regnum-lt s v) (u16-IsWord _)
              (status_trap-IsWord _ (set_swiarg-IsWord _ d.field0 v.newstat)) (v.ctl swihdl),
          o,
        ))
        λ e.
          if-Keeps AreValid (d.opcode == 0x1D) _ _
            (λ _. privileged-AreValid _ (
              with_inter s _ _ _ _ rfi v (regnum-lt s v) v.regval (status_rfi-IsWord _ v.newstat)
                  (v.ctl epc),
              o,
            ))
            λ e'.
              let fields : (d.field0 < 8) × (d.field1 < 32) = h (ground arith) in
              if-Keeps AreValid (d.opcode == 0x1E) _ _
                (λ _.
                  privileged-AreValid _
                    (with_inter s _ _ _ _ gprup v fields.0 (v.ctl _) v.newstat v.nextpc, o))
                λ _. privileged-AreValid _ (
                  reading _ _
                    λ x hx. (with_inter s _ x _ _ ctlup v fields.1 hx v.newstat v.nextpc, o))
