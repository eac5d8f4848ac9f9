-- ===== src/Core/Valid/Stages.antt =====
-- The instructions that compute and that branch keep the core valid.
use cn.Common.{◌>>=◌, ℕ, Bool, ◌<◌, arith, not, ◌==◌, if◌then◌else◌}
use cn.Common.Words.{IsWord, u16}
use cn.Instr.{Decoded}
use cn.Core.{State, Output, InterType, gprup, branch, brlink}
use cn.Core.Alu.{AluOp, alu_exec, add}
use cn.Core.Regs.{Stage, gpreg_read, finish}
use cn.Core.Compute.{gpr_update, immed_arg, exec_compute}
use cn.Core.Branch.{branch_taken, exec_branch}
use cn.Core.Valid.{IsValid, IsOutput, Keeps, AreValid, regnum_bound}
use cn.Core.Valid.Rules.{
  with_inter, regnum-lt, gpreg_read-Keeps, u16-IsWord, alu_exec-Keeps, if-Keeps,
}

immed_arg-IsWord : (opcode field : ℕ) → IsWord (immed_arg opcode field)
immed_arg-IsWord opcode field = ground arith

module _ (d : Decoded) (s : State) (output : Output) (v : IsValid s) (o : IsOutput output) where
  -- A register is read first.
  reading :
      (r : ℕ) (rest : ℕ → Stage)
      → ((x : ℕ) → IsWord x → Keeps AreValid (rest x))
      → Keeps AreValid (gpreg_read s r >>= rest)
  reading r rest keep = gpreg_read-Keeps AreValid s r rest v keep

  gpr_update-AreValid : (n r : ℕ) → n < 8 → IsWord r → AreValid (gpr_update s n r) output
  gpr_update-AreValid n r h hr = (with_inter s n r _ _ gprup v h hr v.newstat v.nextpc, o)

  -- Every instruction that computes into its first field.
  computed :
      (op : AluOp) (x y : ℕ)
      → d.field0 < 8
      → IsWord x
      → IsWord y
      → Keeps AreValid (alu_exec op x y >>= λ r. finish (gpr_update s d.field0 r) output)
  computed op x y h hx hy =
      alu_exec-Keeps AreValid op x y _ hx hy (λ r hr. gpr_update-AreValid d.field0 r h hr)

  pub exec_compute-AreValid : d.field0 < 8 → Keeps AreValid (exec_compute d s output)
  unfolding exec_compute
  exec_compute-AreValid h =
      if-Keeps AreValid (d.opcode == 0) _ _
        (λ _. reading _ _ λ x hx. reading _ _ λ y hy. computed _ x y h hx hy)
        λ _.
          if-Keeps AreValid (d.opcode == 1) _ _
            (λ _. reading _ _ λ x hx. reading _ _ λ y hy. computed _ x y h hx hy)
            λ _.
              if-Keeps AreValid (d.opcode == 2) _ _
                (λ _. reading _ _ λ x hx. reading _ _ λ y hy. computed _ x y h hx hy)
                λ _.
                  if-Keeps AreValid (d.opcode == 3) _ _
                    (λ _. reading _ _ λ x hx. computed _ x _ h hx (u16-IsWord _))
                    λ _.
                      if-Keeps AreValid (d.opcode == 4) _ _
                        (λ _. gpr_update-AreValid _ _ h (u16-IsWord d.field1))
                        λ _.
                          reading _ _
                            λ x hx. computed _ x _ h hx (immed_arg-IsWord d.opcode d.field1)

  -- A target that the ALU adds up.
  jumped :
      (x y n rv : ℕ) (t : InterType)
      → n < regnum_bound t
      → IsWord rv
      → IsWord x
      → IsWord y
      → Keeps AreValid (
          alu_exec add x y >>= λ r.
          finish (record s { regnum = n; regval = rv; nextpc = r; type = t }) output)
  jumped x y n rv t hn hrv hx hy =
      alu_exec-Keeps AreValid add x y _ hx hy
        (λ r hr. (with_inter s n rv s.newstat r t v hn hrv v.newstat hr, o))

  not_taken : AreValid (record s { type = branch }) output
  not_taken = (with_inter s _ _ _ _ branch v (regnum-lt s v) v.regval v.newstat v.nextpc, o)

  conditional :
      (b : Bool)
      → Keeps AreValid
          (if b then branch_taken d s output else finish (record s { type = branch }) output)
  conditional b =
      if-Keeps AreValid b (branch_taken d s output) (finish (record s { type = branch }) output)
        (λ _. jumped (u16 d.field1) s.pc _ _ branch (regnum-lt s v) v.regval (u16-IsWord _) v.pc)
        (λ _. not_taken)

  pub exec_branch-AreValid : Keeps AreValid (exec_branch d s output)
  unfolding exec_branch
  exec_branch-AreValid =
      let lt = regnum-lt s v in
      if-Keeps AreValid (d.opcode == 0x0F) _ _
        (λ _. jumped _ _ _ _ branch lt v.regval v.pc (u16-IsWord _))
        λ _.
          if-Keeps AreValid (d.opcode == 0x10) _ _
            (λ _. jumped _ _ 7 _ gprup (omega arith) (u16-IsWord _) v.pc (u16-IsWord _))
            λ _.
              if-Keeps AreValid (d.opcode == 0x11) _ _
                (λ _. reading _ _ λ x hx. conditional (x == 0))
                λ _.
                  if-Keeps AreValid (d.opcode == 0x12) _ _
                    (λ _. reading _ _ λ x hx. conditional (not (x == 0)))
                    λ _.
                      if-Keeps AreValid (d.opcode == 0x13) _ _
                        (λ _.
                          reading _ _ λ x hx. jumped x _ _ _ branch lt v.regval hx (u16-IsWord _))
                        λ _. reading _ _ λ x hx.
                          jumped x _ 7 _ brlink (omega arith) (u16-IsWord _) hx (u16-IsWord _)
