-- ===== src/Hart/Privilege/Cases.antt =====
-- Every case of `stepInstruction` (src/rv32/hart.cpp) but SYSTEM leaves the mode and the CSRs, or
-- raises one exception.
use riscv32_emulator.Prelude.{ℕ, Bool, true, false, u32, ◌+◌, Option, some, none, if◌then◌else◌}
use riscv32_emulator.Outcome.{pure, modify, ◌>>◌, returns}
use riscv32_emulator.Decoder.Types.{Opcode, lb, lh, lw, lbu, lhu, sb, sh, sw, lr_w, sc_w, jal, jalr}
use riscv32_emulator.Instruction.{rd, rs1, rs2, i_immediate, s_immediate}
use riscv32_emulator.Memory.Basic.{basic_memory_handler}
use riscv32_emulator.Memory.Manager
use riscv32_emulator.Hart.State.{
  Hart, get_register, set_register, read_byte, read_halfword, read_word, write_word, read, write,
  load_misaligned, load_page_fault, str_amo_misaligned, str_amo_page_fault,
}
use riscv32_emulator.Hart.Alu.{amo_value}
use riscv32_emulator.Hart.LoadStore.{
  load_case, exec_load, store_case, exec_store, amo_case, exec_amo, is_lr, is_swap,
}
use riscv32_emulator.Hart.Control.{
  branch_taken, jump_to, exec_branch, jump_case, exec_jump, write_rd, exec_op_imm, exec_op,
  exec_op_ui,
}
use riscv32_emulator.Hart.Privilege.Effect.{
  Quiet, quiet, Follows, IsQuiet, bind-Follows, pure-Follows, modify-Follows, modify-IsQuiet,
  if-Follows, lift-IsQuiet, set_register-IsQuiet, set_register-Follows, on_mem-IsQuiet,
  IsQuiet-Follows, aligned-Follows, decoded-Follows, translated-Follows,
}

module _ {h : Hart} where
  read_byte-IsQuiet : (addr : ℕ) → IsQuiet h (read_byte addr)
  read_byte-IsQuiet addr = lift-IsQuiet (λ s. Manager.read_byte basic_memory_handler s.mem addr)

  read_halfword-IsQuiet : (addr : ℕ) → IsQuiet h (read_halfword addr)
  read_halfword-IsQuiet addr =
      lift-IsQuiet (λ s. Manager.read_halfword basic_memory_handler s.mem addr)

  read_word-IsQuiet : (addr : ℕ) → IsQuiet h (read_word addr)
  read_word-IsQuiet addr = lift-IsQuiet (λ s. Manager.read_word basic_memory_handler s.mem addr)

  load_case-Follows : (o : Opcode) (instr addr : ℕ) → Follows h (load_case o instr addr)
  unfolding load_case
  load_case-Follows lb instr addr =
      bind-Follows (read_byte addr) _ (read_byte-IsQuiet addr)
        (λ v. set_register-Follows (rd instr) _)
  load_case-Follows lh instr addr = aligned-Follows 0b1 addr load_misaligned _ (
      bind-Follows (read_halfword addr) _ (read_halfword-IsQuiet addr)
        (λ v. set_register-Follows (rd instr) _))
  load_case-Follows lw instr addr = aligned-Follows 0b11 addr load_misaligned _ (
      bind-Follows (read_word addr) _ (read_word-IsQuiet addr)
        (λ v. set_register-Follows (rd instr) _))
  load_case-Follows lbu instr addr =
      bind-Follows (read_byte addr) _ (read_byte-IsQuiet addr)
        (λ v. set_register-Follows (rd instr) _)
  load_case-Follows lhu instr addr = aligned-Follows 0b1 addr load_misaligned _ (
      bind-Follows (read_halfword addr) _ (read_halfword-IsQuiet addr)
        (λ v. set_register-Follows (rd instr) _))
  load_case-Follows _ instr addr = pure-Follows

  pub exec_load-Follows : (fuel instr : ℕ) → Follows h (exec_load fuel instr)
  unfolding exec_load
  exec_load-Follows fuel instr s q =
      translated-Follows fuel (u32 (get_register (rs1 instr) s + i_immediate instr)) read
        load_page_fault _
        (λ addr.
          decoded-Follows instr (λ o. load_case o instr addr) (λ o. load_case-Follows o instr addr))
        s q

  store_case-Follows : (o : Opcode) (addr v : ℕ) → Follows h (store_case o addr v)
  unfolding store_case
  store_case-Follows sb addr v = IsQuiet-Follows _ (on_mem-IsQuiet _)
  store_case-Follows sh addr v =
      aligned-Follows 0b1 addr str_amo_misaligned _ (IsQuiet-Follows _ (on_mem-IsQuiet _))
  store_case-Follows sw addr v =
      aligned-Follows 0b11 addr str_amo_misaligned _ (IsQuiet-Follows _ (on_mem-IsQuiet _))
  store_case-Follows _ addr v = pure-Follows

  pub exec_store-Follows : (fuel instr : ℕ) → Follows h (exec_store fuel instr)
  unfolding exec_store
  exec_store-Follows fuel instr s q =
      translated-Follows fuel (u32 (get_register (rs1 instr) s + s_immediate instr)) write
        str_amo_page_fault _
        (λ addr.
          decoded-Follows instr (λ o. store_case o addr (get_register (rs2 instr) s))
            (λ o. store_case-Follows o addr _))
        s q

  write_rd-Follows : (instr : ℕ) (v : Option ℕ) → Follows h (write_rd instr v)
  write_rd-Follows instr (some v) = set_register-Follows (rd instr) v
  write_rd-Follows instr none = pure-Follows

  pub exec_op-Follows : (instr : ℕ) → Follows h (exec_op instr)
  unfolding exec_op
  exec_op-Follows instr s q = decoded-Follows instr _ (λ o. write_rd-Follows instr _) s q

  pub exec_op_imm-Follows : (instr : ℕ) → Follows h (exec_op_imm instr)
  unfolding exec_op_imm
  exec_op_imm-Follows instr s q = decoded-Follows instr _ (λ o. write_rd-Follows instr _) s q

  pub exec_op_ui-Follows : (instr : ℕ) → Follows h (exec_op_ui instr)
  unfolding exec_op_ui
  exec_op_ui-Follows instr s q = decoded-Follows instr _ (λ o. write_rd-Follows instr _) s q

  jump_to-Quiet : (target : ℕ) (s : Hart) → Quiet h s → Quiet h (jump_to target s)
  unfolding jump_to
  jump_to-Quiet target s q = record { mode = q.mode; csr = q.csr }

  pub exec_branch-Follows : (instr : ℕ) → Follows h (exec_branch instr)
  unfolding exec_branch
  exec_branch-Follows instr s q =
      decoded-Follows instr _
        (λ o.
          if-Follows (branch_taken o (get_register (rs1 instr) s) (get_register (rs2 instr) s))
            (modify-Follows _ (jump_to-Quiet _)) pure-Follows)
        s q

  jump_case-Follows : (o : Opcode) (instr : ℕ) → Follows h (jump_case o instr)
  unfolding jump_case set_register
  jump_case-Follows jal instr s q = returns tt (quiet (record { mode = q.mode; csr = q.csr }))
  jump_case-Follows jalr instr s q = returns tt (quiet (record { mode = q.mode; csr = q.csr }))
  jump_case-Follows _ instr s q = pure-Follows s q

  pub exec_jump-Follows : (instr : ℕ) → Follows h (exec_jump instr)
  unfolding exec_jump
  exec_jump-Follows instr =
      bind-Follows (modify (λ s. record s { should_increment_pc = false })) _
        (modify-IsQuiet _ (λ s q. record { mode = q.mode; csr = q.csr }))
        (λ _. decoded-Follows instr _ (λ o. jump_case-Follows o instr))

  -- An operation on the word of memory, with its result if it has one.
  operate-Follows :
      (o : Opcode) (instr addr val : ℕ) (result : Option ℕ)
      → Follows h (elim result [
        | some temp ↦ do
          modify (if is_swap o then set_register (rs2 instr) val else λ s. s)
          write_word addr temp
          modify (set_register (rd instr) val)
        | none ↦ pure tt
      ])
  operate-Follows o instr addr val none = pure-Follows
  operate-Follows o instr addr val (some temp) =
      bind-Follows (modify (if is_swap o then set_register (rs2 instr) val else λ s. s)) _
        (swap-IsQuiet (is_swap o))
        (λ _.
          bind-Follows (write_word addr temp) _ (on_mem-IsQuiet _)
            (λ _. set_register-Follows (rd instr) val))
    where
      swap-IsQuiet :
          (b : Bool) → IsQuiet h (modify (if b then set_register (rs2 instr) val else λ s. s))
      swap-IsQuiet true = set_register-IsQuiet (rs2 instr) val
      swap-IsQuiet false = modify-IsQuiet _ (λ s q. q)

  reserve-Follows : (b : Bool) → Follows h (modify (λ s. record s { reservation_set_valid = b }))
  reserve-Follows b = modify-Follows _ (λ s q. record { mode = q.mode; csr = q.csr })

  amo_case-Follows : (o : Opcode) (instr addr val : ℕ) → Follows h (amo_case o instr addr val)
  unfolding amo_case
  amo_case-Follows lr_w instr addr val s q =
      bind-Follows (modify (set_register (rd instr) val)) _ (set_register-IsQuiet (rd instr) val)
        (λ _. reserve-Follows true) s q
  amo_case-Follows sc_w instr addr val s q =
      if-Follows s.reservation_set_valid
        (bind-Follows (write_word addr (get_register (rs2 instr) s)) _ (on_mem-IsQuiet _) (λ _.
          bind-Follows (modify (set_register (rd instr) 0)) _ (set_register-IsQuiet (rd instr) 0)
            (λ _. reserve-Follows false)))
        (set_register-Follows (rd instr) 1) s q
  amo_case-Follows o instr addr val s q =
      operate-Follows o instr addr val (amo_value o val (get_register (rs2 instr) s)) s q

  pub exec_amo-Follows : (fuel instr : ℕ) → Follows h (exec_amo fuel instr)
  unfolding exec_amo
  exec_amo-Follows fuel instr s q =
      decoded-Follows instr _
        (λ o.
          aligned-Follows 0b11 (get_register (rs1 instr) s)
            (if is_lr o then load_misaligned else str_amo_misaligned) _
            (translated-Follows fuel (get_register (rs1 instr) s) (if is_lr o then read else write)
              (if is_lr o then load_page_fault else str_amo_page_fault) _
              (λ at.
                bind-Follows (read_word at) _ (read_word-IsQuiet at)
                  (λ val. amo_case-Follows o instr at val))))
        s q
