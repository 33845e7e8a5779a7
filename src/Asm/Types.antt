-- ===== src/Asm/Types.antt =====
-- Registers, operands and items of include/arch/x86_64/asm.h.
use ivan_cc.Prelude.{ℕ, ℤ, pos, List, []}
use ivan_cc.Prelude.Name.{Name}

pub data Reg : Type 0 where
  rax rcx rdx rbx rsp rbp rsi rdi r8 r9 r10 r11 r12 r13 r14 r15 : Reg

-- The value of the enumerator.
unfoldable pub reg_num : Reg → ℕ
reg_num Reg.rax = 0
reg_num Reg.rcx = 1
reg_num Reg.rdx = 2
reg_num Reg.rbx = 3
reg_num Reg.rsp = 4
reg_num Reg.rbp = 5
reg_num Reg.rsi = 6
reg_num Reg.rdi = 7
reg_num Reg.r8 = 8
reg_num Reg.r9 = 9
reg_num Reg.r10 = 10
reg_num Reg.r11 = 11
reg_num Reg.r12 = 12
reg_num Reg.r13 = 13
reg_num Reg.r14 = 14
reg_num Reg.r15 = 15

-- A width is a number of bits: the code generator also computes one from a type's size.
abbrev pub Width : Type 0
Width = ℕ

abbrev pub width_none : Width
width_none = 0

abbrev pub width_8 : Width
width_8 = 8

abbrev pub width_32 : Width
width_32 = 32

abbrev pub width_64 : Width
width_64 = 64

pub data Op : Type 0 where
  mov movsx lea push pop add sub imul idiv cqo neg cmp sete setne setl setle movzb : Op
  jmp je jne call ret syscall : Op

pub data OperandKind : Type 0 where
  none reg imm mem rip label : OperandKind

-- `Asm_x86_64_Operand`, whose fields are zero where the kind does not use them.
pub record Operand : Type 0 where
  pub kind : OperandKind
  pub reg : Reg
  pub imm : ℤ
  pub disp : ℤ
  pub label : Name
  pub width : Width

-- An operand that calloc leaves zero.
abbrev pub no_operand : Operand
no_operand = record {
  kind = OperandKind.none;
  reg = Reg.rax;
  imm = pos 0;
  disp = pos 0;
  label = [];
  width = width_none;
}

-- `Asm_x86_64_Item`, a constructor for each `ai_kind`: an instruction has its opcode, destination and source.
pub data Item : Type 0 where
  instr : Op → Operand → Operand → Item
  label : Name → Item
  globl : Name → Item
  section : Name → ℕ → ℕ → Item
  bytes : List ℕ → Item
  directive : Name → Item
