-- ===== src/Arb/Tags/Opcode.antt =====
-- The opcodes of instructions (`opcode`, src/binary/mod.rs).
use astronomy.Prelude.{ℕ}

abbrev pub const : ℕ
const = 0x00

abbrev pub add : ℕ
add = 0x01

abbrev pub sub : ℕ
sub = 0x02

abbrev pub mul : ℕ
mul = 0x03

abbrev pub div : ℕ
div = 0x04

abbrev pub rem : ℕ
rem = 0x05

abbrev pub and : ℕ
and = 0x06

abbrev pub or : ℕ
or = 0x07

abbrev pub xor : ℕ
xor = 0x08

abbrev pub shl : ℕ
shl = 0x09

abbrev pub shr : ℕ
shr = 0x0a

abbrev pub eq : ℕ
eq = 0x0b

abbrev pub ne : ℕ
ne = 0x0c

abbrev pub lt : ℕ
lt = 0x0d

abbrev pub le : ℕ
le = 0x0e

abbrev pub gt : ℕ
gt = 0x0f

abbrev pub ge : ℕ
ge = 0x10

abbrev pub alloca : ℕ
alloca = 0x11

abbrev pub load : ℕ
load = 0x12

abbrev pub store : ℕ
store = 0x13

abbrev pub ptr_offset : ℕ
ptr_offset = 0x14

abbrev pub ext : ℕ
ext = 0x15

abbrev pub trunc : ℕ
trunc = 0x16

abbrev pub int_to_float : ℕ
int_to_float = 0x17

abbrev pub float_to_int : ℕ
float_to_int = 0x18

abbrev pub ptr_cast : ℕ
ptr_cast = 0x19

abbrev pub call : ℕ
call = 0x1a

abbrev pub construct : ℕ
construct = 0x1b

abbrev pub extract : ℕ
extract = 0x1c

abbrev pub insert : ℕ
insert = 0x1d
