-- ===== src/MemAcc/Spaces.antt =====
-- types.go: the values of the type MemSpaceAcc, sets of memory spaces with one bit for each.
use coresight.Prelude.{ℕ}

abbrev pub no_space : ℕ
no_space = 0x0

abbrev pub el1s : ℕ
el1s = 0x1

abbrev pub el1n : ℕ
el1n = 0x2

abbrev pub el2 : ℕ
el2 = 0x4

abbrev pub el3 : ℕ
el3 = 0x8

abbrev pub el2s : ℕ
el2s = 0x10

abbrev pub el1r : ℕ
el1r = 0x20

abbrev pub el2r : ℕ
el2r = 0x40

abbrev pub root : ℕ
root = 0x80

abbrev pub any_s : ℕ
any_s = 0x19

abbrev pub any_n : ℕ
any_n = 0x6

abbrev pub any_r : ℕ
any_r = 0x60

abbrev pub any_space : ℕ
any_space = 0xff
