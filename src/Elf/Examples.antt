-- ===== src/Elf/Examples.antt =====
-- An object with two sections and three symbols.
use gsdb.Common.{◌≡◌, refl, arith, [], ◌∷◌, some}
use gsdb.Elf.{Elf, Section, section_at_file_address, section_at_virtual_address}
use gsdb.Elf.Addresses.{to_virt_addr, to_file_addr, to_file_addr-to_virt_addr}
use gsdb.Elf.Symbols.{Symbol, build_addr_map, get_symbol_containing_address}
use gsdb.Elf.Symbols.Nearest.{get_symbol_containing_address-nearest}

abbrev text : Section
text = record { name = 1; addr = 0x1000; offset = 0x1000; size = 0x200; entsize = 0 }

abbrev data_section : Section
data_section = record { name = 7; addr = 0x3000; offset = 0x2000; size = 0x100; entsize = 0 }

abbrev object : Elf
object = record {
  id = 1;
  load_bias = 0x555555554000;
  section_headers = text ∷ data_section ∷ [];
  section_map = [];
}

to_file_addr-to_virt_addr_example :
    (section_at_virtual_address object (to_virt_addr object (record { elf = 1; addr = 0x3010 }))
      ≡ some data_section)
    × (to_file_addr object (to_virt_addr object (record { elf = 1; addr = 0x3010 }))
        ≡ record { elf = 1; addr = 0x3010 })
unfolding section_at_file_address
to_file_addr-to_virt_addr_example =
    to_file_addr-to_virt_addr object (record { elf = 1; addr = 0x3010 }) data_section
      (omega arith, (omega arith, tt)) refl

-- Two functions at one place, and one that is thread-local.
abbrev main : Symbol
main = record { name = 1; info = 0x12; value = 0x1100; size = 0x20 }

abbrev alias : Symbol
alias = record { name = 9; info = 0x22; value = 0x1100; size = 0x80 }

abbrev local : Symbol
local = record { name = 5; info = 0x16; value = 0x1110; size = 8 }

get_symbol_containing_address-nearest_example :
    get_symbol_containing_address 1
      (build_addr_map [] (main ∷ alias ∷ local ∷ []))
      (record { elf = 1; addr = 0x1118 })
    ≡ some main
get_symbol_containing_address-nearest_example =
    get_symbol_containing_address-nearest 1 (main ∷ alias ∷ local ∷ [])
      (record { elf = 1; addr = 0x1118 })
