-- ===== src/TosSystem/Layout.antt =====
-- tossystem.c: the sizes and the memory areas of the emulated system.
use tosemu.Base.{ℕ, ◌-◌, List, [], ◌∷◌, bit_or}
use tosemu.Platform.{Platform}
use tosemu.Machine.{M, pure, ◌>>◌}
use tosemu.Memory.Area.{
  MemoryArea, ptr_read, ptr_write, magic_xbios_supexec_read, magic_xbios_supexec_write,
  memory_readwrite, memory_superread, memory_superwrite,
}
use tosemu.Memory.{reset_memory, add_ptr_memory_area, add_fnct_memory_area}

abbrev pub supermemsize : ℕ
supermemsize = 512

-- `te->size`
abbrev pub user_ram_size : ℕ
user_ram_size = 0xf9ffff - 0x000900

-- The host memory that init_tos_environment allocates.
pub record Buffers : Type 0 where
  pub staticmem0 : ℕ
  pub staticmem1 : ℕ
  pub supermem : ℕ
  pub appmem : ℕ
  pub bp : ℕ

module _ ⦃p : Platform⦄ where
  -- The part of init_tos_environment that registers the areas.
  unfoldable pub register_areas : Buffers → M (Unit {0})
  register_areas b = do
    reset_memory
    add_ptr_memory_area (bit_or memory_readwrite memory_superwrite) 0x0 0x1ff b.staticmem0
    add_fnct_memory_area memory_superread 0x200 0x2 0 magic_xbios_supexec_read
        magic_xbios_supexec_write
    add_ptr_memory_area (bit_or memory_superread memory_superwrite) 0x380 (0x600 - 0x380)
        b.staticmem1
    add_ptr_memory_area memory_readwrite 0x800 0x100 b.bp
    add_ptr_memory_area memory_readwrite 0x900 user_ram_size b.appmem
    add_ptr_memory_area (bit_or memory_superread memory_superwrite) 0x600 supermemsize b.supermem
    pure tt

abbrev ptr_area : (flags base len ptr : ℕ) → MemoryArea
ptr_area flags base len ptr = record {
  base = base;
  len = len;
  read = ptr_read;
  write = ptr_write;
  ptr = ptr;
  flags = flags;
}

-- The areas that are then in the list, the last one first.
unfoldable pub tos_areas : Buffers → List MemoryArea
tos_areas b =
    ptr_area 0xc 0x600 supermemsize b.supermem
    ∷ ptr_area 0x3 0x900 user_ram_size b.appmem
    ∷ ptr_area 0x3 0x800 0x100 b.bp
    ∷ ptr_area 0xc 0x380 0x280 b.staticmem1
    ∷ record {
      base = 0x200;
      len = 2;
      read = magic_xbios_supexec_read;
      write = magic_xbios_supexec_write;
      ptr = 0;
      flags = 0x4;
    }
    ∷ ptr_area 0xb 0x0 0x1ff b.staticmem0
    ∷ []
