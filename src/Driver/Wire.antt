-- ===== src/Driver/Wire.antt =====
-- driver/homanic.c: what `iomov64B` writes to the registers of the card, `struct port_to_phys` and
-- `struct cfg` as packed bytes of a little-endian processor, and the fields of the card's `DmaMap`
-- (hw/src/main/scala/Interfaces.scala), of which the last declared is the lowest.
pub mod Log
use homa_nic.Prelude.{ℕ, zero, suc, ◌+◌, List, [], ◌∷◌, ◌++◌, take, drop, Option, none, some}
use homa_nic.Prelude.{◌==◌, if◌then◌else◌}
use homa_nic.Prelude.Bytes.{to_bytes, from_bytes, zero_bytes}
use homa_nic.Driver.{PortToPhys, MapType, h2c_msgbuff_map, c2h_msgbuff_map, c2h_metadata_map}

-- `H2C_MSGBUFF_MAP`, `C2H_MSGBUFF_MAP` and `C2H_METADATA_MAP` as numbers.
abbrev pub map_number : MapType → ℕ
map_number h2c_msgbuff_map = 0
map_number c2h_msgbuff_map = 1
map_number c2h_metadata_map = 2

-- `dma_map` in memory. The padding of a global is zero.
unfoldable pub map_bytes : PortToPhys → List ℕ
map_bytes m =
    to_bytes 8 m.phys_addr
    ++ (to_bytes 2 m.port ++ (to_bytes 1 (map_number m.kind) ++ zero_bytes 53))

-- `struct cfg`.
pub record Cfg : Type 0 where
  pub write_buffer_size : ℕ
  pub fetch_request_size : ℕ

unfoldable pub cfg_bytes : Cfg → List ℕ
cfg_bytes c = zero_bytes 62 ++ (to_bytes 1 c.write_buffer_size ++ to_bytes 1 c.fetch_request_size)

-- `_mm256_store_si256` at an offset of the registers.
abbrev pub store32 : ℕ → List ℕ → List ℕ → List ℕ
store32 off ymm regs = take off regs ++ (ymm ++ drop (off + 32) regs)

-- `iomov64B` to an offset of the registers.
unfoldable pub iomov64_b : ℕ → List ℕ → List ℕ → List ℕ
iomov64_b off regs src =
    let ymm0 : List ℕ = take 32 src in
    let ymm1 : List ℕ = take 32 (drop 32 src) in store32 (off + 32) ymm1 (store32 off ymm0 regs)

-- The configuration that `homanic_init` writes.
abbrev pub cfg : Cfg
cfg = record { fetch_request_size = 10; write_buffer_size = 10 }

unfoldable pub init_registers : List ℕ → List ℕ
init_registers regs = iomov64_b 64 regs (cfg_bytes cfg)

-- The registers once the mappings of a list, newest first, are written, and after each of them.
unfoldable pub registers_after : List PortToPhys → List ℕ → List ℕ
registers_after [] regs = regs
registers_after (m ∷ ms) regs = iomov64_b 0 (registers_after ms regs) (map_bytes m)

unfoldable pub history : List PortToPhys → List ℕ → List (List ℕ)
history [] regs = []
history (m ∷ ms) regs = registers_after (m ∷ ms) regs ∷ history ms regs

-- `dma_map_type` of the card. Its value DUMMY, 0xFF, is not one that the driver writes: it is no map.
abbrev pub map_type : ℕ → Option MapType
map_type n =
    if n == 0
    then some h2c_msgbuff_map
    else if n == 1
    then some c2h_msgbuff_map
    else if n == 2
    then some c2h_metadata_map
    else none

-- `DmaMap` of the card, in the registers from offset 0 on.
unfoldable pub dma_map : List ℕ → Option PortToPhys
dma_map regs =
    let r : List ℕ = drop 8 regs in
    elim (map_type (from_bytes (take 1 (drop 2 r)))) [
      | none ↦ none
      | some k ↦
          some (record {
            phys_addr = from_bytes (take 8 regs);
            port = from_bytes (take 2 r);
            kind = k;
          })
    ]

-- The configuration, from offset 64 on.
unfoldable pub read_cfg : List ℕ → Cfg
read_cfg regs =
    let r : List ℕ = drop 62 (drop 64 regs) in
    record {
      write_buffer_size = from_bytes (take 1 r);
      fetch_request_size = from_bytes (take 1 (drop 1 r));
    }
