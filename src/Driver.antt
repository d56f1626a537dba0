-- ===== src/Driver.antt =====
-- driver/homanic.c: the sessions of the character device. What the kernel does (allocating DMA
-- memory, page attributes, MMIO) is outside: the k-th call of `dma_alloc_coherent` returns what the
-- parameter `alloc` says, and writes to the card are kept as a list.
pub mod Laws
pub mod Files
pub mod Card
pub mod Wire
pub mod Pages
mod Examples
use homa_nic.Prelude.{ℕ, zero, suc, ◌+◌, ◌-◌, ◌≡◌, Bool, true, false, not, ◌==◌, if◌then◌else◌}
use homa_nic.Prelude.Int.{ℤ, pos, to_i32, eq_ℤ}
use homa_nic.Prelude.{List, [], ◌∷◌, ◌++◌, get_elem?, set, Option, some, none}

-- `METADATA_SIZE` bytes, or `HOMA_MAX_MESSAGE_LENGTH` bytes, of DMA memory: the address that the
-- processor uses and the handle that the card uses.
pub record Buffer : Type 0 where
  pub cpu_addr : ℕ
  pub dma_handle : ℕ

-- `struct session`.
pub record Session : Type 0 where
  pub assigned : Bool
  pub port : ℕ
  pub h2c_msgbuff : Buffer
  pub c2h_msgbuff : Buffer
  pub c2h_metadata : Buffer

-- `H2C_MSGBUFF_MAP`, `C2H_MSGBUFF_MAP` and `C2H_METADATA_MAP`.
pub data MapType : Type 0 where
  h2c_msgbuff_map c2h_msgbuff_map c2h_metadata_map : MapType

-- `struct port_to_phys`.
pub record PortToPhys : Type 0 where
  pub phys_addr : ℕ
  pub port : ℕ
  pub kind : MapType

-- The module's globals: the sessions, the mappings written to the card (newest first), the number
-- of allocations made and the buffers that are allocated.
pub record Driver : Type 0 where
  pub sessions : List Session
  pub written : List PortToPhys
  pub calls : ℕ
  pub live : List Buffer

abbrev pub max_ports : ℕ
max_ports = 16

abbrev no_buffer : Buffer
no_buffer = record { cpu_addr = 0; dma_handle = 0 }

-- The loop of `homanic_init`: ports from `s + 1` on.
unfoldable pub fresh_sessions : ℕ → ℕ → List Session
fresh_sessions zero s = []
fresh_sessions (suc n) s =
    (record {
      assigned = false;
      port = s + 1;
      h2c_msgbuff = no_buffer;
      c2h_msgbuff = no_buffer;
      c2h_metadata = no_buffer;
    })
    ∷ fresh_sessions n (s + 1)

unfoldable pub homanic_init : Driver
unfolding fresh_sessions
homanic_init = record { sessions = fresh_sessions max_ports 0; written = []; calls = 0; live = [] }

-- The loop of `homanic_open`: the first session that is not assigned.
unfoldable pub find_free : List Session → Option ℕ
find_free [] = none
find_free (s ∷ ss) =
    if not s.assigned then some 0 else (elim (find_free ss) [ none ↦ none | some i ↦ some (suc i) ])

-- The session of an open file, with its three buffers.
unfoldable pub assign : Session → Buffer → Buffer → Buffer → Session
assign s metadata h2c c2h = record s {
  assigned = true;
  c2h_metadata = metadata;
  h2c_msgbuff = h2c;
  c2h_msgbuff = c2h;
}

module _ (alloc : ℕ → Buffer) where
  -- What follows the search. Each mapping names port 1.
  unfoldable pub set_up : ℕ → Session → Driver → Driver
  set_up i s d =
      let metadata : Buffer = alloc d.calls in
      let h2c : Buffer = alloc (d.calls + 1) in
      let c2h : Buffer = alloc (d.calls + 2) in
      record {
        sessions = set d.sessions i (assign s metadata h2c c2h);
        written =
            record { phys_addr = c2h.dma_handle; port = 1; kind = c2h_msgbuff_map }
            ∷ record { phys_addr = h2c.dma_handle; port = 1; kind = h2c_msgbuff_map }
            ∷ record { phys_addr = metadata.dma_handle; port = 1; kind = c2h_metadata_map }
            ∷ d.written;
        calls = d.calls + 3;
        live = metadata ∷ h2c ∷ c2h ∷ d.live;
      }

  -- The number returned, the session kept in `private_data`, and the new globals.
  unfoldable pub homanic_open : Driver → ℕ × Option ℕ × Driver
  homanic_open d = elim (find_free d.sessions) [
    | none ↦ (1, none, d)
    | some i ↦ elim (get_elem? d.sessions i) [
      | none ↦ (1, none, d)
      | some s ↦ (0, some i, set_up i s d)
    ]
  ]

-- `dma_free_coherent` of the buffer with this handle.
unfoldable pub free_handle : ℕ → List Buffer → List Buffer
free_handle h [] = []
free_handle h (b ∷ bs) = if b.dma_handle == h then bs else b ∷ free_handle h bs

-- `homanic_close` on a file whose `private_data` is the session `i`.
unfoldable pub homanic_close : ℕ → Driver → Driver
homanic_close i d = elim (get_elem? d.sessions i) [
  | none ↦ d
  | some s ↦ record d {
    live =
        free_handle s.c2h_msgbuff.dma_handle
          (free_handle s.h2c_msgbuff.dma_handle (free_handle s.c2h_metadata.dma_handle d.live));
  }
]

-- What `homanic_mmap` maps, by the page offset that the caller gives: a buffer and its size, the
-- registers, or nothing. The kernel's functions do the mapping, and what they return is returned.
pub data Mapped : Type 0 where
  buffer : Buffer → ℕ → Mapped
  registers : Mapped
  nothing : Mapped

-- `switch (map)`, where `int map` is the page offset `vm_pgoff`.
unfoldable pub homanic_mmap : ℕ → Session → Mapped
homanic_mmap vm_pgoff s =
    let map : ℤ = to_i32 (pos vm_pgoff) in
    if eq_ℤ map (pos 0)
    then buffer s.c2h_metadata 16384
    else if eq_ℤ map (pos 1)
    then registers
    else if eq_ℤ map (pos 2)
    then buffer s.h2c_msgbuff 1000000
    else if eq_ℤ map (pos 3)
    then buffer s.c2h_msgbuff 1000000
    else nothing

-- What users do with the device.
pub data Call : Type 0 where
  opens : Call
  closes : ℕ → Call

unfoldable pub step : (ℕ → Buffer) → Call → Driver → Driver
step alloc opens d = (homanic_open alloc d).2
step alloc (closes i) d = homanic_close i d

unfoldable pub run : (ℕ → Buffer) → List Call → Driver → Driver
run alloc [] d = d
run alloc (c ∷ cs) d = run alloc cs (step alloc c d)
