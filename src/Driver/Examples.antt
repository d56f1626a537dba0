-- ===== src/Driver/Examples.antt =====
-- The driver's theorems at concrete inputs, and tests of its calls.
use homa_nic.Prelude.{
  ℕ, ◌+◌, ◌*◌, ◌≡◌, refl, sym, ◌∙◌, ◌⊎◌, Bool, true, false, not, ◌&&◌, ◌||◌, [], ◌∷◌, ◌++◌, some,
  none, map, All, arith, get_elem?, ◌≤◌, ◌<◌, ◌^◌, ◌%◌,
}
use homa_nic.Driver.{
  Driver, Buffer, Session, opens, closes, homanic_init, homanic_open, homanic_close, run, step,
  set_up, find_free, assign, h2c_msgbuff_map, c2h_msgbuff_map, c2h_metadata_map, homanic_mmap,
  buffer,
}
use homa_nic.Driver.Laws.{open_exhausted, open_cases, AllTaken, Opened}
use homa_nic.Driver.Files.{users, files_after, run_files, files_exclusive}
use homa_nic.Prelude.Int.{to_i32, to_u32}
use homa_nic.Driver.Card.{close_all, owns, allocated, Shared, mmap_on_card, open_takes_port}
use homa_nic.Driver.Wire.{dma_map, read_cfg, cfg, history, init_registers}
use homa_nic.Driver.Wire.Log.{card_sees_log}
use homa_nic.Driver.Pages.{
  PageTable, was_mapped, in_pages, close_pages, mmap_all, uncached-close_pages,
}
use homa_nic.Prelude.Bytes.{zero_bytes}

-- The k-th allocation lies at k megabytes.
abbrev alloc : ℕ → Buffer
alloc k = record { cpu_addr = 4096 * k; dma_handle = 1000000 * (k + 1) }

abbrev taken : Session
taken = record {
  assigned = true;
  port = 1;
  h2c_msgbuff = alloc 0;
  c2h_msgbuff = alloc 1;
  c2h_metadata = alloc 2;
}

-- A device with one session, in use.
abbrev full : Driver
full = record { sessions = taken ∷ []; written = []; calls = 3; live = [] }

abbrev once : Driver
once = (homanic_open alloc homanic_init).2

first_open : homanic_open alloc homanic_init ≡ (0, some 0, once)
unfolding homanic_open homanic_init find_free set_up assign
first_open = refl

second_open_gets_the_next : (homanic_open alloc (run alloc (closes 0 ∷ []) once)).1 ≡ some 1
unfolding homanic_open homanic_init find_free set_up assign run step homanic_close
second_open_gets_the_next = refl

-- The second file gets another session while the first is open, and the third after it is closed.
two_files : run_files alloc (opens ∷ opens ∷ closes 0 ∷ opens ∷ []) homanic_init [] ≡ 2 ∷ 1 ∷ []
unfolding run_files files_after homanic_open homanic_init find_free set_up assign step homanic_close
two_files = refl

files_exclusive_example :
    users 1 (run_files alloc (opens ∷ opens ∷ closes 0 ∷ opens ∷ []) homanic_init []) ≤ 1
files_exclusive_example = files_exclusive alloc (opens ∷ opens ∷ closes 0 ∷ opens ∷ []) 1

open_exhausted_example :
    homanic_open alloc (run alloc (closes 0 ∷ []) full) ≡ (1, none, run alloc (closes 0 ∷ []) full)
open_exhausted_example = open_exhausted alloc full (closes 0 ∷ []) (refl, tt)

mmap_metadata : homanic_mmap 0 taken ≡ buffer (alloc 2) 16384
unfolding homanic_mmap to_i32 to_u32
mmap_metadata = refl

open_cases_example :
    (AllTaken homanic_init.sessions × (homanic_open alloc homanic_init ≡ (1, none, homanic_init)))
    ⊎ Opened alloc homanic_init (homanic_open alloc homanic_init)
open_cases_example = open_cases alloc homanic_init

abbrev first_session : Session
first_session = record {
  assigned = true;
  port = 1;
  h2c_msgbuff = alloc 1;
  c2h_msgbuff = alloc 2;
  c2h_metadata = alloc 0;
}

-- Handles of 64 bits.
abbrev small_alloc : ℕ → Buffer
small_alloc k = record { cpu_addr = 4096 * k; dma_handle = (1000000 * (k + 1)) % 2 ^ 64 }

small_handles : (k : ℕ) → (small_alloc k).dma_handle < 2 ^ 64
small_handles k = omega arith

card_sees_log_example :
    (map dma_map (
        history
          (run small_alloc (opens ∷ closes 0 ∷ opens ∷ []) homanic_init).written
          (init_registers (zero_bytes 64 ++ (zero_bytes 64 ++ []))))
      ≡ map some (run small_alloc (opens ∷ closes 0 ∷ opens ∷ []) homanic_init).written)
    × All
        (λ r. read_cfg r ≡ cfg)
        (history
          (run small_alloc (opens ∷ closes 0 ∷ opens ∷ []) homanic_init).written
          (init_registers (zero_bytes 64 ++ (zero_bytes 64 ++ []))))
card_sees_log_example =
    card_sees_log small_alloc small_handles (zero_bytes 64) (zero_bytes 64) []
      (opens ∷ closes 0 ∷ opens ∷ []) refl refl

-- Attributes as a function from pages.
abbrev plain_table : PageTable
plain_table = record {
  State = ℕ → Bool;
  set_memory_uc = λ addr n t page. in_pages addr n page || t page;
  set_memory_wb = λ addr n t page. not (in_pages addr n page) && t page;
  uncached = λ t page. t page;
  uncached-uc = λ addr n t page. refl;
  uncached-wb = λ addr n t page. refl;
}

abbrev spread : Session
spread = record {
  assigned = true;
  port = 1;
  h2c_msgbuff = record { cpu_addr = 4096 * 1000; dma_handle = 1 };
  c2h_msgbuff = record { cpu_addr = 4096 * 2000; dma_handle = 2 };
  c2h_metadata = record { cpu_addr = 4096 * 100; dma_handle = 3 };
}

-- The second page of the metadata, once the file is closed.
uncached-close_pages_example :
    plain_table.uncached
      (close_pages plain_table spread
        (mmap_all plain_table (0 ∷ 2 ∷ 3 ∷ []) spread (λ page. false)))
      101
    ≡ true
unfolding was_mapped to_i32
uncached-close_pages_example =
    uncached-close_pages plain_table (0 ∷ 2 ∷ 3 ∷ []) spread (λ page. false) 101

abbrev twice : Driver
twice = (homanic_open alloc once).2

second_open : homanic_open alloc once ≡ (0, some 1, twice)
unfolding homanic_open homanic_init find_free set_up assign
second_open = refl

abbrev second_session : Session
second_session = record {
  assigned = true;
  port = 2;
  h2c_msgbuff = alloc 4;
  c2h_msgbuff = alloc 5;
  c2h_metadata = alloc 3;
}

second_is : get_elem? twice.sessions 1 ≡ some second_session
unfolding homanic_open homanic_init find_free set_up assign
second_is = refl

first_is : get_elem? twice.sessions 0 ≡ some first_session
unfolding homanic_open homanic_init find_free set_up assign
first_is = refl

apart :
    (h : ℕ)
    → owns h second_session ≡ true
    → All (λ j. (t : Session) → get_elem? twice.sessions j ≡ some t → owns h t ≡ false) (0 ∷ [])
apart h o = (
  (λ t e.
      let found : some first_session ≡ some t = sym first_is ∙ e in
      let same : first_session ≡ t = cc in rw (← same) (ground arith)),
  tt,
)

-- The second file has been opened, and the first one is closed.
mmap_on_card_example :
    Shared 0 16384 c2h_metadata_map second_session (close_all (0 ∷ []) twice).written
    × Shared 2 1000000 h2c_msgbuff_map second_session (close_all (0 ∷ []) twice).written
    × Shared 3 1000000 c2h_msgbuff_map second_session (close_all (0 ∷ []) twice).written
    × ((h : ℕ) → owns h second_session ≡ true → allocated h (close_all (0 ∷ []) twice).live ≡ true)
mmap_on_card_example =
    mmap_on_card alloc once twice 1 second_session (0 ∷ []) second_open second_is apart

open_takes_port_example : ¬ Shared 0 16384 c2h_metadata_map first_session twice.written
unfolding homanic_open homanic_init find_free set_up assign
open_takes_port_example =
    open_takes_port alloc homanic_init once twice 0 1 first_session first_open second_open refl
      (λ e. absurd (omega arith))
