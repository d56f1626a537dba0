-- ===== src/Driver/Pages.antt =====
-- driver/homanic.c: the page attributes that `homanic_mmap` and `homanic_close` change. The
-- kernel's table is the parameter `PageTable`, an interface with the behaviour of calls that succeed;
-- the driver does not test whether they did.
use homa_nic.Prelude.{
  ℕ, ◌+◌, ◌/◌, ◌≡◌, ◌∙◌, refl, arith, Bool, true, false, not, ◌&&◌, ◌||◌, ltb, leb, if◌then◌else◌,
  List, [], ◌∷◌,
}
use homa_nic.Prelude.Int.{ℤ, pos, to_i32, eq_ℤ}
use homa_nic.Driver.{Session}

-- `PAGE_SIZE`.
abbrev pub page_size : ℕ
page_size = 4096

-- A page among the `n` pages from an address on.
abbrev pub in_pages : ℕ → ℕ → ℕ → Bool
in_pages addr n page = leb (addr / page_size) page && ltb page (addr / page_size + n)

-- The kernel's page attributes: `set_memory_uc` makes pages uncached, and `set_memory_wb` makes
-- them write-back again.
pub record PageTable : Type 1 where
  pub State : Type 0
  pub set_memory_uc : ℕ → ℕ → State → State
  pub set_memory_wb : ℕ → ℕ → State → State
  pub uncached : State → ℕ → Bool
  pub uncached-uc :
      (addr n : ℕ) (t : State) (page : ℕ)
      → uncached (set_memory_uc addr n t) page ≡ (in_pages addr n page || uncached t page)
  pub uncached-wb :
      (addr n : ℕ) (t : State) (page : ℕ)
      → uncached (set_memory_wb addr n t) page ≡ (not (in_pages addr n page) && uncached t page)

-- `16384 / PAGE_SIZE` and `(1 * HOMA_MAX_MESSAGE_LENGTH) / PAGE_SIZE`.
abbrev pub metadata_pages : ℕ
metadata_pages = 16384 / page_size

abbrev pub msgbuff_pages : ℕ
msgbuff_pages = 1000000 / page_size

module _ (K : PageTable) where
  open K use {State, set_memory_uc, set_memory_wb, uncached}

  -- The effect of `homanic_mmap` on the attributes, by the page offset that the caller gives, which
  -- `int map` narrows.
  unfoldable pub mmap_pages : ℕ → Session → State → State
  mmap_pages vm_pgoff s t =
      let map : ℤ = to_i32 (pos vm_pgoff) in
      if eq_ℤ map (pos 0)
      then set_memory_uc s.c2h_metadata.cpu_addr metadata_pages t
      else if eq_ℤ map (pos 2)
      then set_memory_uc s.h2c_msgbuff.cpu_addr msgbuff_pages t
      else if eq_ℤ map (pos 3)
      then set_memory_uc s.c2h_msgbuff.cpu_addr msgbuff_pages t
      else t

  unfoldable pub mmap_all : List ℕ → Session → State → State
  mmap_all [] s t = t
  mmap_all (m ∷ ms) s t = mmap_all ms s (mmap_pages m s t)

  -- The effect of `homanic_close`.
  unfoldable pub close_pages : Session → State → State
  close_pages s t =
      set_memory_wb s.c2h_msgbuff.cpu_addr msgbuff_pages
        (set_memory_wb s.h2c_msgbuff.cpu_addr msgbuff_pages t)

-- One of the page offsets is this value of `int map`.
unfoldable pub was_mapped : ℕ → List ℕ → Bool
was_mapped m [] = false
was_mapped m (k ∷ ks) = eq_ℤ (to_i32 (pos k)) (pos m) || was_mapped m ks

-- The pages of the three buffers that the driver changes.
abbrev pub metadata_page : Session → ℕ → Bool
metadata_page s page = in_pages s.c2h_metadata.cpu_addr metadata_pages page

abbrev pub h2c_page : Session → ℕ → Bool
h2c_page s page = in_pages s.h2c_msgbuff.cpu_addr msgbuff_pages page

abbrev pub c2h_page : Session → ℕ → Bool
c2h_page s page = in_pages s.c2h_msgbuff.cpu_addr msgbuff_pages page

-- A page that some call of `mmap` makes uncached.
abbrev pub made_uncached : List ℕ → Session → ℕ → Bool
made_uncached ms s page =
    (was_mapped 0 ms && metadata_page s page)
    || ((was_mapped 2 ms && h2c_page s page) || (was_mapped 3 ms && c2h_page s page))

-- A page of a message buffer is write-back again.
masked :
    (c h m two three u : Bool)
    → (not c && (not h && ((m || ((two && h) || (three && c))) || u))) ≡ (not (c || h) && (m || u))
masked true h m two three u = refl
masked false true m two three u = refl
masked false false m two three u = ground arith

module _ (K : PageTable) where
  open K use {State, uncached, uncached-uc, uncached-wb}

  uncached-mmap :
      (m : ℕ) (s : Session) (t : State) (page : ℕ)
      → uncached (mmap_pages K m s t) page ≡ (made_uncached (m ∷ []) s page || uncached t page)
  unfolding mmap_pages was_mapped
  uncached-mmap m s t page = ground (
    arith,
    uncached-uc s.c2h_metadata.cpu_addr metadata_pages t page,
    uncached-uc s.h2c_msgbuff.cpu_addr msgbuff_pages t page,
    uncached-uc s.c2h_msgbuff.cpu_addr msgbuff_pages t page,
  )

  uncached-mmap_all :
      (ms : List ℕ) (s : Session) (t : State) (page : ℕ)
      → uncached (mmap_all K ms s t) page ≡ (made_uncached ms s page || uncached t page)
  unfolding mmap_all was_mapped
  uncached-mmap_all [] s t page = refl
  uncached-mmap_all (m ∷ ms) s t page =
      uncached-mmap_all ms s (mmap_pages K m s t) page ∙ ground (arith, uncached-mmap m s t page)

  -- Whichever buffers a file maps, and however often, once it is closed a page is uncached only when it
  -- lies in none of the whole pages of the two message buffers, and either was uncached before or
  -- belongs to the metadata buffer and that buffer was mapped: its pages stay uncached when it is
  -- freed.
  pub uncached-close_pages :
      (ms : List ℕ) (s : Session) (t : State) (page : ℕ)
      → uncached (close_pages K s (mmap_all K ms s t)) page ≡ (
          not (c2h_page s page || h2c_page s page)
          && ((was_mapped 0 ms && metadata_page s page) || uncached t page))
  unfolding close_pages
  uncached-close_pages ms s t page =
      let before : State = mmap_all K ms s t in
      let between : State = K.set_memory_wb s.h2c_msgbuff.cpu_addr msgbuff_pages before in
      rw
        (
          uncached-wb s.c2h_msgbuff.cpu_addr msgbuff_pages between page,
          uncached-wb s.h2c_msgbuff.cpu_addr msgbuff_pages before page,
          uncached-mmap_all ms s t page,
        )
        (masked (c2h_page s page) (h2c_page s page) (was_mapped 0 ms && metadata_page s page)
          (was_mapped 2 ms) (was_mapped 3 ms) (uncached t page))
