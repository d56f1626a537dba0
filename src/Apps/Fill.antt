-- ===== src/Apps/Fill.antt =====
-- app/src/perf_bitrate_client.cc: the loops that fill the send buffer, 64 bytes of one value after
-- 64 bytes of another.
use homa_nic.Prelude.{
  ℕ, zero, suc, ◌+◌, ◌-◌, ◌*◌, ◌/◌, ◌%◌, ◌≤◌, ◌≡◌, ◌∙◌, refl, ap, Bool, true, ◌&&◌,
}
use homa_nic.Prelude.{
  arith, ltb, leb, ==_cases, if◌then◌else◌, inl, inr, Result, ok, err, out_of_bounds, ◌>>=◌,
}
use homa_nic.Apps.Request.{max_message_length}

-- A mapped buffer: its size and its bytes.
pub record Memory : Type 0 where
  pub size : ℕ
  pub byte : ℕ → ℕ

-- Is the byte `p` one of those from `a` up to `b`?
abbrev pub within : ℕ → ℕ → ℕ → Bool
within a b p = leb a p && ltb p b

-- `memcpy` of four bytes, all of them `c`, to the byte `at`.
unfoldable pub copy_word : ℕ → ℕ → Memory → Result Memory
copy_word at c m =
    if leb (at + 4) m.size
    then ok (record m { byte = λ p. if within at (at + 4) p then c else m.byte p })
    else err out_of_bounds

-- The inner loop from `j` on, with `n` rounds left.
unfoldable pub fill_chunk : ℕ → ℕ → ℕ → ℕ → Memory → Result Memory
fill_chunk zero j i c m = ok m
fill_chunk (suc n) j i c m = do m' ← copy_word (j * 4 + i * 64) c m; fill_chunk n (suc j) i c m'

-- The outer loop from `i` on; `memset` takes the low byte of `i + 1`.
unfoldable pub fill_from : ℕ → ℕ → Memory → Result Memory
fill_from zero i m = ok m
fill_from (suc n) i m = do m' ← fill_chunk 16 0 i ((i + 1) % 256) m; fill_from n (suc i) m'

unfoldable pub fill : Memory → Result Memory
fill m = fill_from (max_message_length / 64 - 1) 0 m

-- The loop completes, with the bytes from `a` up to `b` as `f` says and all others as they were.
abbrev Filled : ℕ → ℕ → (ℕ → ℕ) → Memory → Result Memory → Type 0
Filled a b f m r =
    (m' : Memory) × (r ≡ ok m')
    × (m'.size ≡ m.size)
    × ((p : ℕ) → m'.byte p ≡ (if within a b p then f p else m.byte p))

copy_word-ok :
    (at c : ℕ) (m : Memory)
    → at + 4 ≤ m.size
    → copy_word at c m ≡ ok (record m { byte = λ p. if within at (at + 4) p then c else m.byte p })
unfolding copy_word
copy_word-ok at c m h =
    let inside : leb (at + 4) m.size ≡ true = ground (arith, h) in rw (copy_word, inside) refl

fill_chunk-Filled :
    (n j i c : ℕ) (m : Memory)
    → (j + n) * 4 + i * 64 ≤ m.size
    → Filled (j * 4 + i * 64) ((j + n) * 4 + i * 64) (λ p. c) m (fill_chunk n j i c m)
unfolding fill_chunk
fill_chunk-Filled zero j i c m h = (m, refl, refl, λ p. ground arith)
fill_chunk-Filled (suc n) j i c m h =
    let at : ℕ = j * 4 + i * 64 in
    let next : Memory = record m { byte = λ p. if within at (at + 4) p then c else m.byte p } in
    let (m', q, s, f) = fill_chunk-Filled n (suc j) i c next (omega arith) in
    (m', rw (copy_word-ok at c m (omega arith)) q, s, λ p. f p ∙ ground arith)

-- The bytes of a chunk before those of the chunks that follow it.
chunk_joins :
    (i n p old : ℕ)
    → (if within (suc i * 64) ((suc i + n) * 64) p
        then (p / 64 + 1) % 256
        else (if within (0 * 4 + i * 64) ((0 + 16) * 4 + i * 64) p then (i + 1) % 256 else old))
      ≡ (if within (i * 64) ((i + suc n) * 64) p then (p / 64 + 1) % 256 else old)
chunk_joins i n p old = elim (==_cases (p / 64) i) [
  | inl e ↦ rw e (ground arith)
  | inr e ↦ let other : (p / 64 ≡ i → ⊥) = λ h. ground (arith, e, h) in ground (arith, other)
]

fill_from-Filled :
    (n i : ℕ) (m : Memory)
    → (i + n) * 64 ≤ m.size
    → Filled (i * 64) ((i + n) * 64) (λ p. (p / 64 + 1) % 256) m (fill_from n i m)
unfolding fill_from
fill_from-Filled zero i m h = (m, refl, refl, λ p. ground arith)
fill_from-Filled (suc n) i m h =
    let (m', q, s, f) = fill_chunk-Filled 16 0 i ((i + 1) % 256) m (omega arith) in
    let (m'', q', s', f') = fill_from-Filled n (suc i) m' (omega arith) in
    (
      m'',
      rw (fill_from, q) q',
      s' ∙ s,
      λ p.
          f' p
          ∙ ap (λ x. if within (suc i * 64) ((suc i + n) * 64) p then (p / 64 + 1) % 256 else x)
              (f p)
          ∙ chunk_joins i n p (m.byte p),
    )

-- Filling a send buffer of 1000000 bytes stays inside it. Afterwards each byte but the last 64 holds
-- the low byte of its chunk's number, counted from 1; the last 64 bytes are as they were.
pub fill_lem :
    (m : Memory)
    → m.size ≡ max_message_length
    → (m' : Memory) × (fill m ≡ ok m')
      × (m'.size ≡ m.size)
      × ((p : ℕ)
          → m'.byte p ≡ (if ltb p (max_message_length - 64) then (p / 64 + 1) % 256 else m.byte p))
unfolding fill
fill_lem m h =
    let (m', q, s, f) = fill_from-Filled (max_message_length / 64 - 1) 0 m (omega (arith, h)) in
    (m', q, s, λ p. f p ∙ ground arith)
