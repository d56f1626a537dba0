-- ===== src/Driver/Wire/Log.antt =====
-- The registers of the card hold what the driver's log of mappings says.
use homa_nic.Prelude.{
  ℕ, ◌+◌, ◌<◌, ◌^◌, ◌≡◌, ◌∙◌, refl, sym, ap, arith, List, [], ◌∷◌, ◌++◌, map, All, length,
  length-append, take, drop, some,
}
use homa_nic.Prelude.{inl, inr}
use homa_nic.Prelude.Bytes.{
  take_all, from_to_bytes, take-append, drop-append, take_append_drop, length-take, length-drop,
  append_assoc,
}
use homa_nic.Driver.{
  Driver, Buffer, Call, opens, closes, PortToPhys, MapType, h2c_msgbuff_map, c2h_msgbuff_map,
  c2h_metadata_map, homanic_init, set_up, step, run,
}
use homa_nic.Driver.Laws.{open_cases}
use homa_nic.Driver.Card.{written-close}
use homa_nic.Driver.Wire.{
  map_bytes, Cfg, cfg_bytes, cfg, store32, iomov64_b, init_registers, registers_after, history,
  dma_map, read_cfg,
}

-- A store replaces the 32 bytes at its offset.
store32-at :
    (off : ℕ) (before old ymm after : List ℕ)
    → length before ≡ off
    → length old ≡ 32
    → store32 off ymm (before ++ (old ++ after)) ≡ before ++ (ymm ++ after)
store32-at off before old ymm after h k =
    rw
      (
        take-append off before (old ++ after) h,
        ← append_assoc before old after,
        drop-append (off + 32) (before ++ old) after (length-append before old ∙ omega arith),
      )
      refl

-- The two loads of 32 bytes.
halves : (src : List ℕ) → length src ≡ 64 → take 32 src ++ take 32 (drop 32 src) ≡ src
halves src h =
    rw (take_all 32 (drop 32 src) (length-drop 32 src ∙ omega arith)) (take_append_drop 32 src)

copies_halves :
    (off : ℕ) (before first second after src : List ℕ)
    → length before ≡ off
    → length first ≡ 32
    → length second ≡ 32
    → length src ≡ 64
    → iomov64_b off (before ++ (first ++ (second ++ after))) src
      ≡ (before ++ take 32 src) ++ (take 32 (drop 32 src) ++ after)
unfolding iomov64_b
copies_halves off before first second after src h j k l =
    let ymm0 : List ℕ = take 32 src in
    let ymm1 : List ℕ = take 32 (drop 32 src) in
    rw
      (
        store32-at off before first ymm0 (second ++ after) h j,
        ← append_assoc before ymm0 (second ++ after),
      )
      (store32-at (off + 32) (before ++ ymm0) second ymm1 after
        (length-append before ymm0 ∙ omega (arith, length-take 32 src (omega arith))) k)

-- `iomov64B` writes its 64 bytes at the offset, and no other.
pub iomov64_b-copies :
    (off : ℕ) (before old after src : List ℕ)
    → length before ≡ off
    → length old ≡ 64
    → length src ≡ 64
    → iomov64_b off (before ++ (old ++ after)) src ≡ before ++ (src ++ after)
iomov64_b-copies off before old after src h k l =
    let first : List ℕ = take 32 old in
    let second : List ℕ = drop 32 old in
    let ymm0 : List ℕ = take 32 src in
    let ymm1 : List ℕ = take 32 (drop 32 src) in
    ap (λ t. iomov64_b off (before ++ t) src)
      (ap (λ t. t ++ after) (sym (take_append_drop 32 old)) ∙ append_assoc first second after)
    ∙ copies_halves off before first second after src h (length-take 32 old (omega arith))
        (length-drop 32 old ∙ omega arith) l
    ∙ append_assoc before ymm0 (ymm1 ++ after)
    ∙ ap (λ t. before ++ t)
        (sym (append_assoc ymm0 ymm1 after) ∙ ap (λ t. t ++ after) (halves src l))

-- A mapping whose fields are values of their types.
abbrev pub IsMapping : PortToPhys → Type 0
IsMapping m = (m.phys_addr < 2 ^ 64) × (m.port < 2 ^ 16)

length-map_bytes : (m : PortToPhys) → length (map_bytes m) ≡ 64
unfolding map_bytes
length-map_bytes m = refl

length-cfg_bytes : (c : Cfg) → length (cfg_bytes c) ≡ 64
unfolding cfg_bytes
length-cfg_bytes c = refl

abbrev mapping : ℕ → ℕ → MapType → PortToPhys
mapping a p k = record { phys_addr = a; port = p; kind = k }

dma_map-fields :
    (a p : ℕ) (k : MapType) (after : List ℕ)
    → a < 2 ^ 64
    → p < 2 ^ 16
    → dma_map (map_bytes (mapping a p k) ++ after) ≡ some (mapping a p k)
unfolding dma_map map_bytes
dma_map-fields a p h2c_msgbuff_map after h j =
    rw (from_to_bytes 8 a (omega arith), from_to_bytes 2 p (omega arith)) refl
dma_map-fields a p c2h_msgbuff_map after h j =
    rw (from_to_bytes 8 a (omega arith), from_to_bytes 2 p (omega arith)) refl
dma_map-fields a p c2h_metadata_map after h j =
    rw (from_to_bytes 8 a (omega arith), from_to_bytes 2 p (omega arith)) refl

dma_map-bytes :
    (m : PortToPhys) (after : List ℕ) → IsMapping m → dma_map (map_bytes m ++ after) ≡ some m
dma_map-bytes m after h = dma_map-fields m.phys_addr m.port m.kind after h.0 h.1

read_cfg-bytes :
    (before : List ℕ) (c : Cfg) (after : List ℕ)
    → length before ≡ 64
    → c.write_buffer_size < 256
    → c.fetch_request_size < 256
    → read_cfg (before ++ (cfg_bytes c ++ after)) ≡ c
unfolding read_cfg cfg_bytes
read_cfg-bytes before c after h j k =
    rw
      (
        drop-append 64 before (cfg_bytes c ++ after) h,
        from_to_bytes 1 c.write_buffer_size (omega arith),
        from_to_bytes 1 c.fetch_request_size (omega arith),
      )
      refl

module _ (window config after : List ℕ) (h : length window ≡ 64) (j : length config ≡ 64) where
  -- The registers when `homanic_init` is done.
  abbrev initial : List ℕ
  initial = init_registers (window ++ (config ++ after))

  init_registers-cfg : initial ≡ window ++ (cfg_bytes cfg ++ after)
  unfolding init_registers
  init_registers-cfg =
      iomov64_b-copies 64 window config after (cfg_bytes cfg) h j (length-cfg_bytes cfg)

  -- The newest mapping stands before the configuration.
  registers_after-newest :
      (m : PortToPhys) (ms : List PortToPhys)
      → registers_after (m ∷ ms) initial ≡ map_bytes m ++ (cfg_bytes cfg ++ after)
  unfolding registers_after
  registers_after-newest m [] =
      ap (λ t. iomov64_b 0 t (map_bytes m)) init_registers-cfg
      ∙ iomov64_b-copies 0 [] window (cfg_bytes cfg ++ after) (map_bytes m) refl h
          (length-map_bytes m)
  registers_after-newest m (k ∷ ks) =
      ap (λ t. iomov64_b 0 t (map_bytes m)) (registers_after-newest k ks)
      ∙ iomov64_b-copies 0 [] (map_bytes k) (cfg_bytes cfg ++ after) (map_bytes m) refl
          (length-map_bytes k) (length-map_bytes m)

  -- What the card reads after each of the stores.
  history-reads :
      (ms : List PortToPhys)
      → All IsMapping ms
      → (map dma_map (history ms initial) ≡ map some ms)
        × All (λ r. read_cfg r ≡ cfg) (history ms initial)
  unfolding history
  history-reads [] v = (refl, tt)
  history-reads (m ∷ ms) v =
      let rest = history-reads ms v.1 in
      rw (registers_after-newest m ms) (
        rw (dma_map-bytes m (cfg_bytes cfg ++ after) v.0, rest.0) refl,
        (
          read_cfg-bytes (map_bytes m) cfg after (length-map_bytes m) (omega arith) (omega arith),
          rest.1,
        ),
      )

module _ (alloc : ℕ → Buffer) (handles : (k : ℕ) → (alloc k).dma_handle < 2 ^ 64) where
  step-IsMapping :
      (c : Call) (d : Driver) → All IsMapping d.written → All IsMapping (step alloc c d).written
  unfolding step set_up
  step-IsMapping opens d v = elim (open_cases alloc d) [
    | inl (_, e) ↦ rw (e, step) v
    | inr (i, s, e, _, _, _, _, _) ↦
        rw (e, step)
          (
            (handles (d.calls + 2), omega arith),
            ((handles (d.calls + 1), omega arith), ((handles d.calls, omega arith), v)),
          )
  ]
  step-IsMapping (closes i) d v = rw (written-close i d) v

  run-IsMapping :
      (cs : List Call) (d : Driver)
      → All IsMapping d.written
      → All IsMapping (run alloc cs d).written
  unfolding run
  run-IsMapping [] d v = v
  run-IsMapping (c ∷ cs) d v = run-IsMapping cs (step alloc c d) (step-IsMapping c d v)

  -- From the start of the module over any opens and closes, with handles of 64 bits: after each
  -- `iomov64B` of an `open`, the card reads in its registers the mapping that the driver logs, and
  -- the configuration that `homanic_init` wrote.
  pub card_sees_log :
      (window config after : List ℕ) (cs : List Call)
      → length window ≡ 64
      → length config ≡ 64
      → (map dma_map (
            history
              (run alloc cs homanic_init).written
              (init_registers (window ++ (config ++ after))))
          ≡ map some (run alloc cs homanic_init).written)
        × All
            (λ r. read_cfg r ≡ cfg)
            (history
              (run alloc cs homanic_init).written
              (init_registers (window ++ (config ++ after))))
  unfolding homanic_init
  card_sees_log window config after cs h j =
      history-reads window config after h j (run alloc cs homanic_init).written
        (run-IsMapping cs homanic_init tt)
