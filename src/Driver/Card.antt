-- ===== src/Driver/Card.antt =====
-- What the card is told of the sessions.
use homa_nic.Prelude.{
  ◌≢◌, ◌⊎◌, ℕ, ◌+◌, ◌≡◌, inl, inr, refl, ap, sym, subst, ◌∙◌, Bool, true, false, ◌==◌, ◌&&◌, ◌||◌,
  All, Option-cases,
}
use homa_nic.Prelude.Int.{to_i32, to_u32}
use homa_nic.Prelude.{List, [], ◌∷◌, get_elem?}
use homa_nic.Prelude.{Option, some, none, arith, if◌then◌else◌}
use homa_nic.Driver.{
  Driver, Buffer, PortToPhys, MapType, h2c_msgbuff_map, c2h_msgbuff_map, c2h_metadata_map,
  homanic_open, homanic_close, set_up, Session, assign, homanic_mmap, buffer, run, free_handle,
}
use homa_nic.Driver.Laws.{open_exclusive, open_cases, sessions-close}

-- The kind of a mapping, compared.
unfoldable pub same_kind : MapType → MapType → Bool
same_kind h2c_msgbuff_map h2c_msgbuff_map = true
same_kind c2h_msgbuff_map c2h_msgbuff_map = true
same_kind c2h_metadata_map c2h_metadata_map = true
same_kind _ _ = false

-- The address that the card holds for a port: that of the newest mapping written for it.
unfoldable pub on_card : MapType → ℕ → List PortToPhys → Option ℕ
on_card k p [] = none
on_card k p (m ∷ ms) =
    if same_kind k m.kind && m.port == p then some m.phys_addr else on_card k p ms

-- Any files are closed.
unfoldable pub close_all : List ℕ → Driver → Driver
close_all [] d = d
close_all (i ∷ is) d = close_all is (homanic_close i d)

pub written-close : (i : ℕ) (d : Driver) → (homanic_close i d).written ≡ d.written
unfolding homanic_close
written-close i d = ground arith

written-close_all : (is : List ℕ) (d : Driver) → (close_all is d).written ≡ d.written
unfolding close_all
written-close_all [] d = refl
written-close_all (i ∷ is) d = written-close_all is (homanic_close i d) ∙ written-close i d

sessions-close_all : (is : List ℕ) (d : Driver) → (close_all is d).sessions ≡ d.sessions
unfolding close_all
sessions-close_all [] d = refl
sessions-close_all (i ∷ is) d = sessions-close_all is (homanic_close i d) ∙ sessions-close i d

-- The handle of one of the session's buffers.
abbrev pub owns : ℕ → Session → Bool
owns h s =
    s.c2h_metadata.dma_handle == h
    || (s.h2c_msgbuff.dma_handle == h || s.c2h_msgbuff.dma_handle == h)

-- The handle of a buffer that is allocated.
abbrev pub allocated : ℕ → List Buffer → Bool
allocated h [] = false
allocated h (b ∷ bs) = b.dma_handle == h || allocated h bs

allocated-free_handle :
    (h k : ℕ) (bs : List Buffer)
    → (k == h) ≡ false
    → allocated h (free_handle k bs) ≡ allocated h bs
unfolding free_handle
allocated-free_handle h k [] p = refl
allocated-free_handle h k (b ∷ bs) p = ground (arith, allocated-free_handle h k bs p)

allocated-close :
    (h i : ℕ) (d : Driver)
    → ((t : Session) → get_elem? d.sessions i ≡ some t → owns h t ≡ false)
    → allocated h d.live ≡ true
    → allocated h (homanic_close i d).live ≡ true
unfolding homanic_close
allocated-close h i d a l = elim (Option-cases (get_elem? d.sessions i)) [
  | inl e ↦ rw (homanic_close, e) l
  | inr (s, e) ↦
      let other : owns h s ≡ false = a s e in
      rw (homanic_close, e)
        (ground (
          arith,
          allocated-free_handle h s.c2h_msgbuff.dma_handle
              (free_handle s.h2c_msgbuff.dma_handle (free_handle s.c2h_metadata.dma_handle d.live)),
          allocated-free_handle h s.h2c_msgbuff.dma_handle
              (free_handle s.c2h_metadata.dma_handle d.live),
          allocated-free_handle h s.c2h_metadata.dma_handle d.live,
        ))
]

-- `mmap` with this page offset gives a buffer of this size whose handle the card holds for port 1.
abbrev pub Shared : ℕ → ℕ → MapType → Session → List PortToPhys → Type 0
Shared map size k s written =
    (b : Buffer) × (homanic_mmap map s ≡ buffer b size) × (on_card k 1 written ≡ some b.dma_handle)

module _ (alloc : ℕ → Buffer) where
  -- Every successful `open`, whichever session it gets, makes the card map port 1 to the buffers
  -- of that session, and the card keeps this mapping when files are closed.
  pub card_after_open :
      (d d' : Driver) (i : ℕ) (is : List ℕ)
      → homanic_open alloc d ≡ (0, some i, d')
      → (on_card c2h_metadata_map 1 (close_all is d').written ≡ some (alloc d.calls).dma_handle)
        × (on_card h2c_msgbuff_map 1 (close_all is d').written
            ≡ some (alloc (d.calls + 1)).dma_handle)
        × (on_card c2h_msgbuff_map 1 (close_all is d').written
            ≡ some (alloc (d.calls + 2)).dma_handle)
  unfolding on_card set_up same_kind
  card_after_open d d' i is e = elim (open_cases alloc d) [
    | inl (_, f) ↦ absurd (cc)
    | inr (j, s, f, _, _, _, _, _) ↦
        let state : set_up alloc j s d ≡ d' = ground arith in
        rw (written-close_all is d', ← state) (refl, refl, refl)
  ]

  allocated-set_up :
      (h i : ℕ) (t : Session) (d : Driver)
      → owns h (assign t (alloc d.calls) (alloc (d.calls + 1)) (alloc (d.calls + 2))) ≡ true
      → allocated h (set_up alloc i t d).live ≡ true
  unfolding set_up assign
  allocated-set_up h i t d p = ground arith

  -- The buffers of a new session stay allocated while files with other buffers are closed.
  allocated-close_all :
      (h : ℕ) (is : List ℕ) (d : Driver)
      → All (λ j. (t : Session) → get_elem? d.sessions j ≡ some t → owns h t ≡ false) is
      → allocated h d.live ≡ true
      → allocated h (close_all is d).live ≡ true
  unfolding close_all
  allocated-close_all h [] d a l = l
  allocated-close_all h (i ∷ is) d (a, more) l =
      allocated-close_all h is (homanic_close i d) (rw (sessions-close i d) more)
        (allocated-close h i d a l)

  -- After a successful `open` and before the next one, when files are closed whose buffers have
  -- other handles than those of this file, a program that maps the metadata (offset 0) or a message
  -- buffer (2 and 3) of the file gets the memory that the card holds for port 1 under that kind, at
  -- its whole size, and the three buffers are still allocated.
  pub mmap_on_card :
      (d d' : Driver) (i : ℕ) (s : Session) (is : List ℕ)
      → homanic_open alloc d ≡ (0, some i, d')
      → get_elem? d'.sessions i ≡ some s
      → ((h : ℕ)
          → owns h s ≡ true
          → All (λ j. (t : Session) → get_elem? d'.sessions j ≡ some t → owns h t ≡ false) is)
      → Shared 0 16384 c2h_metadata_map s (close_all is d').written
        × Shared 2 1000000 h2c_msgbuff_map s (close_all is d').written
        × Shared 3 1000000 c2h_msgbuff_map s (close_all is d').written
        × ((h : ℕ) → owns h s ≡ true → allocated h (close_all is d').live ≡ true)
  unfolding homanic_mmap assign to_i32 to_u32
  mmap_on_card d d' i s is e g apart = elim (open_cases alloc d) [
    | inl (_, f) ↦ absurd (cc)
    | inr (j, t, f, _, _, _, new, _) ↦
        let index : j ≡ i = ground arith in
        let state : set_up alloc j t d ≡ d' = ground arith in
        let here : get_elem? (set_up alloc j t d).sessions j ≡ some s = rw (state, index) g in
        let same : assign t (alloc d.calls) (alloc (d.calls + 1)) (alloc (d.calls + 2)) ≡ s = cc in
        let held = card_after_open d d' i is e in
        let live : (h : ℕ) → owns h s ≡ true → allocated h d'.live ≡ true = λ h o.
          subst (λ (d2 : Driver). allocated h d2.live ≡ true) state
            (allocated-set_up h j t d (subst (λ (s2 : Session). owns h s2 ≡ true) (sym same) o)) in
        (
          rw (← same) (alloc d.calls, refl, held.0),
          rw (← same) (alloc (d.calls + 1), refl, held.1),
          rw (← same) (alloc (d.calls + 2), refl, held.2),
          (λ h o. allocated-close_all h is d' (apart h o) (live h o)),
        )
  ]

  -- The session and the state that an `open` leaves.
  opened_session :
      (d d' : Driver) (i : ℕ)
      → homanic_open alloc d ≡ (0, some i, d')
      → (t : Session) × (d' ≡ set_up alloc i t d)
        × (get_elem? d'.sessions i
            ≡ some (assign t (alloc d.calls) (alloc (d.calls + 1)) (alloc (d.calls + 2))))
        × ((j : ℕ) → (i ≡ j) ⊎ (get_elem? d'.sessions j ≡ get_elem? d.sessions j))
  opened_session d d' i e = elim (open_cases alloc d) [
    | inl (_, f) ↦ absurd (cc)
    | inr (j, t, f, _, _, _, new, others) ↦
        let index : i ≡ j = ground arith in
        let state : d' ≡ set_up alloc j t d = ground arith in
        (t, rw (state, index) refl, rw (state, index) new, rw (state, index) others)
  ]

  again :
      (d d' : Driver) (j i : ℕ)
      → homanic_open alloc d ≡ (0, some j, d')
      → j ≡ i
      → (homanic_open alloc d).1 ≡ some i
  again d d' j i e h = ap (λ (r : ℕ × Option ℕ × Driver). r.1) e ∙ ap (λ (k : ℕ). some k) h

  -- The next successful `open` takes port 1 from a file that is still open: what a program maps as
  -- the metadata of the first file is no longer what the card holds for port 1, when the two
  -- metadata buffers have different handles.
  pub open_takes_port :
      (d d1 d2 : Driver) (i j : ℕ) (s : Session)
      → homanic_open alloc d ≡ (0, some i, d1)
      → homanic_open alloc d1 ≡ (0, some j, d2)
      → get_elem? d2.sessions i ≡ some s
      → (alloc d.calls).dma_handle ≢ (alloc d1.calls).dma_handle
      → ¬ Shared 0 16384 c2h_metadata_map s d2.written
  unfolding homanic_mmap assign close_all to_i32 to_u32
  open_takes_port d d1 d2 i j s e f g differ (b, m, c) =
      let (t, _, new, _) = opened_session d d1 i e in
      let (_, _, _, others) = opened_session d1 d2 j f in
      elim (others i) [
        | inl same ↦ open_exclusive alloc d d1 i [] e (unfold run in again d1 d2 j i f same)
        | inr kept ↦
            let held = card_after_open d1 d2 j [] f in
            let first : s ≡ assign t (alloc d.calls) (alloc (d.calls + 1)) (alloc (d.calls + 2)) =
              cc in
            let shape : homanic_mmap 0 s ≡ buffer (alloc d.calls) 16384 = rw first refl in
            let mine : b ≡ alloc d.calls = cc in
            let theirs : b.dma_handle ≡ (alloc d1.calls).dma_handle = cc in
            differ (rw (← mine) theirs)
      ]
