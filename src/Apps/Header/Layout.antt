-- ===== src/Apps/Header/Layout.antt =====
-- The fields of a header in memory.
use homa_nic.Prelude.{ℕ, ◌≡◌, refl, List, ◌++◌}
use homa_nic.Prelude.{length, length-append}
use homa_nic.Prelude.Bytes.{to_bytes, from_to_bytes, take-append, drop-append}
use homa_nic.Apps.Header.{Header, encode, decode, IsHeader}

-- A header takes 64 bytes, which one 512-bit store writes.
pub length-encode : (h : Header) → IsHeader h → length (encode h) ≡ 64
unfolding encode
length-encode h v =
    rw (length-append h.saddr (h.daddr ++ fields), length-append h.daddr fields, v.saddr, v.daddr)
      refl
  where
    fields : List ℕ
    fields =
        to_bytes 2 h.sport
        ++ (to_bytes 2 h.dport
            ++ (to_bytes 4 h.buff_addr
                ++ (to_bytes 4 h.metadata ++ (to_bytes 8 h.id ++ to_bytes 8 h.completion_cookie))))

-- Each field behind the one before it.
pub decode-encode : (h : Header) → IsHeader h → decode (encode h) ≡ h
unfolding decode encode
decode-encode h v =
    let t8 : List ℕ = to_bytes 8 h.completion_cookie in
    let t7 : List ℕ = to_bytes 8 h.id ++ t8 in
    let t6 : List ℕ = to_bytes 4 h.metadata ++ t7 in
    let t5 : List ℕ = to_bytes 4 h.buff_addr ++ t6 in
    let t4 : List ℕ = to_bytes 2 h.dport ++ t5 in
    let t3 : List ℕ = to_bytes 2 h.sport ++ t4 in
    let t2 : List ℕ = h.daddr ++ t3 in
    rw
      (
        drop-append 16 h.saddr t2 v.saddr,
        drop-append 16 h.daddr t3 v.daddr,
        take-append 16 h.saddr t2 v.saddr,
        take-append 16 h.daddr t3 v.daddr,
        from_to_bytes 4 h.unused v.unused,
        from_to_bytes 2 h.sport v.sport,
        from_to_bytes 2 h.dport v.dport,
        from_to_bytes 4 h.buff_addr v.buff_addr,
        from_to_bytes 4 h.metadata v.metadata,
        from_to_bytes 8 h.id v.id,
        from_to_bytes 8 h.completion_cookie v.completion_cookie,
      )
      refl
