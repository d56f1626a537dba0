-- ===== src/Apps/Header/Card.antt =====
-- hw/src/main/scala/Interfaces.scala: what the card reads from the 64 bytes of a message header.
use homa_nic.Prelude.{ℕ, ◌+◌, ◌/◌, ◌%◌, ◌^◌, ◌≡◌, ◌∙◌, refl, ap, List, [], ◌∷◌, ◌++◌}
use homa_nic.Prelude.{arith, zero, suc, length, take, drop}
use homa_nic.Prelude.Bytes.{to_bytes, from_bytes, from_to_bytes, take-append}
use homa_nic.Apps.Header.{Header, encode, IsHeader}

-- The bundle `msghdr_t`. An address of 128 bits is its bytes from the lowest.
pub record Msghdr : Type 0 where
  pub unused : ℕ
  pub saddr : List ℕ
  pub daddr : List ℕ
  pub sport : ℕ
  pub dport : ℕ
  pub buff_addr : ℕ
  pub ret : ℕ
  pub buff_size : ℕ
  pub id : ℕ
  pub completion_cookie : ℕ

-- The `w` bytes from bit `8 * i` of the bundle on, as a number.
abbrev pub bits_at : ℕ → ℕ → List ℕ → ℕ
bits_at w i bs = from_bytes (take w (drop i bs))

-- The 512 bits read as `msghdr_t`. The field that a bundle declares last takes its lowest bits: the
-- widths, from the last field on, are 32, 128, 128, 16, 16, 32, 12, 20, 64 and 64.
unfoldable pub read_msghdr : List ℕ → Msghdr
read_msghdr bs = record {
  unused = bits_at 4 0 bs;
  saddr = take 16 (drop 4 bs);
  daddr = take 16 (drop 20 bs);
  sport = bits_at 2 36 bs;
  dport = bits_at 2 38 bs;
  buff_addr = bits_at 4 40 bs;
  ret = bits_at 4 44 bs % 2 ^ 12;
  buff_size = bits_at 4 44 bs / 2 ^ 12;
  id = bits_at 8 48 bs;
  completion_cookie = bits_at 8 56 bs;
}

drop_past : (w k n : ℕ) (xs ys : List ℕ) → length xs ≡ w → n ≡ w + k → drop n (xs ++ ys) ≡ drop k ys
drop_past zero k n [] ys h e = ap (λ m. drop m ys) (omega arith)
drop_past zero k n (x ∷ xs) ys h e = absurd (omega arith)
drop_past (suc w) k n [] ys h e = absurd (omega arith)
drop_past (suc w) k zero (x ∷ xs) ys h e = absurd (omega arith)
drop_past (suc w) k (suc n) (x ∷ xs) ys h e = drop_past w k n xs ys (omega arith) (omega arith)

-- The bytes behind the two addresses.
abbrev ports_on : Header → List ℕ
ports_on h =
    to_bytes 2 h.sport
    ++ (to_bytes 2 h.dport
        ++ (to_bytes 4 h.buff_addr
            ++ (to_bytes 4 h.metadata ++ (to_bytes 8 h.id ++ to_bytes 8 h.completion_cookie))))

drop_addresses :
    (k n : ℕ) (h : Header)
    → IsHeader h
    → n ≡ 32 + k
    → drop n (h.saddr ++ (h.daddr ++ ports_on h)) ≡ drop k (ports_on h)
drop_addresses k n h v e =
    drop_past 16 (16 + k) n h.saddr (h.daddr ++ ports_on h) v.saddr (omega arith)
    ∙ drop_past 16 k (16 + k) h.daddr (ports_on h) v.daddr refl

saddr-encode : (h : Header) → IsHeader h → take 16 (drop 4 (encode h)) ≡ h.saddr
unfolding encode
saddr-encode h v = take-append 16 h.saddr (h.daddr ++ ports_on h) v.saddr

daddr-encode : (h : Header) → IsHeader h → take 16 (drop 20 (encode h)) ≡ h.daddr
unfolding encode
daddr-encode h v =
    rw (drop_past 16 0 16 h.saddr (h.daddr ++ ports_on h) v.saddr refl)
      (take-append 16 h.daddr (ports_on h) v.daddr)

unused-encode : (h : Header) → IsHeader h → bits_at 4 0 (encode h) ≡ h.unused
unfolding encode
unused-encode h v = from_to_bytes 4 h.unused v.unused

-- The card finds in the 64 bytes that a program stores each field of the program's header under
-- the same name, and its metadata word as the two fields `ret`, the low 12 bits, and `buff_size`,
-- the 20 bits above them, when each field is a value of its type.
pub read_msghdr-encode :
    (h : Header)
    → IsHeader h
    → read_msghdr (encode h) ≡ record {
      unused = h.unused;
      saddr = h.saddr;
      daddr = h.daddr;
      sport = h.sport;
      dport = h.dport;
      buff_addr = h.buff_addr;
      ret = h.metadata % 2 ^ 12;
      buff_size = h.metadata / 2 ^ 12;
      id = h.id;
      completion_cookie = h.completion_cookie;
    }
unfolding read_msghdr encode
read_msghdr-encode h v =
    rw
      (
        unused-encode h v,
        saddr-encode h v,
        daddr-encode h v,
        drop_addresses 0 32 h v refl,
        drop_addresses 2 34 h v refl,
        drop_addresses 4 36 h v refl,
        drop_addresses 8 40 h v refl,
        drop_addresses 12 44 h v refl,
        drop_addresses 20 52 h v refl,
        from_to_bytes 2 h.sport v.sport,
        from_to_bytes 2 h.dport v.dport,
        from_to_bytes 4 h.buff_addr v.buff_addr,
        from_to_bytes 4 h.metadata v.metadata,
        from_to_bytes 8 h.id v.id,
        from_to_bytes 8 h.completion_cookie v.completion_cookie,
      )
      refl
