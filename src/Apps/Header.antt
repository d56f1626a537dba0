-- ===== src/Apps/Header.antt =====
-- app/lib/nic_utils.h: the message header that programs write to the card. The struct is packed and the processor little-endian, so a field
-- of `w` bytes is its bytes from the lowest; an array of `char` is a list of bytes.
pub mod Layout
pub mod Card
use homa_nic.Prelude.{
  ℕ, zero, suc, ◌+◌, ◌-◌, ◌*◌, ◌/◌, ◌%◌, ◌^◌, ◌≤◌, ◌<◌, ◌≡◌, ◌∙◌, refl, ap, List, [], ◌∷◌, ◌++◌,
}
use homa_nic.Prelude.{arith, length, take, drop, length-append}
use homa_nic.Prelude.Bytes.{to_bytes, from_bytes}

-- `struct msghdr_send_t`; its field `cc` is `completion_cookie` here.
pub record Header : Type 0 where
  pub unused : ℕ
  pub saddr : List ℕ
  pub daddr : List ℕ
  pub sport : ℕ
  pub dport : ℕ
  pub buff_addr : ℕ
  pub metadata : ℕ
  pub id : ℕ
  pub completion_cookie : ℕ

-- The struct in memory.
unfoldable pub encode : Header → List ℕ
encode h =
    to_bytes 4 h.unused
    ++ (h.saddr
        ++ (h.daddr
            ++ (to_bytes 2 h.sport
                ++ (to_bytes 2 h.dport
                    ++ (to_bytes 4 h.buff_addr
                        ++ (to_bytes 4 h.metadata
                            ++ (to_bytes 8 h.id ++ to_bytes 8 h.completion_cookie)))))))

-- The fields read from memory, one behind the other.
unfoldable pub decode : List ℕ → Header
decode bs =
    let r1 : List ℕ = drop 4 bs in
    let r2 : List ℕ = drop 16 r1 in
    let r3 : List ℕ = drop 16 r2 in
    let r4 : List ℕ = drop 2 r3 in
    let r5 : List ℕ = drop 2 r4 in
    let r6 : List ℕ = drop 4 r5 in
    let r7 : List ℕ = drop 4 r6 in
    let r8 : List ℕ = drop 8 r7 in
    record {
      unused = from_bytes (take 4 bs);
      saddr = take 16 r1;
      daddr = take 16 r2;
      sport = from_bytes (take 2 r3);
      dport = from_bytes (take 2 r4);
      buff_addr = from_bytes (take 4 r5);
      metadata = from_bytes (take 4 r6);
      id = from_bytes (take 8 r7);
      completion_cookie = from_bytes (take 8 r8);
    }

-- Each field is a value of its type.
pub record IsHeader (h : Header) : Type 0 where
  pub unused : h.unused < 2 ^ 32
  pub saddr : length h.saddr ≡ 16
  pub daddr : length h.daddr ≡ 16
  pub sport : h.sport < 2 ^ 16
  pub dport : h.dport < 2 ^ 16
  pub buff_addr : h.buff_addr < 2 ^ 32
  pub metadata : h.metadata < 2 ^ 32
  pub id : h.id < 2 ^ 64
  pub completion_cookie : h.completion_cookie < 2 ^ 64
