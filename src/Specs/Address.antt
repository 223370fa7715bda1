-- ===== src/Specs/Address.antt =====
-- apps/api/src/routes/specs.rs: the addresses that no document is fetched from. An IPv4 address is its
-- four octets, an IPv6 address its eight segments.
use migration_platform.Prelude.{
  ℕ, ◌+◌, ◌*◌, ◌/◌, ◌<◌, ◌≤◌, ◌≡◌, ◌↔◌, ◌⊎◌, Bool, true, ◌&&◌, ◌||◌, ◌==◌, leb, ltb, arith,
}

pub data IpAddr : Type 0 where
  v4 : (a b c d : ℕ) → IpAddr
  v6 : (s₀ s₁ s₂ s₃ s₄ s₅ s₆ s₇ : ℕ) → IpAddr

-- `Ipv4Addr::is_loopback`, `is_private`, `is_link_local` and `is_unspecified`
unfoldable pub is_private_v4 : ℕ → ℕ → Bool
is_private_v4 a b =
    (a == 10) || (((a == 172) && (leb 16 b && leb b 31)) || ((a == 192) && (b == 168)))

unfoldable pub is_link_local_v4 : ℕ → ℕ → Bool
is_link_local_v4 a b = (a == 169) && (b == 254)

-- All segments but the last are zero.
abbrev tail_only : (s₀ s₁ s₂ s₃ s₄ s₅ s₆ : ℕ) → Bool
tail_only s₀ s₁ s₂ s₃ s₄ s₅ s₆ =
    (s₀ == 0)
    && ((s₁ == 0) && ((s₂ == 0) && ((s₃ == 0) && ((s₄ == 0) && ((s₅ == 0) && (s₆ == 0))))))

-- `s & 0xfe00 == 0xfc00` keeps the upper seven bits of a segment, `s & 0xffc0 == 0xfe80` the upper ten.
unfoldable pub ip_is_private : IpAddr → Bool
unfolding is_private_v4 is_link_local_v4
ip_is_private (v4 a b c d) =
    (a == 127)
    || (is_private_v4 a b
        || (is_link_local_v4 a b
            || (((a == 0) && ((b == 0) && ((c == 0) && (d == 0))))
                || ((a == 100) && (leb 64 b && ltb b 128)))))
ip_is_private (v6 s₀ s₁ s₂ s₃ s₄ s₅ s₆ s₇) =
    (tail_only s₀ s₁ s₂ s₃ s₄ s₅ s₆ && (s₇ == 1))
    || ((tail_only s₀ s₁ s₂ s₃ s₄ s₅ s₆ && (s₇ == 0))
        || ((s₀ / 512 * 512 == 0xfc00) || (s₀ / 64 * 64 == 0xfe80)))

-- The address as a number, and whether it lies in the block of addresses from one on.
abbrev pub number_v4 : (a b c d : ℕ) → ℕ
number_v4 a b c d = a * 16777216 + b * 65536 + c * 256 + d

abbrev pub InBlock : ℕ → ℕ → ℕ → Type 0
InBlock first size n = (first ≤ n) × (n < first + size)

-- The blocks of IPv4 that the RFCs keep for hosts, private networks and links: 0.0.0.0/32,
-- 10.0.0.0/8, 100.64.0.0/10, 127.0.0.0/8, 169.254.0.0/16, 172.16.0.0/12 and 192.168.0.0/16.
abbrev pub InPrivateBlock : ℕ → Type 0
InPrivateBlock n =
    InBlock 0 1 n
    ⊎ (InBlock 167772160 16777216 n
        ⊎ (InBlock 1681915904 4194304 n
            ⊎ (InBlock 2130706432 16777216 n
                ⊎ (InBlock 2851995648 65536 n
                    ⊎ (InBlock 2886729728 1048576 n ⊎ InBlock 3232235520 65536 n)))))

-- An IPv4 address is refused exactly if it lies in one of the blocks for private use.
pub ip_is_private-InPrivateBlock :
    (a b c d : ℕ)
    → a < 256
    → b < 256
    → c < 256
    → d < 256
    → (ip_is_private (v4 a b c d) ≡ true) ↔ InPrivateBlock (number_v4 a b c d)
unfolding ip_is_private
ip_is_private-InPrivateBlock a b c d ha hb hc hd = ground arith
