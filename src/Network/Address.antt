-- ===== src/Network/Address.antt =====
-- The classes of addresses of packages/adapters/src/network-policy.ts. An address is its numbers: four
-- bytes, or eight groups of 16 bits. The code compares the canonical text of the same address, in
-- which the first group is missing where it is 0.
use vrrelay.Prelude.{
  ℕ, ◌/◌, ◌%◌, Bool, ◌&&◌, ◌||◌, Option, none, some, [], ◌∷◌, leb, ◌==◌, all, if◌then◌else◌,
}

pub data Address : Type 0 where
  v4 : (a b c d : ℕ) → Address
  v6 : (a b c d e f g h : ℕ) → Address

abbrev pub between : ℕ → ℕ → ℕ → Bool
between low high n = leb low n && leb n high

abbrev pub is_zero : ℕ → Bool
is_zero n = n == 0

-- `mappedIPv4`
unfoldable pub mapped : Address → Option Address
mapped (v4 a b c d) = none
mapped (v6 a b c d e f g h) =
    if all is_zero (a ∷ b ∷ c ∷ d ∷ e ∷ []) && f == 65535
    then some (v4 (g / 256) (g % 256) (h / 256) (h % 256))
    else none

-- `isPrivateIPv4`
unfoldable pub is_private_v4 : ℕ → ℕ → Bool
is_private_v4 a b =
    a == 10
    || a == 127
    || (a == 100 && between 64 127 b)
    || (a == 172 && between 16 31 b)
    || (a == 192 && b == 168)

unfoldable pub private_own : Address → Bool
private_own (v4 a b c d) = is_private_v4 a b
private_own (v6 a b c d e f g h) =
    (all is_zero (a ∷ b ∷ c ∷ d ∷ e ∷ f ∷ g ∷ []) && h == 1) || between 64512 65023 a

-- `isPrivateAddress`, with `isPrivateIPv6`
unfoldable pub is_private : Address → Bool
unfolding private_own
is_private x = elim (mapped x) [ some y ↦ private_own y | none ↦ private_own x ]

-- `BLOCKED_METADATA_IPV4`
abbrev pub is_metadata_v4 : ℕ → ℕ → ℕ → ℕ → Bool
is_metadata_v4 a b c d =
    (a == 100 && b == 100 && c == 100 && d == 200)
    || (a == 168 && b == 63 && c == 129 && d == 16)
    || (a == 192 && b == 0 && c == 0 && d == 192)

-- `BLOCKED_METADATA_IPV6`: fd00:ec2::254 and fd20:ce::254
abbrev pub is_metadata_v6 : (a b c d e f g h : ℕ) → Bool
is_metadata_v6 a b c d e f g h =
    ((a == 64768 && b == 3778) || (a == 64800 && b == 206))
    && all is_zero (c ∷ d ∷ e ∷ f ∷ g ∷ [])
    && h == 596

unfoldable pub blocked_own : Address → Bool
blocked_own (v4 a b c d) = a == 0 || (a == 169 && b == 254) || leb 224 a || is_metadata_v4 a b c d
blocked_own (v6 a b c d e f g h) =
    all is_zero (a ∷ b ∷ c ∷ d ∷ e ∷ f ∷ g ∷ h ∷ [])
    || is_metadata_v6 a b c d e f g h
    || between 65152 65215 a
    || between 65280 65535 a

-- `isBlockedAddress`
unfoldable pub is_blocked : Address → Bool
unfolding blocked_own
is_blocked x = elim (mapped x) [ some y ↦ blocked_own y | none ↦ blocked_own x ]
