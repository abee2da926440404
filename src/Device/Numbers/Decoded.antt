-- ===== src/Device/Numbers/Decoded.antt =====
-- Linux's packed device numbers.
use tenstorrent_dra_framewor.Base.{ℕ, ◌+◌, ◌*◌, ◌/◌, ◌%◌, ◌^◌, ◌<◌, ◌≡◌, arith}
use tenstorrent_dra_framewor.Device.Numbers.{major_minor}

-- The number that Linux packs: twelve low bits of the major number above eight of the minor one, then the
-- rest of the minor number and the rest of the major one.
abbrev pub pack : ℕ → ℕ → ℕ
pack major minor =
    minor % 2 ^ 8 + major % 2 ^ 12 * 2 ^ 8 + minor / 2 ^ 8 * 2 ^ 20 + major / 2 ^ 12 * 2 ^ 44

-- Decoding a packed number gives its parts, where the major number has twelve bits, as Linux's have, and
-- the minor one 32.
pub major_minor-pack :
    (major minor : ℕ)
    → major < 2 ^ 12
    → minor < 2 ^ 32
    → major_minor (pack major minor) ≡ (major, minor)
unfolding major_minor
major_minor-pack major minor h k =
    let first : pack major minor / 2 ^ 8 % 2 ^ 12 + pack major minor / 2 ^ 32 / 2 ^ 12 * 2 ^ 12
        ≡ major =
      omega arith in
    let second : pack major minor % 2 ^ 8 + pack major minor / 2 ^ 12 / 2 ^ 8 * 2 ^ 8 ≡ minor =
      omega arith in
    λ i. (first i, second i)
