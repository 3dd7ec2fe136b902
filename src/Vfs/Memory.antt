-- ===== src/Vfs/Memory.antt =====
-- Raw memory: a `uint8_t *` seen as the function from an index to the byte there. The sizes of
-- the buffers are those of aes_vfs/PageCipher.h.
use sqlite3gen.Base.{ℕ, ◌+◌, ◌-◌, ◌*◌, ◌/◌, ◌%◌, ◌^◌, ◌<◌, ◌≡◌, ◌&&◌, ltb, leb, if◌then◌else◌}
use Prim.Native.Nat.{bit_xor}

abbrev pub Buffer : Type 0
Buffer = ℕ → ℕ

abbrev pub page_size : ℕ
page_size = 4096

abbrev pub page_size_disk : ℕ
page_size_disk = 4096 + 32

abbrev pub zeros : Buffer
zeros _ = 0

-- memcpy(dst + d, src + s, n), as the new contents of `dst`.
unfoldable pub memcpy : Buffer → ℕ → Buffer → ℕ → ℕ → Buffer
memcpy dst d src s n i = if leb d i && ltb i (d + n) then src (i - d + s) else dst i

-- memset(dst + d, value, n).
unfoldable pub memset : Buffer → ℕ → ℕ → ℕ → Buffer
memset dst d value n i = if leb d i && ltb i (d + n) then value else dst i

-- The 32-bit word of index `w` in a buffer, least significant byte first.
unfoldable pub load32 : Buffer → ℕ → ℕ
load32 b w = b (4 * w) + 2 ^ 8 * b (4 * w + 1) + 2 ^ 16 * b (4 * w + 2) + 2 ^ 24 * b (4 * w + 3)

unfoldable pub store32 : Buffer → ℕ → ℕ → Buffer
store32 b w v i =
    if leb (4 * w) i && ltb i (4 * w + 4) then v / 2 ^ (8 * (i - 4 * w)) % 2 ^ 8 else b i

-- `pageptr[w] ^= m`.
unfoldable pub xor32 : Buffer → ℕ → ℕ → Buffer
unfolding load32 store32
xor32 b w m = store32 b w (bit_xor (load32 b w) m)

-- Two buffers hold the same first `n` bytes.
abbrev pub Agree : ℕ → Buffer → Buffer → Type 0
Agree n a b = (i : ℕ) → i < n → a i ≡ b i
