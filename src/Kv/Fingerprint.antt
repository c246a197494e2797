-- ===== src/Kv/Fingerprint.antt =====
-- Fingerprint of pkg/kv/lmcache/lmcache.go: the 64-bit FNV-1a hash of the tokens' low four bytes.
pub mod Tokens
mod Tests
use Prim.Native.Nat.{bit_xor}
use opencoda.Prelude.{ℕ, ◌-◌, ◌*◌, ◌/◌, ◌%◌, ◌^◌, Bool, true, false, List, [], ◌∷◌, ℤ, pos, negsuc}

-- uint32(t) for an int t: its value modulo 2^32.
unfoldable pub low_32 : ℤ → ℕ
low_32 (pos n) = n % 2 ^ 32
low_32 (negsuc n) = 2 ^ 32 - 1 - n % 2 ^ 32

-- byte(t >> 24), byte(t >> 16), byte(t >> 8), byte(t)
unfoldable pub token_bytes : ℤ → List ℕ
unfolding low_32
token_bytes t =
    let w = low_32 t in (w / 2 ^ 24) ∷ (w / 2 ^ 16 % 256) ∷ (w / 2 ^ 8 % 256) ∷ (w % 256) ∷ []

-- hash/fnv's New64a: offset basis and prime of the published algorithm.
abbrev pub offset_64 : ℕ
offset_64 = 14695981039346656037

abbrev pub prime_64 : ℕ
prime_64 = 1099511628211

unfoldable pub fnv_1a : ℕ → List ℕ → ℕ
fnv_1a h [] = h
fnv_1a h (b ∷ bs) = fnv_1a (bit_xor h b * prime_64 % 2 ^ 64) bs

unfoldable pub write_tokens : ℕ → List ℤ → ℕ
unfolding fnv_1a token_bytes
write_tokens h [] = h
write_tokens h (t ∷ ts) = write_tokens (fnv_1a h (token_bytes t)) ts

unfoldable pub fingerprint : List ℤ → ℕ × Bool
unfolding write_tokens
fingerprint [] = (0, false)
fingerprint (t ∷ ts) = (write_tokens offset_64 (t ∷ ts), true)
